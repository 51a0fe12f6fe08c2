-- ===== src/Input/Run.antt =====
-- The threads of src/input.c together, as a function: some rounds and some devices that appear, one
-- after the other.
use spicy_kvm.Prelude.{ℕ, ◌≡◌, refl, Bool, none, some, List, [], ◌∷◌, ◌++◌, Option-cases, inl, inr}
use spicy_kvm.Input.Keys.{Key}
use spicy_kvm.Input.State.{Read, Env}
use spicy_kvm.Input.Device.{device_round}
use spicy_kvm.Input.Probe.{Probe, Action, input_udev_handler}
use spicy_kvm.Input.System.{System, after_round, after_added, Reach, next, round, plug}
use spicy_kvm.Input.Reachable.{IsSound, round-IsSound, plug-IsSound}

-- A round of the thread of a slot, and a device that appears.
pub data Move : Type 0 where
  runs : Env → ℕ → Read → Move
  plugs : Action → Probe → List Key → Move

-- A slot that has no thread does nothing.
abbrev pub move : Move → System → System
move (runs env i r) s = elim (s.threads i) [
  | none ↦ s
  | some t ↦ after_round s i (device_round env i r s.input t)
]
move (plugs a p codes) s = after_added s (input_udev_handler a p codes s.input)

abbrev pub moves : List Move → System → System
moves [] s = s
moves (m ∷ ms) s = moves ms (move m s)

pub moves-append : (ms ns : List Move) (s : System) → moves (ms ++ ns) s ≡ moves ns (moves ms s)
moves-append [] ns s = refl
moves-append (m ∷ ms) ns s = moves-append ms ns (move m s)

Reach-move : {keys : Key → Bool} (m : Move) (s : System) → Reach keys s → Reach keys (move m s)
Reach-move (runs env i r) s reach = elim (Option-cases (s.threads i)) [
  | inl e ↦ rw (e, move) reach
  | inr (t, e) ↦ rw (e, move) (next reach (round env i r t e))
]
Reach-move (plugs a p codes) s reach = next reach (plug a p codes)

-- What the function computes, the step relation reaches.
pub Reach-moves :
    {keys : Key → Bool} (ms : List Move) (s : System) → Reach keys s → Reach keys (moves ms s)
Reach-moves [] s reach = reach
Reach-moves (m ∷ ms) s reach = Reach-moves ms (move m s) (Reach-move m s reach)

pub move-IsSound : (m : Move) (s : System) → IsSound s → IsSound (move m s)
move-IsSound (runs env i r) s v = elim (Option-cases (s.threads i)) [
  | inl e ↦ rw (e, move) v
  | inr (t, e) ↦ rw (e, move) (round-IsSound env i r t s e v)
]
move-IsSound (plugs a p codes) s v = plug-IsSound a p codes s v

pub moves-IsSound : (ms : List Move) (s : System) → IsSound s → IsSound (moves ms s)
moves-IsSound [] s v = v
moves-IsSound (m ∷ ms) s v = moves-IsSound ms (move m s) (move-IsSound m s v)
