-- ===== src/Input/Host.antt =====
-- The devices that src/input.c has for itself, over any rounds and devices that appear.
use spicy_kvm.Prelude.{ℕ, ◌≡◌, refl, true, false, List, [], ◌∷◌, arith, inl, inr, Option-cases}
use spicy_kvm.Input.Keys.{Key}
use spicy_kvm.Input.State.{Input}
use spicy_kvm.Input.Probe.{
  Probe, Action, add_action, no_action, other_action, open_slot, input_udev_handler,
}
use spicy_kvm.Input.Slots.{add_cases, free_slot-some}
use spicy_kvm.Input.System.{System, after_round, after_added}
use spicy_kvm.Input.Invariant.{Inv}
use spicy_kvm.Input.Reachable.{IsSound}
use spicy_kvm.Input.Run.{Move, runs, plugs, move, moves, move-IsSound}
use spicy_kvm.Input.Held.{is_held, is_wanted, obliging, abandons, Exact}
use spicy_kvm.Input.Held.Rounds.{device_round-Exact}

-- Every grab of the move succeeds, and it is not the end of a long press on another device than the
-- keyboard, during a press there.
abbrev pub Fair : Move → System → Type 0
Fair (runs env i r) s = (env ≡ obliging env.now) × (abandons env i r s.input ≡ false)
Fair (plugs a p codes) s = Unit

abbrev pub AllFair : List Move → System → Type 0
AllFair [] s = Unit
AllFair (m ∷ ms) s = Fair m s × AllFair ms (move m s)

unwanted : (idx : ℕ) (s : Input) → s.libevdev idx ≡ false → Inv s → is_wanted s idx ≡ false
unwanted idx s h v = ground arith

open_slot-Exact :
    (p : Probe) (codes : List Key) (idx j : ℕ) (s : Input)
    → s.libevdev idx ≡ false
    → Inv s
    → Exact s j
    → Exact (open_slot p codes idx s).input j
unfolding open_slot
open_slot-Exact p codes idx j s h v e = ground (arith, unwanted idx s h v)

plug-Exact :
    (a : Action) (p : Probe) (codes : List Key) (j : ℕ) (s : Input)
    → Inv s
    → Exact s j
    → Exact (input_udev_handler a p codes s).input j
unfolding input_udev_handler
plug-Exact add_action p codes j s v e =
    add_cases (λ a. Exact a.input j) p codes s (λ rc. e)
      λ idx f.
        open_slot-Exact p codes idx j s (free_slot-some s.libevdev 64 0 64 idx refl f).free v e
plug-Exact no_action p codes j s v e = e
plug-Exact other_action p codes j s v e = e

move-Exact :
    (m : Move) (s : System) (j : ℕ)
    → IsSound s
    → Fair m s
    → Exact s.input j
    → Exact (move m s).input j
unfolding after_round after_added
move-Exact (runs env i r) s j v f x = elim (Option-cases (s.threads i)) [
  | inl e ↦ rw (e, move) x
  | inr (t, e) ↦
      let live : s.input.libevdev i ≡ true = ground (arith, v.live i) in
      let fair : abandons (obliging env.now) i r s.input ≡ false = rw f.0 at f.1 in
      rw (e, move) (rw f.0 (device_round-Exact env.now i r s.input t j live v.inv fair x))
]
move-Exact (plugs a p codes) s j v f x = plug-Exact a p codes j s.input v.inv x

-- Over any rounds and devices that appear, in which every grab succeeds and no long press is ended on
-- another device than the keyboard, during a press there: a device is grabbed exactly if it is recorded
-- as the keyboard or the mouse, and is not the mouse while `temp_ungrabbed_mouse` is set (which it is by a
-- grab key that goes down on the keyboard while there is a mouse); if that was so before.
pub moves-Exact :
    (ms : List Move) (s : System) (j : ℕ)
    → IsSound s
    → AllFair ms s
    → is_held s.input.calls j ≡ is_wanted s.input j
    → let s' = moves ms s in is_held s'.input.calls j ≡ is_wanted s'.input j
moves-Exact [] s j v f x = x
moves-Exact (m ∷ ms) s j v f x =
    moves-Exact ms (move m s) j (move-IsSound m s v) f.1 (move-Exact m s j v f.0 x)
