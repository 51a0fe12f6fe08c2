-- ===== src/Input/Refines.antt =====
-- The threads of src/input.c as a whole refine the machine of `Input.Sharing`.
use spicy_kvm.Prelude.{
  ◌≡◌, refl, ◌∙◌, ap, sym, none, some, List, [], ◌∷◌, ◌++◌, arith, inl, inr, Option-cases,
}
use spicy_kvm.Input.Keys.{Key}
use spicy_kvm.Input.State.{Input}
use spicy_kvm.Input.Probe.{Probe, Action, add_action, no_action, other_action, input_udev_handler}
use spicy_kvm.Input.Slots.{input_add_device-Keeps}
use spicy_kvm.Input.System.{System, after_round, after_added}
use spicy_kvm.Input.Reachable.{IsSound}
use spicy_kvm.Input.Run.{Move, runs, plugs, move, moves, move-IsSound}
use spicy_kvm.Input.Sharing.{Share, Cause, after, view, cause_of, view-device_round}

-- What a move is to the machine: a device that appears is nothing.
abbrev pub causes_of : Move → System → List Cause
causes_of (runs env i r) s = elim (s.threads i) [
  | none ↦ []
  | some t ↦ cause_of env i r s.input ∷ []
]
causes_of (plugs a p codes) s = []

abbrev pub causes : List Move → System → List Cause
causes [] s = []
causes (m ∷ ms) s = causes_of m s ++ causes ms (move m s)

abbrev pub after_all : List Cause → Share → Share
after_all [] h = h
after_all (c ∷ cs) h = after_all cs (after c h)

after_all-append :
    (cs ds : List Cause) (h : Share) → after_all (cs ++ ds) h ≡ after_all ds (after_all cs h)
after_all-append [] ds h = refl
after_all-append (c ∷ cs) ds h = after_all-append cs ds (after c h)

view-plug :
    (a : Action) (p : Probe) (codes : List Key) (s : Input)
    → view (input_udev_handler a p codes s).input ≡ view s
unfolding input_udev_handler
view-plug add_action p codes s =
    let k = input_add_device-Keeps p codes s in ground (arith, k.keyboard, k.mouse)
view-plug no_action p codes s = refl
view-plug other_action p codes s = refl

view-move :
    (m : Move) (s : System)
    → IsSound s
    → view (move m s).input ≡ after_all (causes_of m s) (view s.input)
unfolding after_round after_added
view-move (runs env i r) s v = elim (Option-cases (s.threads i)) [
  | inl e ↦ rw (e, move, causes_of) refl
  | inr (t, e) ↦ rw (e, move, causes_of) (view-device_round env i r s.input t v.inv)
]
view-move (plugs a p codes) s v = view-plug a p codes s.input

-- Any rounds of the threads and devices that appear, one after the other, change what the guest has as
-- the specification says: a short press of a grab key gives it the keyboard of the key, or takes all from
-- it if it has that keyboard; with a keyboard and no mouse, the device that moves becomes the mouse; the
-- loss of either takes all. Nothing else changes it. The state before is sound.
pub view-moves :
    (ms : List Move) (s : System)
    → IsSound s
    → view (moves ms s).input ≡ after_all (causes ms s) (view s.input)
view-moves [] s v = refl
view-moves (m ∷ ms) s v =
    view-moves ms (move m s) (move-IsSound m s v)
    ∙ ap (after_all (causes ms (move m s))) (view-move m s v)
    ∙ sym (after_all-append (causes_of m s) (causes ms (move m s)) (view s.input))
