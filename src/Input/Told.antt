-- ===== src/Input/Told.antt =====
-- The rounds of all devices of src/input.c, in any order: what the guest takes to be pressed.
use spicy_kvm.Prelude.{
  ℕ, ◌<◌, ◌≡◌, refl, ◌∙◌, ap, sym, false, not, ◌&&◌, none, some, List, [], ◌∷◌, ◌++◌, if◌then◌else◌,
  arith, inl, inr, Option-cases,
}
use spicy_kvm.Input.Keys.{Key}
use spicy_kvm.Input.State.{Event, ev_key, Read, again, nodev, failed, success, sync, Input, Env}
use spicy_kvm.Input.Grab.{on_grab_key, claim_mouse, lose_device}
use spicy_kvm.Input.Report.{Thread}
use spicy_kvm.Input.Device.{count_sync, forward, on_event, device_round}
use spicy_kvm.Input.Heard.{
  sent, is_grab_event, is_grab_key, is_heard, sent-on_grab_key, sent-claim_mouse, sent-lose_device,
}
use spicy_kvm.Input.Probe.{
  Probe, Action, add_action, no_action, other_action, open_slot, input_add_device,
  input_udev_handler,
}
use spicy_kvm.Input.Slots.{add_cases}
use spicy_kvm.Input.System.{System, after_round, after_added}
use spicy_kvm.Input.Run.{Move, runs, plugs, move, moves}
use spicy_kvm.Input.Observer.{Observer, becomes_all, becomes_all-append}
use spicy_kvm.Input.Keys.{Button}
use spicy_kvm.Input.Guest.{has_key, keys_after, keys}
use spicy_kvm.Input.Buttons.{is_wheel, has_button, button_after, buttons}

abbrev pub event_of : Read → List Event
event_of (success ev) = ev ∷ []
event_of (sync ev) = ev ∷ []
event_of _ = []

-- The events of a round, in a state and with the state after it, that are for the guest: the device has
-- the keyboard or the mouse then, and the key is not a grab key.
abbrev pub heard_of : ℕ → Read → Input → Input → List Event
heard_of idx r s s' = if is_heard idx s' && not (is_grab_key s r) then event_of r else []

abbrev pub told : Move → System → List Event
told (runs env i r) s = elim (s.threads i) [
  | none ↦ []
  | some t ↦ heard_of i r s.input (device_round env i r s.input t).input
]
told (plugs a p codes) s = []

abbrev pub all_told : List Move → System → List Event
all_told [] s = []
all_told (m ∷ ms) s = told m s ++ all_told ms (move m s)

module _ (o : Observer) (env : Env) (idx : ℕ) (s : Input) where
  sees-forward :
      (ev : Event) (t : Thread)
      → let s' = (forward env idx ev s t).input in
        o.sees s'.calls
        ≡ (if is_heard idx s' then o.becomes ev (o.sees s.calls) else o.sees s.calls)
  unfolding forward
  sees-forward ev t =
      let claimed = claim_mouse env idx ev s in
      ground (
        arith,
        o.sees-of_sent claimed.calls s.calls (sent-claim_mouse env idx s ev),
        o.sees-handle_event ev t claimed.calls,
      )

  sees-on_event :
      (ev : Event) (t : Thread)
      → let s' = (on_event env idx ev s t).input in
        o.sees s'.calls ≡ (
          if is_heard idx s' && not (is_grab_event s ev)
          then o.becomes ev (o.sees s.calls)
          else o.sees s.calls)
  unfolding on_event
  sees-on_event (ev_key k value) t = ground (
    arith,
    sees-forward (ev_key k value) t,
    o.sees-of_sent (on_grab_key env idx value s).calls s.calls (sent-on_grab_key env idx value s),
  )
  sees-on_event ev t = ground (arith, sees-forward ev t)

sees-round :
    (o : Observer) (env : Env) (idx : ℕ) (r : Read) (s : Input) (t : Thread)
    → let s' = (device_round env idx r s t).input in
      o.sees s'.calls ≡ becomes_all o.becomes (heard_of idx r s s') (o.sees s.calls)
unfolding device_round
sees-round o env idx again s t = ground arith
sees-round o env idx nodev s t =
    ground
      (arith, o.sees-of_sent (lose_device env idx s).calls s.calls (sent-lose_device env idx s))
sees-round o env idx failed s t =
    ground
      (arith, o.sees-of_sent (lose_device env idx s).calls s.calls (sent-lose_device env idx s))
sees-round o env idx (success ev) s t = ground (arith, sees-on_event o env idx s ev t)
sees-round o env idx (sync ev) s t =
    ground (arith, sees-on_event o env idx s ev (record t { sync = count_sync t.sync }))

sent-open_slot :
    (p : Probe) (codes : List Key) (idx : ℕ) (s : Input)
    → sent (open_slot p codes idx s).input.calls ≡ sent s.calls
unfolding open_slot
sent-open_slot p codes idx s = ground arith

pub sees-plug :
    (o : Observer) (a : Action) (p : Probe) (codes : List Key) (s : Input)
    → o.sees (input_udev_handler a p codes s).input.calls ≡ o.sees s.calls
unfolding input_udev_handler
sees-plug o add_action p codes s = o.sees-of_sent (input_add_device p codes s).input.calls s.calls (
    add_cases (λ a. sent a.input.calls ≡ sent s.calls) p codes s (λ rc. refl)
      λ idx e. sent-open_slot p codes idx s)
sees-plug o no_action p codes s = refl
sees-plug o other_action p codes s = refl

pub sees-move :
    (o : Observer) (m : Move) (s : System)
    → o.sees (move m s).input.calls ≡ becomes_all o.becomes (told m s) (o.sees s.input.calls)
unfolding after_round after_added
sees-move o (runs env i r) s = elim (Option-cases (s.threads i)) [
  | inl e ↦ rw (e, move, told) refl
  | inr (t, e) ↦ rw (e, move, told) (sees-round o env i r s.input t)
]
sees-move o (plugs a p codes) s = sees-plug o a p codes s.input

sees-moves :
    (o : Observer) (ms : List Move) (s : System)
    → o.sees (moves ms s).input.calls ≡ becomes_all o.becomes (all_told ms s) (o.sees s.input.calls)
sees-moves o [] s = refl
sees-moves o (m ∷ ms) s =
    sees-moves o ms (move m s)
    ∙ ap (becomes_all o.becomes (all_told ms (move m s))) (sees-move o m s)
    ∙ sym (becomes_all-append o.becomes (told m s) (all_told ms (move m s)) (o.sees s.input.calls))

-- Over the rounds of all devices, and devices that appear, in any order, the guest takes a key to be
-- pressed exactly if the last event of the key among those for the guest pressed it; or if there is none
-- and it was pressed before. Keys are told apart by their scancode, which is not 0.
pub has_key-moves :
    (c : ℕ) (ms : List Move) (s : System)
    → 0 < c
    → has_key c (moves ms s).input.calls ≡ keys_after c (all_told ms s) (has_key c s.input.calls)
has_key-moves c ms s h = sees-moves (keys c h) ms s

-- Over the rounds of all devices, and devices that appear, in any order, the guest takes a mouse button to be
-- pressed exactly if the last event of the button among those for the guest pressed it; or if there is none
-- and it was pressed before. The button is none of the two that are the wheel.
pub has_button-moves :
    (b : Button) (ms : List Move) (s : System)
    → is_wheel b ≡ false
    → has_button b (moves ms s).input.calls
      ≡ becomes_all (button_after b) (all_told ms s) (has_button b s.input.calls)
has_button-moves b ms s h = sees-moves (buttons b h) ms s
