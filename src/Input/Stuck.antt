-- ===== src/Input/Stuck.antt =====
-- The keys that are down on the guest of src/input.c when everything is given back.
use spicy_kvm.Prelude.{
  ℕ, ◌<◌, ◌≡◌, refl, ◌∙◌, ap, Bool, true, false, not, ◌&&◌, none, some, List, [], ◌∷◌, pos, arith,
  inl, inr, Option-cases,
}
use spicy_kvm.Input.Keys.{Key}
use spicy_kvm.Input.State.{
  Event, ev_key, Read, again, nodev, failed, success, sync, Timeval, Input, Env, tv_ms_diff,
}
use spicy_kvm.Input.Grab.{on_grab_key, claim_mouse, lose_device, input_ungrab, grab_key_down}
use spicy_kvm.Input.Report.{Thread}
use spicy_kvm.Input.Device.{forward, on_event, device_round}
use spicy_kvm.Input.Invariant.{Inv}
use spicy_kvm.Input.Held.{obliging}
use spicy_kvm.Input.Release.{press, press_frees}
use spicy_kvm.Input.Heard.{is_grab_key, sent-on_grab_key}
use spicy_kvm.Input.Guest.{keys, has_key, has_key-of_sent}
use spicy_kvm.Input.Probe.{Probe, Action, add_action, no_action, other_action, input_udev_handler}
use spicy_kvm.Input.Slots.{input_add_device-Keeps}
use spicy_kvm.Input.System.{System, after_round, after_added}
use spicy_kvm.Input.Run.{Move, runs, plugs, move, moves}
use spicy_kvm.Input.Told.{told, sees-move}

-- The guest has neither a keyboard nor a mouse.
abbrev pub IsAlone : Input → Type 0
IsAlone s = (s.grabbed_keyboard ≡ none) × (s.grabbed_mouse ≡ none)

-- No round is of a grab key.
abbrev is_plain : Move → System → Bool
is_plain (runs env i r) s = not (is_grab_key s.input r)
is_plain (plugs a p codes) s = true

abbrev pub are_plain : List Move → System → Bool
are_plain [] s = true
are_plain (m ∷ ms) s = is_plain m s && are_plain ms (move m s)

module _ (env : Env) (idx : ℕ) (s : Input) (v : IsAlone s) where
  forward-IsAlone : (ev : Event) (t : Thread) → IsAlone (forward env idx ev s t).input
  unfolding forward claim_mouse
  forward-IsAlone ev t = ground arith

  lose_device-IsAlone : IsAlone (lose_device env idx s)
  unfolding lose_device input_ungrab
  lose_device-IsAlone = ground arith

  on_event-IsAlone :
      (ev : Event) (t : Thread)
      → is_grab_key s (success ev) ≡ false
      → IsAlone (on_event env idx ev s t).input
  unfolding on_event
  on_event-IsAlone (ev_key k value) t h = ground (arith, forward-IsAlone (ev_key k value) t)
  on_event-IsAlone ev t h = forward-IsAlone ev t

  round-IsAlone :
      (r : Read) (t : Thread) → is_grab_key s r ≡ false → IsAlone (device_round env idx r s t).input
  unfolding device_round
  round-IsAlone again t h = v
  round-IsAlone nodev t h = lose_device-IsAlone
  round-IsAlone failed t h = lose_device-IsAlone
  round-IsAlone (success ev) t h = on_event-IsAlone ev t h
  round-IsAlone (sync ev) t h = on_event-IsAlone ev _ h

plug-IsAlone :
    (a : Action) (p : Probe) (codes : List Key) (s : Input)
    → IsAlone s
    → IsAlone (input_udev_handler a p codes s).input
unfolding input_udev_handler
plug-IsAlone add_action p codes s v =
    let k = input_add_device-Keeps p codes s in ground (arith, k.keyboard, k.mouse)
plug-IsAlone no_action p codes s v = v
plug-IsAlone other_action p codes s v = v

-- Such a move tells the guest nothing.
abbrev Silent : Move → System → Type 0
Silent m s = IsAlone (move m s).input × (told m s ≡ [])

move-Silent : (m : Move) (s : System) → IsAlone s.input → is_plain m s ≡ true → Silent m s
unfolding after_round after_added
move-Silent (runs env i r) s v p = elim (Option-cases (s.threads i)) [
  | inl e ↦ rw (e, move, told) (v, refl)
  | inr (t, e) ↦
      let alone = round-IsAlone env i s.input v r t (ground arith) in
      rw (e, move, told) (alone, ground (arith, alone))
]
move-Silent (plugs a p codes) s v h = (plug-IsAlone a p codes s.input v, refl)

has_key-alone :
    (c : ℕ) (ms : List Move) (s : System)
    → 0 < c
    → IsAlone s.input
    → are_plain ms s ≡ true
    → has_key c (moves ms s).input.calls ≡ has_key c s.input.calls
has_key-alone c [] s h v p = refl
has_key-alone c (m ∷ ms) s h v p =
    let (alone, silent) = move-Silent m s v (ground arith) in
    has_key-alone c ms (move m s) h alone (ground arith) ∙ sees-move (keys c h) m s ∙ rw silent refl

has_key-press :
    (c : ℕ) (k : Key) (idx : ℕ) (down_at up_at : Timeval) (t : Thread) (s : Input)
    → s.grab_key k ≡ true
    → has_key c (press k idx down_at up_at t s).calls ≡ has_key c s.calls
unfolding device_round on_event
has_key-press c k idx down_at up_at t s g =
    let down = on_grab_key (obliging down_at) idx (pos 1) s in
    let kept : down.grab_key k ≡ true = unfold on_grab_key grab_key_down in ground arith in
    let up = on_grab_key (obliging up_at) idx (pos 0) down in
    ground (
      arith,
      kept,
      has_key-of_sent c down.calls s.calls (sent-on_grab_key (obliging down_at) idx (pos 1) s),
      has_key-of_sent c up.calls down.calls (sent-on_grab_key (obliging up_at) idx (pos 0) down),
    )

-- A short press of a grab key that gives the keyboard of the guest back leaves every key of the guest as
-- it is, and so does all that the devices do from then on, until a grab key is used: a key that was down
-- on the guest stays down, also when it is released on its device.
pub has_key-released :
    (c : ℕ) (k : Key) (idx : ℕ) (down_at up_at : Timeval) (t : Thread) (s s' : System)
    (ms : List Move)
    → 0 < c
    → s.input.grab_key k ≡ true
    → s.input.grabbed_keyboard ≡ some idx
    → Inv s.input
    → tv_ms_diff up_at down_at < 250
    → s'.input ≡ press k idx down_at up_at t s.input
    → are_plain ms s' ≡ true
    → has_key c (moves ms s').input.calls ≡ has_key c s.input.calls
has_key-released c k idx down_at up_at t s s' ms h g has v short e plain =
    let (no_keyboard, no_mouse) = press_frees k idx down_at up_at t s.input g has v short in
    has_key-alone c ms s' h (ground (arith, e, no_keyboard), ground (arith, e, no_mouse)) plain
    ∙ ap (λ i. has_key c i.calls) e
    ∙ has_key-press c k idx down_at up_at t s.input g
