-- ===== src/Input/Sharing.antt =====
-- What src/input.c is for, without its details: which keyboard and which mouse the guest has.
use spicy_kvm.Prelude.{
  ℕ, ◌≡◌, Bool, not, ◌&&◌, ◌||◌, Option, none, some, ◌==◌, if◌then◌else◌, ℤ, is_num, inl, inr,
  Bool-cases, arith,
}
use spicy_kvm.Input.State.{
  Event, ev_key, Read, again, nodev, failed, success, sync, Input, Env, is_at,
}
use spicy_kvm.Input.Grab.{
  grab_key_down, is_short, toggle_grab, regrab_mouse, grab_key_up, on_grab_key, claim_mouse,
  is_motion, lose_device,
}
use spicy_kvm.Input.Report.{Thread}
use spicy_kvm.Input.Device.{forward, on_event, device_round}
use spicy_kvm.Input.Invariant.{Inv}

-- The guest has nothing, or a keyboard and maybe a mouse.
pub data Share : Type 0 where
  alone : Share
  shares : ℕ → Option ℕ → Share

-- What may change that: a short press of a grab key on a device, a movement of a device, and the loss of
-- one. The Booleans say whether the device can be grabbed.
pub data Cause : Type 0 where
  presses moves : ℕ → Bool → Cause
  is_lost : ℕ → Cause
  nothing : Cause

abbrev pub after : Cause → Share → Share
after (presses i ok) alone = if ok then shares i none else alone
after (presses i ok) (shares k m) = if k == i || not ok then alone else shares i none
after (moves i ok) (shares k none) =
    if k == i then shares k (some k) else if ok then shares k (some i) else shares k none
after (is_lost i) (shares k m) = if k == i || is_at m i then alone else shares k m
after _ s = s

abbrev pub view : Input → Share
view s = elim s.grabbed_keyboard [ none ↦ alone | some k ↦ shares k s.grabbed_mouse ]

-- What an event is, in a state.
abbrev cause_of_motion : Env → ℕ → Event → Cause
cause_of_motion env i ev = if is_motion ev then moves i (env.grab_ok i) else nothing

abbrev cause_of_event : Env → ℕ → Event → Input → Cause
cause_of_event env i (ev_key k value) s =
    if s.grab_key k && is_num value 0 && is_short env s then presses i (env.grab_ok i) else nothing
cause_of_event env i ev s = cause_of_motion env i ev

abbrev pub cause_of : Env → ℕ → Read → Input → Cause
cause_of env i again s = nothing
cause_of env i nodev s = is_lost i
cause_of env i failed s = is_lost i
cause_of env i (success ev) s = cause_of_event env i ev s
cause_of env i (sync ev) s = cause_of_event env i ev s

module _ (env : Env) (idx : ℕ) (s : Input) (v : Inv s) where
  view-on_grab_key :
      (value : ℤ)
      → view (on_grab_key env idx value s)
        ≡ after
            (if is_num value 0 && is_short env s then presses idx (env.grab_ok idx) else nothing)
            (view s)
  unfolding on_grab_key grab_key_down grab_key_up toggle_grab regrab_mouse
  view-on_grab_key value = ground arith

  view-claim_mouse :
      (ev : Event) → view (claim_mouse env idx ev s) ≡ after (cause_of_motion env idx ev) (view s)
  unfolding claim_mouse
  view-claim_mouse ev = ground arith

  view-lose_device : view (lose_device env idx s) ≡ after (is_lost idx) (view s)
  unfolding lose_device
  view-lose_device = ground arith

  view-forward :
      (ev : Event) (t : Thread)
      → view (forward env idx ev s t).input ≡ after (cause_of_motion env idx ev) (view s)
  unfolding forward
  view-forward ev t = ground (arith, view-claim_mouse ev)

  view-on_event :
      (ev : Event) (t : Thread)
      → view (on_event env idx ev s t).input ≡ after (cause_of_event env idx ev s) (view s)
  unfolding on_event
  view-on_event (ev_key k value) t = elim (Bool-cases (s.grab_key k)) [
    | inl p ↦ rw (p, view-on_grab_key value)
    | inr p ↦ rw (p, view-forward (ev_key k value) t)
  ]
  view-on_event ev t = view-forward ev t

-- Each round changes what the guest has as the specification says: a short press of a grab key gives it
-- the keyboard of the key, or takes all from it if it has that keyboard; with a keyboard and no mouse, the
-- device that moves becomes the mouse; the loss of either takes all. Nothing else changes it. The state
-- is one with the invariant of the grabs.
pub view-device_round :
    (env : Env) (idx : ℕ) (r : Read) (s : Input) (t : Thread)
    → Inv s
    → view (device_round env idx r s t).input ≡ after (cause_of env idx r s) (view s)
unfolding device_round
view-device_round env idx again s t v = ground arith
view-device_round env idx nodev s t v = view-lose_device env idx s v
view-device_round env idx failed s t v = view-lose_device env idx s v
view-device_round env idx (success ev) s t v = view-on_event env idx s v ev t
view-device_round env idx (sync ev) s t v = view-on_event env idx s v ev _
