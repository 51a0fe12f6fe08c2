-- ===== src/Input/Invariant.antt =====
-- What holds of the grabs of src/input.c between two rounds of the device threads.
use spicy_kvm.Prelude.{
  ℕ, ◌≡◌, Bool, true, Option, none, some, ℤ, is_num, Bool-cases, inl, inr, arith,
}
use spicy_kvm.Input.State.{
  Event, ev_key, Read, again, nodev, failed, success, sync, Input, Env, is_some,
}
use spicy_kvm.Input.Grab.{
  input_ungrab, grab_key_down, toggle_grab, regrab_mouse, grab_key_up, on_grab_key, claim_mouse,
  lose_device,
}
use spicy_kvm.Input.Report.{Thread}
use spicy_kvm.Input.Device.{forward, on_event, device_round}

-- An index that is not -1 names a slot that is not null.
abbrev pub is_tracked : (ℕ → Bool) → Option ℕ → Bool
is_tracked slots none = true
is_tracked slots (some k) = slots k

pub record Inv (s : Input) : Type 0 where
  pub mouse_with_keyboard : is_some s.grabbed_mouse ≡ true → is_some s.grabbed_keyboard ≡ true
  pub temp_with_mouse :
      s.temp_ungrabbed_mouse ≡ true
      → is_some s.grabbed_keyboard ≡ true
      → is_some s.grabbed_mouse ≡ true
  pub keyboard_tracked : is_tracked s.libevdev s.grabbed_keyboard ≡ true
  pub mouse_tracked : is_tracked s.libevdev s.grabbed_mouse ≡ true

input_ungrab-none :
    (env : Env) (s : Input)
    → ((input_ungrab env s).grabbed_keyboard ≡ none) × ((input_ungrab env s).grabbed_mouse ≡ none)
unfolding input_ungrab
input_ungrab-none env s = ground arith

input_ungrab-libevdev : (env : Env) (s : Input) → (input_ungrab env s).libevdev ≡ s.libevdev
unfolding input_ungrab
input_ungrab-libevdev env s = ground arith

pub grab_key_down-Inv : (env : Env) (idx : ℕ) (s : Input) → Inv s → Inv (grab_key_down env idx s)
unfolding grab_key_down
grab_key_down-Inv env idx s v = ground arith

grab_key_up-Inv :
    (env : Env) (idx : ℕ) (s : Input) → s.libevdev idx ≡ true → Inv s → Inv (grab_key_up env idx s)
unfolding grab_key_up toggle_grab regrab_mouse
grab_key_up-Inv env idx s live v = ground arith

pub libevdev-grab_key_down :
    (env : Env) (idx : ℕ) (s : Input) → (grab_key_down env idx s).libevdev ≡ s.libevdev
unfolding grab_key_down
libevdev-grab_key_down env idx s = ground arith

on_grab_key-Inv :
    (env : Env) (idx : ℕ) (value : ℤ) (s : Input)
    → s.libevdev idx ≡ true
    → Inv s
    → Inv (on_grab_key env idx value s)
unfolding on_grab_key
on_grab_key-Inv env idx value s live v =
    let down = grab_key_down-Inv env idx s v in
    let down_live : (grab_key_down env idx s).libevdev idx ≡ true =
      rw (libevdev-grab_key_down env idx s) live in
    elim (Bool-cases (is_num value 1)) [
      | inl p ↦ elim (Bool-cases (is_num value 0)) [
        | inl q ↦ rw (p, q) (grab_key_up-Inv env idx (grab_key_down env idx s) down_live down)
        | inr q ↦ rw (p, q) down
      ]
      | inr p ↦ elim (Bool-cases (is_num value 0)) [
        | inl q ↦ rw (p, q) (grab_key_up-Inv env idx s live v)
        | inr q ↦ rw (p, q) v
      ]
    ]

pub claim_mouse-Inv :
    (env : Env) (idx : ℕ) (ev : Event) (s : Input)
    → s.libevdev idx ≡ true
    → Inv s
    → Inv (claim_mouse env idx ev s)
unfolding claim_mouse
claim_mouse-Inv env idx ev s live v = ground arith

lose_device-Inv : (env : Env) (idx : ℕ) (s : Input) → Inv s → Inv (lose_device env idx s)
unfolding lose_device
lose_device-Inv env idx s v = ground arith

forward-Inv :
    (env : Env) (idx : ℕ) (ev : Event) (s : Input) (t : Thread)
    → s.libevdev idx ≡ true
    → Inv s
    → Inv (forward env idx ev s t).input
unfolding forward
forward-Inv env idx ev s t live v = ground (arith, claim_mouse-Inv env idx ev s live v)

on_event-Inv :
    (env : Env) (idx : ℕ) (ev : Event) (s : Input) (t : Thread)
    → s.libevdev idx ≡ true
    → Inv s
    → Inv (on_event env idx ev s t).input
unfolding on_event
on_event-Inv env idx (ev_key k value) s t live v = elim (Bool-cases (s.grab_key k)) [
  | inl p ↦ rw p (on_grab_key-Inv env idx value s live v)
  | inr p ↦ rw p (forward-Inv env idx (ev_key k value) s t live v)
]
on_event-Inv env idx ev s t live v = forward-Inv env idx ev s t live v

-- A round of the thread of a device that is in use keeps the invariant of the grabs, whatever is
-- read and however the grabs turn out.
pub device_round-Inv :
    (env : Env) (idx : ℕ) (r : Read) (s : Input) (t : Thread)
    → s.libevdev idx ≡ true
    → Inv s
    → Inv (device_round env idx r s t).input
unfolding device_round
device_round-Inv env idx again s t live v = v
device_round-Inv env idx nodev s t live v = lose_device-Inv env idx s v
device_round-Inv env idx failed s t live v = lose_device-Inv env idx s v
device_round-Inv env idx (success ev) s t live v = on_event-Inv env idx ev s t live v
device_round-Inv env idx (sync ev) s t live v = on_event-Inv env idx ev s _ live v
