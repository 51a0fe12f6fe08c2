-- ===== src/Input/Heard.antt =====
-- Which devices of src/input.c reach the SPICE server.
use spicy_kvm.Prelude.{
  ℕ, ◌≡◌, refl, ◌≢◌, ◌⊎◌, inl, inr, Bool, true, false, not, ◌&&◌, ◌||◌, List, [], ◌∷◌, ℤ, is_num,
  Bool-cases, arith,
}
use spicy_kvm.Input.State.{
  Event, ev_key, Read, again, nodev, failed, success, sync, Call, grab, ungrab, open_device,
  close_device, Input, Env, is_at,
}
use spicy_kvm.Input.Grab.{
  input_ungrab, grab_key_down, toggle_grab, regrab_mouse, grab_key_up, on_grab_key, claim_mouse,
  lose_device,
}
use spicy_kvm.Input.Report.{Thread}
use spicy_kvm.Input.Device.{count_sync, forward, on_event, device_round}

-- The calls that go to the SPICE server.
abbrev pub sent : List Call → List Call
sent [] = []
sent (grab i ok ∷ cs) = sent cs
sent (ungrab i ok ∷ cs) = sent cs
sent (open_device i ∷ cs) = sent cs
sent (close_device i ∷ cs) = sent cs
sent (c ∷ cs) = c ∷ sent cs

abbrev pub is_grab_event : Input → Event → Bool
is_grab_event s (ev_key k value) = s.grab_key k
is_grab_event s _ = false

abbrev pub is_grab_key : Input → Read → Bool
is_grab_key s (success ev) = is_grab_event s ev
is_grab_key s (sync ev) = is_grab_event s ev
is_grab_key s _ = false

module _ (env : Env) (idx : ℕ) (s : Input) where
  sent-grab_key_down : sent (grab_key_down env idx s).calls ≡ sent s.calls
  unfolding grab_key_down
  sent-grab_key_down = ground arith

  sent-input_ungrab : sent (input_ungrab env s).calls ≡ sent s.calls
  unfolding input_ungrab
  sent-input_ungrab = ground arith

  sent-grab_key_up : sent (grab_key_up env idx s).calls ≡ sent s.calls
  unfolding grab_key_up toggle_grab regrab_mouse
  sent-grab_key_up = ground arith

  pub sent-lose_device : sent (lose_device env idx s).calls ≡ sent s.calls
  unfolding lose_device
  sent-lose_device = ground arith

  pub sent-claim_mouse : (ev : Event) → sent (claim_mouse env idx ev s).calls ≡ sent s.calls
  unfolding claim_mouse
  sent-claim_mouse ev = ground arith

pub sent-on_grab_key :
    (env : Env) (idx : ℕ) (value : ℤ) (s : Input)
    → sent (on_grab_key env idx value s).calls ≡ sent s.calls
unfolding on_grab_key
sent-on_grab_key env idx value s = elim (Bool-cases (is_num value 1)) [
  | inl p ↦ rw p (
      ground
        (arith, sent-grab_key_down env idx s, sent-grab_key_up env idx (grab_key_down env idx s)))
  | inr p ↦ rw p (ground (arith, sent-grab_key_up env idx s))
]

-- After a round, the device is recorded as grabbed, and is not the mouse while it is recorded as let go.
abbrev pub is_heard : ℕ → Input → Bool
is_heard idx s =
    (is_at s.grabbed_keyboard idx || is_at s.grabbed_mouse idx)
    && not (s.temp_ungrabbed_mouse && is_at s.grabbed_mouse idx)

forward_sends :
    (env : Env) (idx : ℕ) (ev : Event) (s : Input) (t : Thread)
    → let s' = (forward env idx ev s t).input in
      (sent s'.calls ≡ sent s.calls) ⊎ (is_heard idx s' ≡ true)
unfolding forward
forward_sends env idx ev s t = ground (arith, sent-claim_mouse env idx s ev)

event_sends :
    (env : Env) (idx : ℕ) (ev : Event) (s : Input) (t : Thread)
    → let s' = (on_event env idx ev s t).input in
      (sent s'.calls ≡ sent s.calls)
      ⊎ ((is_heard idx s' ≡ true) × (is_grab_key s (success ev) ≡ false))
unfolding on_event
event_sends env idx (ev_key k value) s t =
    ground (arith, sent-on_grab_key env idx value s, forward_sends env idx (ev_key k value) s t)
event_sends env idx ev s t = ground (arith, forward_sends env idx ev s t)

-- A round that sends anything to the server is of a device that is then recorded as the keyboard or the
-- mouse, and is not the mouse while `temp_ungrabbed_mouse` is set; and it did not read an event of a grab
-- key.
pub device_round_sends :
    (env : Env) (idx : ℕ) (r : Read) (s : Input) (t : Thread)
    → let s' = (device_round env idx r s t).input in
      sent s'.calls ≢ sent s.calls → (is_heard idx s' ≡ true) × (is_grab_key s r ≡ false)
unfolding device_round
device_round_sends env idx again s t h = absurd (h refl)
device_round_sends env idx nodev s t h = absurd (h (sent-lose_device env idx s))
device_round_sends env idx failed s t h = absurd (h (sent-lose_device env idx s))
device_round_sends env idx (success ev) s t h = ground (arith, event_sends env idx ev s t)
device_round_sends env idx (sync ev) s t h =
    ground (arith, event_sends env idx ev s (record t { sync = count_sync t.sync }))
