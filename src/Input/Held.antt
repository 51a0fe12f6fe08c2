-- ===== src/Input/Held.antt =====
-- Which devices the program has for itself (src/input.c), seen from the calls that it made.
pub mod Sends
pub mod Rounds
use spicy_kvm.Prelude.{
  ℕ, zero, suc, negsuc, ◌⊎◌, ◌≡◌, ◌≢◌, Bool, true, false, not, ◌&&◌, ◌||◌, some, List, [], ◌∷◌,
  ◌==◌, if◌then◌else◌, ℤ, pos, is_num, Bool-cases, inl, inr, refl, arith, ltb,
}
use spicy_kvm.Input.State.{
  Event, ev_key, ev_syn, syn_report, Read, again, nodev, failed, success, sync, Call, grab, ungrab,
  close_device, Timeval, Input, Env, is_at,
}
use spicy_kvm.Input.Grab.{
  input_ungrab, grab_key_down, is_short, toggle_grab, regrab_mouse, grab_key_up, on_grab_key,
  claim_mouse, lose_device,
}
use spicy_kvm.Input.Keys.{Button, up, down}
use spicy_kvm.Input.Report.{
  Thread, Rel, FakeRel, turn_wheel, send_wheel, send_motion, send_button, send_key, report_rel,
  report_fake, handle_event,
}
use spicy_kvm.Input.Device.{forward, on_event, device_round, is_withheld}
use spicy_kvm.Input.Invariant.{Inv, grab_key_down-Inv, libevdev-grab_key_down}

-- Whether a device is grabbed after some calls, newest first: a call of `libevdev_grab` that fails
-- changes nothing, and a device that is closed is let go.
abbrev pub is_held : List Call → ℕ → Bool
is_held [] j = false
is_held (grab i ok ∷ cs) j = if ok && i == j then true else is_held cs j
is_held (ungrab i ok ∷ cs) j = if ok && i == j then false else is_held cs j
is_held (close_device i ∷ cs) j = if i == j then false else is_held cs j
is_held (_ ∷ cs) j = is_held cs j

-- The keyboard and the mouse, but for the mouse while the grab key is held.
abbrev pub is_wanted : Input → ℕ → Bool
is_wanted s j =
    (is_at s.grabbed_keyboard j || is_at s.grabbed_mouse j)
    && not (s.temp_ungrabbed_mouse && is_at s.grabbed_mouse j)

-- A system on which every grab succeeds.
abbrev pub obliging : Timeval → Env
obliging now = record { now = now; grab_ok = λ _. true; ungrab_ok = λ _. true }

-- A grab key goes up after a long press, on another device than the grabbed keyboard, while the
-- grab key is held there.
abbrev abandons_key : Env → ℕ → Event → Input → Bool
abandons_key env idx (ev_key k value) s =
    s.grab_key k
    && is_num value 0
    && not (is_short env s)
    && s.temp_ungrabbed_mouse
    && not (is_at s.grabbed_keyboard idx)
abandons_key env idx _ s = false

abbrev pub abandons : Env → ℕ → Read → Input → Bool
abandons env idx (success ev) s = abandons_key env idx ev s
abandons env idx (sync ev) s = abandons_key env idx ev s
abandons env idx _ s = false

abbrev pub Exact : Input → ℕ → Type 0
Exact s j = is_held s.calls j ≡ is_wanted s j

module _ (now : Timeval) (idx : ℕ) (s : Input) (live : s.libevdev idx ≡ true) (v : Inv s) (j : ℕ)
    (exact : Exact s j) where
  pub down_held : Exact (grab_key_down (obliging now) idx s) j
  unfolding grab_key_down
  down_held = ground arith

  pub up_held :
      (is_short (obliging now) s ≡ true)
        ⊎ ((s.temp_ungrabbed_mouse ≡ false) ⊎ (is_at s.grabbed_keyboard idx ≡ true))
      → Exact (grab_key_up (obliging now) idx s) j
  unfolding grab_key_up toggle_grab regrab_mouse
  up_held h = ground arith

  pub claim_held : (ev : Event) → Exact (claim_mouse (obliging now) idx ev s) j
  unfolding claim_mouse
  claim_held ev = ground arith

  pub lose_held : Exact (lose_device (obliging now) idx s) j
  unfolding lose_device
  lose_held = ground arith
