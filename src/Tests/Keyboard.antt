-- ===== src/Tests/Keyboard.antt =====
-- Keys, grabs and slots of src/input.c.
use spicy_kvm.Prelude.{
  ◌≡◌, ◌≢◌, refl, Bool, true, false, none, some, List, [], ◌∷◌, ◌++◌, ltb, pos, arith,
}
use spicy_kvm.Input.Keys.{
  Key, key_a, key_print, key_sysrq, key_rightctrl, linux_to_ps2, linux_to_spice,
}
use spicy_kvm.Input.Scancodes.{guest_key, linux_to_ps2-injective}
use spicy_kvm.Input.State.{ev_key, Read, grab, ungrab, Input, Env, tv_ms_diff}
use spicy_kvm.Input.Grab.{is_short, claim_mouse}
use spicy_kvm.Input.Report.{thread_start, handle_event, send_key, send_button}
use spicy_kvm.Input.Device.{device_round, on_event, forward, is_withheld}
use spicy_kvm.Input.Invariant.{Inv, device_round-Inv}
use spicy_kvm.Input.Heard.{sent, is_heard, is_grab_key, device_round_sends}
use spicy_kvm.Input.Held.{is_held, obliging}
use spicy_kvm.Input.Held.Rounds.{device_round-abandons}
use spicy_kvm.Input.Probe.{
  Probe, done, add_action, event_prefix, starts_with, free_slot, has_grab_key, is_supported,
  open_slot, input_add_device, input_udev_handler,
}
use spicy_kvm.Input.Slots.{IsFirst, input_add_device-started}
use spicy_kvm.Input.System.{
  input_start, System, system_start, after_added, Reach, start, next, plug,
}
use spicy_kvm.Input.Init.{Setup}
use spicy_kvm.Input.Reachable.{IsSound, Reach-IsSound}

abbrev is_right_ctrl : Key → Bool
is_right_ctrl key_rightctrl = true
is_right_ctrl _ = false

-- Device 0 is the keyboard and device 1 the mouse, let go while the grab key is held on device 0.
abbrev pub holding : Input
holding = record {
  libevdev = λ i. ltb i 3;
  grab_key = is_right_ctrl;
  grabbed_keyboard = some 0;
  grabbed_mouse = some 1;
  grab_key_at = record { tv_sec = 100; tv_usec = 0 };
  temp_ungrabbed_mouse = true;
  calls = ungrab 1 true ∷ grab 1 true ∷ grab 0 true ∷ [];
}

abbrev later : Env
later = obliging (record { tv_sec = 101; tv_usec = 0 })

abbrev pub soon : Env
soon = obliging (record { tv_sec = 100; tv_usec = 249999 })

abbrev pub ctrl_up : Read
ctrl_up = Read.success (ev_key key_rightctrl (pos 0))

abbrev pub a_down : Read
a_down = Read.success (ev_key key_a (pos 1))

pub holding-Inv : Inv holding
holding-Inv = ground arith

scancode_shared : linux_to_ps2 key_print ≡ linux_to_ps2 key_sysrq
unfolding linux_to_ps2
scancode_shared = refl

linux_to_ps2-injective_example : guest_key key_print ≡ guest_key key_sysrq
unfolding linux_to_ps2
linux_to_ps2-injective_example =
    linux_to_ps2-injective key_print key_sysrq (λ h. absurd (omega arith)) refl

after_short_press : Inv (device_round soon 0 ctrl_up holding thread_start).input
after_short_press = device_round-Inv soon 0 ctrl_up holding thread_start refl holding-Inv

-- The end of a long press on device 2 does not.
device_round-abandons_example :
    let s' = (device_round later 2 ctrl_up holding thread_start).input in
    (s'.grabbed_mouse ≡ some 1) × (is_held s'.calls 1 ≡ false) × (is_withheld 1 s' ≡ false)
unfolding is_short tv_ms_diff
device_round-abandons_example =
    device_round-abandons (record { tv_sec = 101; tv_usec = 0 }) 2 1 ctrl_up holding thread_start
      holding-Inv refl refl refl

a_sent : sent (device_round soon 0 a_down holding thread_start).input.calls ≢ sent holding.calls
unfolding device_round on_event forward claim_mouse is_withheld handle_event send_key send_button
    linux_to_spice linux_to_ps2
a_sent h = cc

device_round_sends_example :
    let s' = (device_round soon 0 a_down holding thread_start).input in
    (is_heard 0 s' ≡ true) × (is_grab_key holding a_down ≡ false)
device_round_sends_example = device_round_sends soon 0 a_down holding thread_start a_sent

-- A keyboard that appears.
abbrev keyboard : Probe
keyboard = record {
  devname = done (event_prefix ++ b'0' ∷ []);
  open_rc = done 7;
  fails = none;
  leaves = false;
  has_rel_x = false;
  has_rel_y = false;
  has_abs_x = false;
  has_abs_y = false;
  has_btn_touch = false;
  has_key = true;
  has_code = λ k. true;
  thread_fails = none;
}

abbrev pub codes : List Key
codes = key_a ∷ key_rightctrl ∷ []

input_add_device-started_example :
    let a = input_add_device keyboard codes holding in
    IsFirst holding.libevdev 0 64 3 × (a.input.libevdev 3 ≡ true) × (a.rc ≡ pos 0)
unfolding input_add_device starts_with free_slot open_slot is_supported has_grab_key
input_add_device-started_example = input_add_device-started keyboard codes holding 3 refl

plugged : System
plugged =
    after_added (system_start is_right_ctrl)
      (input_udev_handler add_action keyboard codes (input_start is_right_ctrl))

plugged_reached : Reach is_right_ctrl plugged
unfolding plugged
plugged_reached = next start (plug add_action keyboard codes)

Reach-IsSound_example : IsSound plugged
Reach-IsSound_example = Reach-IsSound plugged_reached

abbrev pub setup : Setup
setup = record {
  event_new = true;
  enumerator_new = true;
  add_match_subsystem = true;
  devices = keyboard ∷ keyboard ∷ [];
  monitor_new = true;
  attach_event = true;
  set_description = true;
  filter_add_match = true;
  filter_update = true;
  monitor_start = true;
  create_thread = true;
}
