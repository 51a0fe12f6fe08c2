-- ===== src/Input/Init.antt =====
-- src/input.c, `input_init`: the devices that are there are added, then the monitor is set up and
-- its thread is started.
use spicy_kvm.Prelude.{Bool, false, ◌&&◌, Option, none, some, List, [], ◌∷◌, if◌then◌else◌}
use spicy_kvm.Input.Keys.{Key}
use spicy_kvm.Input.Probe.{Probe, input_add_device}
use spicy_kvm.Input.System.{System, after_added}

-- Whether each call of libsystemd and `pthread_create` succeeds, in order, and the devices that are
-- enumerated.
pub record Setup : Type 0 where
  pub event_new : Bool
  pub enumerator_new : Bool
  pub add_match_subsystem : Bool
  pub devices : List Probe
  pub monitor_new : Bool
  pub attach_event : Bool
  pub set_description : Bool
  pub filter_add_match : Bool
  pub filter_update : Bool
  pub monitor_start : Bool
  pub create_thread : Bool

-- `if (opts)`: the grab keys are those of the options.
abbrev set_grab_keys : Option (Key → Bool) → System → System
set_grab_keys none s = s
set_grab_keys (some grab_key) s = record s { input = record s.input { grab_key = grab_key } }

unfoldable pub add_devices : List Probe → List Key → System → System
add_devices [] codes s = s
add_devices (p ∷ ps) codes s =
    add_devices ps codes (after_added s (input_add_device p codes s.input))

unfoldable pub input_init : Option (Key → Bool) → Setup → List Key → System → System × Bool
input_init opts u codes s =
    if u.event_new && u.enumerator_new && u.add_match_subsystem
    then (
      add_devices u.devices codes (set_grab_keys opts s),
      u.monitor_new && u.attach_event && u.set_description && u.filter_add_match && u.filter_update
          && u.monitor_start && u.create_thread,
    )
    else (set_grab_keys opts s, false)
