-- ===== src/Input/State.antt =====
-- The state of src/input.c: the global `input`, the events that a device thread reads, and the
-- calls to libevdev and PureSpice.
-- An index of -1 is `none`. A slot of the array `libevdev` is known by whether it is null. Messages
-- to stdout and stderr are left out, and so the result of a PureSpice call, which selects a message.
use spicy_kvm.Prelude.{
  ℕ, ◌+◌, ◌-◌, ◌*◌, ◌/◌, ◌%◌, ◌^◌, Bool, true, false, Option, none, some, List, ltb, ◌==◌, ℤ,
  if◌then◌else◌,
}
use spicy_kvm.Input.Keys.{Key, Button}

-- The codes of `EV_REL`, `EV_ABS` and `EV_SYN` events that the code tells apart.
pub data RelCode : Type 0 where
  rel_x rel_y rel_wheel rel_other : RelCode

pub data AbsCode : Type 0 where
  abs_x abs_y abs_other : AbsCode

pub data SynCode : Type 0 where
  syn_report syn_other : SynCode

-- `struct input_event`
pub data Event : Type 0 where
  ev_key : Key → ℤ → Event
  ev_rel : RelCode → ℤ → Event
  ev_abs : AbsCode → ℤ → Event
  ev_syn : SynCode → Event
  ev_other : Event

-- What `libevdev_next_event` returns: -EAGAIN, -ENODEV, another error, or an event, with
-- LIBEVDEV_READ_STATUS_SUCCESS or LIBEVDEV_READ_STATUS_SYNC.
pub data Read : Type 0 where
  again nodev failed : Read
  success sync : Event → Read

-- The calls that have an effect outside of the program. The Boolean says whether `libevdev_grab`
-- succeeded. `open_device` is `open` for a slot; `close_device` is `close` and `libevdev_free`.
pub data Call : Type 0 where
  grab ungrab : ℕ → Bool → Call
  open_device close_device : ℕ → Call
  mouse_press mouse_release : Button → Call
  key_down key_up : ℕ → Call
  mouse_motion : ℤ → ℤ → Call

pub record Timeval : Type 0 where
  pub tv_sec : ℕ
  pub tv_usec : ℕ

abbrev pub timeval_zero : Timeval
timeval_zero = record { tv_sec = 0; tv_usec = 0 }

-- `input`, with the calls made so far, newest first.
pub record Input : Type 0 where
  pub libevdev : ℕ → Bool
  pub grab_key : Key → Bool
  pub grabbed_keyboard : Option ℕ
  pub grabbed_mouse : Option ℕ
  pub grab_key_at : Timeval
  pub temp_ungrabbed_mouse : Bool
  pub calls : List Call

-- What the system answers while one event is handled: the time of day, and for each device whether
-- `libevdev_grab` succeeds. No device is grabbed, or ungrabbed, twice for one event.
pub record Env : Type 0 where
  pub now : Timeval
  pub grab_ok : ℕ → Bool
  pub ungrab_ok : ℕ → Bool

-- `a == i` and `a != -1`, for an index `a` that may be -1.
abbrev pub is_at : Option ℕ → ℕ → Bool
is_at none i = false
is_at (some k) i = k == i

abbrev pub is_some : Option ℕ → Bool
is_some none = false
is_some (some k) = true

abbrev u64 : ℕ → ℕ
u64 n = n % 2 ^ 64

-- The milliseconds since the epoch, as a uint64_t.
abbrev pub ms_of : Timeval → ℕ
ms_of t = u64 (u64 (t.tv_sec * 1000) + t.tv_usec / 1000)

unfoldable pub tv_ms_diff : Timeval → Timeval → ℕ
tv_ms_diff a b = if ltb (ms_of a) (ms_of b) then ms_of b - ms_of a else ms_of a - ms_of b

unfoldable pub input_is_grabbed : Input → Bool
input_is_grabbed s = is_some s.grabbed_keyboard
