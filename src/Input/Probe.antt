-- ===== src/Input/Probe.antt =====
-- src/input.c, `input_add_device` and `input_udev_handler`: a device that appears takes the first
-- free slot, if it is a keyboard with a grab key or a pointer.
-- What libsystemd, libevdev and the kernel say of the device is a parameter. A negative code -n-1
-- of theirs is the number n.
use spicy_kvm.Prelude.{
  ℕ, zero, suc, ◌+◌, Bool, true, false, not, ◌&&◌, ◌||◌, Option, none, some, List, [], ◌∷◌, ◌==◌, ℤ,
  pos, negsuc, if◌then◌else◌,
}
use spicy_kvm.Input.Keys.{Key}
use spicy_kvm.Input.State.{Call, Input}

pub data Outcome {ℓ} (A : Type ℓ) : Type ℓ where
  done : A → Outcome A
  error : ℕ → Outcome A

-- What is found of a device, in the order in which it is asked for. `fails` is the code of
-- `libevdev_new_from_fd`, and `leaves` whether the slot is not null after it failed;
-- `thread_fails` is one below the code of `pthread_create`.
pub record Probe : Type 0 where
  pub devname : Outcome (List ℕ)
  pub open_rc : Outcome ℕ
  pub fails : Option ℕ
  pub leaves : Bool
  pub has_rel_x : Bool
  pub has_rel_y : Bool
  pub has_abs_x : Bool
  pub has_abs_y : Bool
  pub has_btn_touch : Bool
  pub has_key : Bool
  pub has_code : Key → Bool
  pub thread_fails : Option ℕ

-- What `input_add_device` leaves: the state, its result, and the slot of the thread that it starts.
pub record Added : Type 0 where
  pub input : Input
  pub rc : ℤ
  pub started : Option ℕ

abbrev pub max_input_devices : ℕ
max_input_devices = 64

-- "/dev/input/event"
abbrev pub event_prefix : List ℕ
event_prefix =
    b'/' ∷ b'd' ∷ b'e' ∷ b'v' ∷ b'/' ∷ b'i' ∷ b'n' ∷ b'p' ∷ b'u' ∷ b't' ∷ b'/' ∷ b'e' ∷ b'v' ∷ b'e'
    ∷ b'n' ∷ b't' ∷ []

-- `!strncmp(s, prefix, sizeof(prefix)-1)`
unfoldable pub starts_with : List ℕ → List ℕ → Bool
starts_with s [] = true
starts_with [] (p ∷ ps) = false
starts_with (c ∷ s) (p ∷ ps) = c == p && starts_with s ps

-- The loop over the slots from `i` on, with the slots left.
unfoldable pub free_slot : (ℕ → Bool) → ℕ → ℕ → Option ℕ
free_slot slots zero i = none
free_slot slots (suc n) i = let rest = free_slot slots n (i + 1) in if slots i then rest else some i

-- The loop over the codes below KEY_MAX, which are `codes`.
unfoldable pub has_grab_key : (Key → Bool) → (Key → Bool) → List Key → Bool
has_grab_key grab_key has_code [] = false
has_grab_key grab_key has_code (k ∷ ks) =
    grab_key k && has_code k || has_grab_key grab_key has_code ks

unfoldable pub is_supported : Probe → List Key → (Key → Bool) → Bool
is_supported p codes grab_key = is_kbd || is_rel || is_fake_rel
  where
    is_kbd : Bool
    is_kbd = p.has_key && has_grab_key grab_key p.has_code codes

    is_rel : Bool
    is_rel = p.has_rel_x && p.has_rel_y

    is_fake_rel : Bool
    is_fake_rel = not is_rel && p.has_abs_x && p.has_abs_y && p.has_btn_touch

abbrev set_slot : Input → ℕ → Bool → Input
set_slot s idx b = record s { libevdev = λ j. if j == idx then b else s.libevdev j }

-- From `open` on, for the slot that is taken.
unfoldable pub open_slot : Probe → List Key → ℕ → Input → Added
open_slot p codes idx s = elim p.open_rc [
  | error e ↦ record { input = s; rc = negsuc e; started = none }
  | done fd ↦
      let t = record s { calls = Call.open_device idx ∷ s.calls } in
      elim p.fails [
        | some e ↦ record { input = set_slot t idx p.leaves; rc = negsuc e; started = none }
        | none ↦
            if is_supported p codes s.grab_key
            then (elim p.thread_fails [
              | some e ↦ record { input = set_slot t idx true; rc = negsuc e; started = none }
              | none ↦ record { input = set_slot t idx true; rc = pos 0; started = some idx }
            ])
            else record {
              input = set_slot (record t { calls = Call.close_device idx ∷ t.calls }) idx false;
              rc = pos 0;
              started = none;
            }
      ]
]

unfoldable pub input_add_device : Probe → List Key → Input → Added
input_add_device p codes s = elim p.devname [
  | error e ↦ record { input = s; rc = negsuc e; started = none }
  | done name ↦
      if starts_with name event_prefix
      then (elim (free_slot s.libevdev max_input_devices 0) [
        | none ↦ record { input = s; rc = negsuc 0; started = none }
        | some idx ↦ open_slot p codes idx s
      ])
      else record { input = s; rc = pos 0; started = none }
]

-- What `sd_device_get_action` says.
pub data Action : Type 0 where
  no_action add_action other_action : Action

-- `input_udev_handler`, which returns 0 whatever happens.
unfoldable pub input_udev_handler : Action → Probe → List Key → Input → Added
input_udev_handler add_action p codes s = record (input_add_device p codes s) { rc = pos 0 }
input_udev_handler _ p codes s = record { input = s; rc = pos 0; started = none }
