-- ===== src/Input/Slots.antt =====
-- The slots of src/input.c: which one `input_add_device` takes, and what it leaves alone.
use spicy_kvm.Prelude.{
  ℕ, zero, suc, ◌+◌, ◌≤◌, ◌<◌, ◌≡◌, refl, ◌⊎◌, inl, inr, Bool, true, false, none, some, List, ℤ,
  pos, negsuc, Bool-cases, Option-cases, arith,
}
use spicy_kvm.Input.Keys.{Key}
use spicy_kvm.Input.State.{Input}
use spicy_kvm.Input.Probe.{
  Outcome, done, error, Probe, Added, max_input_devices, event_prefix, starts_with, free_slot,
  open_slot, input_add_device,
}

-- The first free slot below a bound.
pub record IsFirst (slots : ℕ → Bool) (lo hi i : ℕ) : Type 0 where
  pub above : lo ≤ i
  pub below : i < hi
  pub free : slots i ≡ false
  pub first : (j : ℕ) → lo ≤ j → j < i → slots j ≡ true

pub free_slot-some :
    (slots : ℕ → Bool) (n i hi k : ℕ)
    → i + n ≡ hi
    → free_slot slots n i ≡ some k
    → IsFirst slots i hi k
unfolding free_slot
free_slot-some slots zero i hi k e h = cc
free_slot-some slots (suc n) i hi k e h = elim (Bool-cases (slots i)) [
  | inr f ↦
      let at : i ≡ k = ground arith in
      record {
        above = omega arith;
        below = omega arith;
        free = cc;
        first = λ j a b. absurd (omega arith);
      }
  | inl t ↦
      let rest = free_slot-some slots n (i + 1) hi k (omega arith) (ground arith) in
      record {
        above = omega arith;
        below = rest.below;
        free = rest.free;
        first = λ j a b. ground (arith, rest.first j);
      }
]

true≢false : {b : Bool} → b ≡ true → b ≡ false → ⊥
true≢false p q = cc

-- What a device that appears leaves alone: the grabs, and every slot but the one it takes.
pub record Keeps (s s' : Input) : Type 0 where
  pub keyboard : s'.grabbed_keyboard ≡ s.grabbed_keyboard
  pub mouse : s'.grabbed_mouse ≡ s.grabbed_mouse
  pub temp : s'.temp_ungrabbed_mouse ≡ s.temp_ungrabbed_mouse
  pub slots : (j : ℕ) → s.libevdev j ≡ true → s'.libevdev j ≡ true

open_slot-Keeps :
    (p : Probe) (codes : List Key) (idx : ℕ) (s : Input)
    → s.libevdev idx ≡ false
    → Keeps s (open_slot p codes idx s).input
unfolding open_slot
open_slot-Keeps p codes idx s free = record {
  keyboard = ground arith;
  mouse = ground arith;
  temp = ground arith;
  slots = λ j t. ground arith;
}

open_slot-started :
    (p : Probe) (codes : List Key) (idx k : ℕ) (s : Input)
    → (open_slot p codes idx s).started ≡ some k
    → (k ≡ idx)
      × ((open_slot p codes idx s).input.libevdev k ≡ true)
      × ((open_slot p codes idx s).rc ≡ pos 0)
unfolding open_slot
open_slot-started p codes idx k s h = ground arith

pub Keeps-refl : (s : Input) → Keeps s s
Keeps-refl s = record { keyboard = refl; mouse = refl; temp = refl; slots = λ j t. t }

Outcome-cases {ℓ} :
    {A : Type ℓ} (o : Outcome A) → ((a : A) × (o ≡ done a)) ⊎ ((e : ℕ) × (o ≡ error e))
Outcome-cases (done a) = inl (a, refl)
Outcome-cases (error e) = inr (e, refl)

-- Either nothing is changed, or the first free slot is opened.
pub add_cases {ℓ} :
    (P : Added → Type ℓ) (p : Probe) (codes : List Key) (s : Input)
    → ((rc : ℤ) → P (record { input = s; rc = rc; started = none }))
    → ((idx : ℕ)
        → free_slot s.libevdev max_input_devices 0 ≡ some idx
        → P (open_slot p codes idx s))
    → P (input_add_device p codes s)
unfolding input_add_device
add_cases P p codes s same opens = elim (Outcome-cases p.devname) [
  | inr (e, q) ↦ rw (q, input_add_device) (same (negsuc e))
  | inl (name, q) ↦ elim (Bool-cases (starts_with name event_prefix)) [
    | inr other ↦ rw (q, input_add_device, other) (same (pos 0))
    | inl dev ↦ elim (Option-cases (free_slot s.libevdev max_input_devices 0)) [
      | inl full ↦ rw (q, input_add_device, dev, full) (same (negsuc 0))
      | inr (idx, room) ↦ rw (q, input_add_device, dev, room) (opens idx room)
    ]
  ]
]

-- A device that appears changes no grab, and takes no slot that is in use.
pub input_add_device-Keeps :
    (p : Probe) (codes : List Key) (s : Input) → Keeps s (input_add_device p codes s).input
input_add_device-Keeps p codes s =
    add_cases (λ a. Keeps s a.input) p codes s (λ e. Keeps-refl s)
      λ idx e. open_slot-Keeps p codes idx s (free_slot-some s.libevdev 64 0 64 idx refl e).free

-- A thread is started for the first of the 64 slots that was free, which is then in use, and the
-- result is 0.
pub input_add_device-started :
    (p : Probe) (codes : List Key) (s : Input) (k : ℕ)
    → let a = input_add_device p codes s in
      a.started ≡ some k → IsFirst s.libevdev 0 64 k × (a.input.libevdev k ≡ true) × (a.rc ≡ pos 0)
input_add_device-started p codes s k =
    add_cases
      (λ a.
        a.started ≡ some k
        → IsFirst s.libevdev 0 64 k × (a.input.libevdev k ≡ true) × (a.rc ≡ pos 0))
      p codes s (λ e h. cc)
      λ idx e h.
        let (at, set, zero_rc) = open_slot-started p codes idx k s h in
        (rw at (free_slot-some s.libevdev 64 0 64 idx refl e), set, zero_rc)

-- With all 64 slots in use, a device that appears changes nothing and starts no thread.
input_add_device_full :
    (p : Probe) (codes : List Key) (s : Input)
    → ((j : ℕ) → j < 64 → s.libevdev j ≡ true)
    → let a = input_add_device p codes s in (a.input ≡ s) × (a.started ≡ none)
input_add_device_full p codes s full =
    add_cases (λ a. (a.input ≡ s) × (a.started ≡ none)) p codes s (λ rc. (refl, refl))
      λ idx e.
        let f = free_slot-some s.libevdev 64 0 64 idx refl e in
        absurd (true≢false (full idx f.below) f.free)
