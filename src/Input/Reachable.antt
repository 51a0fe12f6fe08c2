-- ===== src/Input/Reachable.antt =====
-- What holds of src/input.c after any rounds of its threads and any devices that appear.
use spicy_kvm.Prelude.{
  ℕ, ◌≡◌, refl, Bool, true, false, Option, none, some, ◌==◌, if◌then◌else◌, ℤ, Bool-cases,
  Option-cases, inl, inr, List, [], ◌∷◌, arith,
}
use spicy_kvm.Input.Keys.{Key}
use spicy_kvm.Input.State.{Event, ev_key, Read, again, nodev, failed, success, sync, Input, Env}
use spicy_kvm.Input.Grab.{
  grab_key_down, toggle_grab, regrab_mouse, grab_key_up, on_grab_key, claim_mouse, lose_device,
}
use spicy_kvm.Input.Report.{Thread}
use spicy_kvm.Input.Device.{forward, on_event, device_round, count_sync}
use spicy_kvm.Input.Probe.{
  Probe, Action, no_action, add_action, other_action, input_add_device, input_udev_handler,
}
use spicy_kvm.Input.System.{System, after_round, after_added, round, plug, Reach, start, next}
use spicy_kvm.Input.Init.{Setup, add_devices, input_init}
use spicy_kvm.Input.Invariant.{is_tracked, Inv, device_round-Inv}
use spicy_kvm.Input.Slots.{Keeps, input_add_device-Keeps, input_add_device-started}

abbrev is_running : Option Thread → Bool
is_running none = false
is_running (some t) = true

-- Only a device in a slot that is in use has a thread.
pub record IsSound (s : System) : Type 0 where
  pub inv : Inv s.input
  pub live : (i : ℕ) → is_running (s.threads i) ≡ true → s.input.libevdev i ≡ true

-- Which slots a round leaves in use.
libevdev-on_grab_key :
    (env : Env) (idx : ℕ) (value : ℤ) (s : Input)
    → (on_grab_key env idx value s).libevdev ≡ s.libevdev
unfolding on_grab_key grab_key_up grab_key_down toggle_grab regrab_mouse
libevdev-on_grab_key env idx value s = ground arith

libevdev-claim_mouse :
    (env : Env) (idx : ℕ) (ev : Event) (s : Input)
    → (claim_mouse env idx ev s).libevdev ≡ s.libevdev
unfolding claim_mouse
libevdev-claim_mouse env idx ev s = ground arith

libevdev-forward :
    (env : Env) (idx : ℕ) (ev : Event) (s : Input) (t : Thread)
    → ((forward env idx ev s t).input.libevdev ≡ s.libevdev)
      × ((forward env idx ev s t).running ≡ true)
unfolding forward
libevdev-forward env idx ev s t = ground (arith, libevdev-claim_mouse env idx ev s)

libevdev-on_event :
    (env : Env) (idx : ℕ) (ev : Event) (s : Input) (t : Thread)
    → ((on_event env idx ev s t).input.libevdev ≡ s.libevdev)
      × ((on_event env idx ev s t).running ≡ true)
unfolding on_event
libevdev-on_event env idx (ev_key k value) s t =
    ground
      (arith, libevdev-on_grab_key env idx value s, libevdev-forward env idx (ev_key k value) s t)
libevdev-on_event env idx ev s t = libevdev-forward env idx ev s t

libevdev-lose_device :
    (env : Env) (idx j : ℕ) (s : Input)
    → (lose_device env idx s).libevdev j ≡ (if j == idx then false else s.libevdev j)
unfolding lose_device
libevdev-lose_device env idx j s = ground arith

-- After a round of a thread whose slot is in use, its slot is in use exactly if the thread goes on;
-- the other slots are not touched.
libevdev-device_round :
    (env : Env) (idx j : ℕ) (r : Read) (s : Input) (t : Thread)
    → s.libevdev idx ≡ true
    → let w = device_round env idx r s t in
      w.input.libevdev j ≡ (if j == idx then w.running else s.libevdev j)
unfolding device_round
libevdev-device_round env idx j again s t live = ground arith
libevdev-device_round env idx j nodev s t live = libevdev-lose_device env idx j s
libevdev-device_round env idx j failed s t live = libevdev-lose_device env idx j s
libevdev-device_round env idx j (success ev) s t live =
    ground (arith, libevdev-on_event env idx ev s t)
libevdev-device_round env idx j (sync ev) s t live =
    ground (arith, libevdev-on_event env idx ev s (record t { sync = count_sync t.sync }))

pub round-IsSound :
    (env : Env) (i : ℕ) (r : Read) (t : Thread) (s : System)
    → s.threads i ≡ some t
    → IsSound s
    → IsSound (after_round s i (device_round env i r s.input t))
unfolding after_round
round-IsSound env i r t s e v = record {
  inv = device_round-Inv env i r s.input t here v.inv;
  live = λ j h. ground (arith, libevdev-device_round env i j r s.input t here, v.live j);
}
  where
    here : s.input.libevdev i ≡ true
    here = ground (arith, v.live i)

is_tracked_mono :
    (f g : ℕ → Bool) (o : Option ℕ)
    → ((j : ℕ) → f j ≡ true → g j ≡ true)
    → is_tracked f o ≡ true
    → is_tracked g o ≡ true
is_tracked_mono f g none keep h = refl
is_tracked_mono f g (some k) keep h = keep k h

Keeps-Inv : (s s' : Input) → Keeps s s' → Inv s → Inv s'
Keeps-Inv s s' k v = ground (
  arith,
  is_tracked_mono s.libevdev s'.libevdev s.grabbed_keyboard k.slots,
  is_tracked_mono s.libevdev s'.libevdev s.grabbed_mouse k.slots,
)

pub plug-IsSound :
    (a : Action) (p : Probe) (codes : List Key) (s : System)
    → IsSound s
    → IsSound (after_added s (input_udev_handler a p codes s.input))
unfolding after_added input_udev_handler
plug-IsSound add_action p codes s v =
    let kept = input_add_device-Keeps p codes s.input in
    record {
      inv = Keeps-Inv s.input (input_add_device p codes s.input).input kept v.inv;
      live = λ j h. elim (Option-cases (input_add_device p codes s.input).started) [
        | inl idle ↦ kept.slots j (v.live j (rw idle at h))
        | inr (k, e) ↦
            let (_, set, _) = input_add_device-started p codes s.input k e in
            elim (Bool-cases (j == k)) [
              | inl same ↦ ground (arith, set)
              | inr other ↦ kept.slots j (v.live j (ground arith))
            ]
      ];
    }
plug-IsSound no_action p codes s v = v
plug-IsSound other_action p codes s v = v

-- Every state that the threads reach from the start is sound: the invariant of the grabs holds, and
-- the slot of each thread that runs is in use.
pub Reach-IsSound : {grab_key : Key → Bool} {s : System} → Reach grab_key s → IsSound s
Reach-IsSound start = record { inv = ground arith; live = λ i h. cc }
Reach-IsSound (next {s} r (round env i rd t e)) = round-IsSound env i rd t s e (Reach-IsSound r)
Reach-IsSound (next {s} r (plug a p codes)) = plug-IsSound a p codes s (Reach-IsSound r)

add_devices-IsSound :
    (ps : List Probe) (codes : List Key) (s : System) → IsSound s → IsSound (add_devices ps codes s)
unfolding add_devices after_added
add_devices-IsSound [] codes s v = v
add_devices-IsSound (p ∷ ps) codes s v =
    add_devices-IsSound ps codes (after_added s (input_add_device p codes s.input))
      (unfold input_udev_handler in plug-IsSound add_action p codes s v)

-- From a sound state `input_init` leaves a sound state, whether it succeeds or fails.
pub input_init-IsSound :
    (opts : Option (Key → Bool)) (u : Setup) (codes : List Key) (s : System)
    → IsSound s
    → IsSound (input_init opts u codes s).0
unfolding input_init
input_init-IsSound none u codes s v = ground (arith, add_devices-IsSound u.devices codes s v)
input_init-IsSound (some keys) u codes s v =
    let s' = record s { input = record s.input { grab_key = keys } } in
    let v' : IsSound s' = record { inv = ground arith; live = v.live } in
    ground (arith, v', add_devices-IsSound u.devices codes s' v')
