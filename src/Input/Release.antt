-- ===== src/Input/Release.antt =====
-- The way out of src/input.c: a short press on the keyboard that the guest has.
use spicy_kvm.Prelude.{ℕ, ◌<◌, ◌≡◌, true, false, none, some, pos, arith}
use spicy_kvm.Input.Keys.{Key}
use spicy_kvm.Input.State.{ev_key, success, Timeval, Input, tv_ms_diff}
use spicy_kvm.Input.Grab.{grab_key_down, is_short, on_grab_key}
use spicy_kvm.Input.Report.{Thread}
use spicy_kvm.Input.Device.{on_event, device_round}
use spicy_kvm.Input.Invariant.{Inv, device_round-Inv}
use spicy_kvm.Input.Held.{is_held, is_wanted, obliging}
use spicy_kvm.Input.Toggle.{grab_key_up_lem}
use spicy_kvm.Input.Held.Rounds.{device_round-Exact}

-- The grab key goes down and up on a device.
abbrev pub press : Key → ℕ → Timeval → Timeval → Thread → Input → Input
press k idx down_at up_at t s =
    let s' = (device_round (obliging down_at) idx (success (ev_key k (pos 1))) s t).input in
    (device_round (obliging up_at) idx (success (ev_key k (pos 0))) s' t).input

live_of : (idx : ℕ) (s : Input) → s.grabbed_keyboard ≡ some idx → Inv s → s.libevdev idx ≡ true
live_of idx s has v = ground arith

module _ (k : Key) (idx : ℕ) (down_at : Timeval) (t : Thread) (s : Input)
    (grabs : s.grab_key k ≡ true) (has : s.grabbed_keyboard ≡ some idx) (v : Inv s) where
  abbrev pressed : Input
  pressed = (device_round (obliging down_at) idx (success (ev_key k (pos 1))) s t).input

  pressed_lem :
      (pressed.grab_key k ≡ true)
      × (pressed.grabbed_keyboard ≡ some idx)
      × (pressed.grab_key_at ≡ down_at)
      × (pressed.libevdev idx ≡ true)
  unfolding device_round on_event on_grab_key grab_key_down
  pressed_lem = ground arith

  module _ (up_at : Timeval) (short : tv_ms_diff up_at down_at < 250) where
    abbrev released : Input
    released = press k idx down_at up_at t s

    is_short-pressed : is_short (obliging up_at) pressed ≡ true
    unfolding is_short
    is_short-pressed = ground (arith, pressed_lem)

    released_lem : (released.grabbed_keyboard ≡ none) × (released.grabbed_mouse ≡ none)
    unfolding device_round on_event on_grab_key
    released_lem =
        let inv =
          device_round-Inv (obliging down_at) idx (success (ev_key k (pos 1))) s t
            (live_of idx s has v) v in
        ground
          (arith, pressed_lem, is_short-pressed, grab_key_up_lem (obliging up_at) idx pressed inv)

    free_of : (j : ℕ) → is_held s.calls j ≡ is_wanted s j → is_held released.calls j ≡ false
    free_of j exact =
        let live = live_of idx s has v in
        let down =
          device_round-Exact down_at idx (success (ev_key k (pos 1))) s t j live v (ground arith)
            exact in
        let inv = device_round-Inv (obliging down_at) idx (success (ev_key k (pos 1))) s t live v in
        let up =
          device_round-Exact up_at idx (success (ev_key k (pos 0))) pressed t j (pressed_lem.3) inv
            (ground (arith, is_short-pressed)) down in
        ground (arith, up, released_lem)

-- The guest has nothing after it.
pub press_frees :
    (k : Key) (idx : ℕ) (down_at up_at : Timeval) (t : Thread) (s : Input)
    → s.grab_key k ≡ true
    → s.grabbed_keyboard ≡ some idx
    → Inv s
    → tv_ms_diff up_at down_at < 250
    → let s' = press k idx down_at up_at t s in
      (s'.grabbed_keyboard ≡ none) × (s'.grabbed_mouse ≡ none)
press_frees k idx down_at up_at t s grabs has v short =
    released_lem k idx down_at t s grabs has v up_at short

-- A grab key that goes down and up within 250 ms on the keyboard that the guest has, with nothing in
-- between, gives everything back where every grab succeeds: there is no keyboard and no mouse, and a
-- device is not grabbed, if it was before exactly as the keyboard or as a mouse that is not let go.
pub press_lem :
    (k : Key) (idx : ℕ) (down_at up_at : Timeval) (t : Thread) (s : Input) (j : ℕ)
    → s.grab_key k ≡ true
    → s.grabbed_keyboard ≡ some idx
    → Inv s
    → tv_ms_diff up_at down_at < 250
    → is_held s.calls j ≡ is_wanted s j
    → let s' = press k idx down_at up_at t s in
      (s'.grabbed_keyboard ≡ none) × (s'.grabbed_mouse ≡ none) × (is_held s'.calls j ≡ false)
press_lem k idx down_at up_at t s j grabs has v short exact =
    let (no_keyboard, no_mouse) = press_frees k idx down_at up_at t s grabs has v short in
    (no_keyboard, no_mouse, free_of k idx down_at t s grabs has v up_at short j exact)
