-- ===== src/Input/Toggle.antt =====
-- What the grab key of src/input.c does, what the end of a device does, and the distance of times.
use spicy_kvm.Prelude.{
  ℕ, ◌+◌, ◌*◌, ◌/◌, ◌^◌, ◌<◌, ◌≡◌, false, not, ◌||◌, none, some, ◌==◌, if◌then◌else◌, arith,
}
use spicy_kvm.Input.State.{Timeval, timeval_zero, Input, Env, is_at, tv_ms_diff, ms_of}
use spicy_kvm.Input.Grab.{is_short, toggle_grab, regrab_mouse, grab_key_up, lose_device}
use spicy_kvm.Input.Invariant.{Inv}

-- The grab key goes up, in a state with the invariant of the grabs. After a short press, or one whose start is not known, no mouse is grabbed,
-- and the keyboard is the device of the key: unless it was the keyboard before, or the grab fails,
-- when no keyboard is grabbed. After a long press keyboard and mouse stay. In either case the time
-- of the press is forgotten, and the mouse is not let go any more.
pub grab_key_up_lem :
    (env : Env) (idx : ℕ) (s : Input)
    → Inv s
    → let s' = grab_key_up env idx s in
      (s'.grabbed_keyboard ≡ (
        if is_short env s
        then (if is_at s.grabbed_keyboard idx || not (env.grab_ok idx) then none else some idx)
        else s.grabbed_keyboard))
      × (s'.grabbed_mouse ≡ (if is_short env s then none else s.grabbed_mouse))
      × (s'.grab_key_at ≡ timeval_zero)
      × (s'.temp_ungrabbed_mouse ≡ false)
unfolding grab_key_up toggle_grab regrab_mouse
grab_key_up_lem env idx s v = ground arith

-- A device that is lost is neither keyboard nor mouse any more; if it was one of them, nothing
-- stays grabbed, and otherwise the grabs stay. Its slot is null, and the other slots stay.
lose_device_lem :
    (env : Env) (idx : ℕ) (s : Input)
    → let s' = lose_device env idx s in
      let was_grabbed = is_at s.grabbed_keyboard idx || is_at s.grabbed_mouse idx in
      (s'.grabbed_keyboard ≡ (if was_grabbed then none else s.grabbed_keyboard))
      × (s'.grabbed_mouse ≡ (if was_grabbed then none else s.grabbed_mouse))
      × ((j : ℕ) → s'.libevdev j ≡ (if j == idx then false else s.libevdev j))
unfolding lose_device
lose_device_lem env idx s = (ground arith, ground arith, λ j. ground arith)

ms_of_lem :
    (t : Timeval)
    → t.tv_sec * 1000 + t.tv_usec / 1000 < 2 ^ 64
    → ms_of t ≡ t.tv_sec * 1000 + t.tv_usec / 1000
ms_of_lem t h = omega arith

-- `tv_ms_diff` of two times, in either order, is their distance in milliseconds, if a uint64_t holds
-- the milliseconds of the later one.
tv_ms_diff_lem :
    (a b : Timeval) (d : ℕ)
    → b.tv_sec * 1000 + b.tv_usec / 1000 < 2 ^ 64
    → b.tv_sec * 1000 + b.tv_usec / 1000 ≡ a.tv_sec * 1000 + a.tv_usec / 1000 + d
    → (tv_ms_diff a b ≡ d) × (tv_ms_diff b a ≡ d)
unfolding tv_ms_diff
tv_ms_diff_lem a b d h e =
    let ea = ms_of_lem a (omega arith) in let eb = ms_of_lem b h in ground (arith, ea, eb)
