-- ===== src/Input/Grab.antt =====
-- src/input.c: which devices are grabbed. `input_ungrab`, and of `input_device_thread` the handling
-- of the grab key, the choice of a mouse, and the end of a device.
use spicy_kvm.Prelude.{
  ℕ, Bool, true, false, not, ◌&&◌, ◌||◌, none, some, ◌∷◌, ltb, ◌==◌, ℤ, is_num, if◌then◌else◌,
}
use spicy_kvm.Input.State.{
  rel_x, rel_y, abs_x, abs_y, Event, ev_rel, ev_abs, Call, timeval_zero, Input, Env, is_at, is_some,
  tv_ms_diff,
}

-- `if (input.libevdev[k]) libevdev_grab(input.libevdev[k], LIBEVDEV_UNGRAB)`
unfoldable pub ungrab_device : Env → ℕ → Input → Input
ungrab_device env k s =
    if s.libevdev k then record s { calls = Call.ungrab k (env.ungrab_ok k) ∷ s.calls } else s

ungrab_keyboard : Env → Input → Input
unfolding ungrab_device
ungrab_keyboard env s = elim s.grabbed_keyboard [
  | none ↦ s
  | some k ↦ record (ungrab_device env k s) {
    grabbed_mouse = if is_at s.grabbed_mouse k then none else s.grabbed_mouse;
    grabbed_keyboard = none;
  }
]

ungrab_mouse : Env → Input → Input
unfolding ungrab_device
ungrab_mouse env s = elim s.grabbed_mouse [
  | none ↦ s
  | some m ↦ record (ungrab_device env m s) { grabbed_mouse = none }
]

unfoldable pub input_ungrab : Env → Input → Input
unfolding ungrab_keyboard ungrab_mouse
input_ungrab env s = ungrab_mouse env (ungrab_keyboard env s)

-- The grab key goes down.
unfoldable pub grab_key_down : Env → ℕ → Input → Input
grab_key_down env idx s =
    if is_at s.grabbed_keyboard idx
    then (elim s.grabbed_mouse [
      | none ↦ timed
      | some m ↦
          if s.libevdev m
          then record timed {
            calls = Call.ungrab m (env.ungrab_ok m) ∷ s.calls;
            temp_ungrabbed_mouse = true;
          }
          else timed
    ])
    else timed
  where
    timed : Input
    timed = record s { grab_key_at = env.now }

-- A short press, or one whose start is not known.
unfoldable pub is_short : Env → Input → Bool
is_short env s = s.grab_key_at.tv_sec == 0 || ltb (tv_ms_diff env.now s.grab_key_at) 250

-- A device is grabbed as the keyboard, after what was grabbed before is let go.
unfoldable pub grab_keyboard : Env → ℕ → Input → Input
unfolding input_ungrab
grab_keyboard env idx s =
    if env.grab_ok idx
    then (let t = record s { calls = Call.grab idx true ∷ s.calls } in
        record (if is_some t.grabbed_keyboard || is_some t.grabbed_mouse
          then input_ungrab env t
          else t) { grabbed_keyboard = some idx })
    else record s { calls = Call.grab idx false ∷ s.calls }

-- The grab key goes up after a short press.
unfoldable pub toggle_grab : Env → ℕ → Input → Input
unfolding input_ungrab grab_keyboard
toggle_grab env idx s =
    let t = if is_some s.grabbed_keyboard then input_ungrab env s else s in
    if is_at s.grabbed_keyboard idx then t else grab_keyboard env idx t

-- The grab key goes up after a long press.
unfoldable pub regrab_mouse : Env → ℕ → Input → Input
regrab_mouse env idx s =
    if s.temp_ungrabbed_mouse && is_at s.grabbed_keyboard idx
    then (elim s.grabbed_mouse [
      | none ↦ s
      | some m ↦
          if s.libevdev m then record s { calls = Call.grab m (env.grab_ok m) ∷ s.calls } else s
    ])
    else s

unfoldable pub grab_key_up : Env → ℕ → Input → Input
grab_key_up env idx s =
    record (if is_short env s then toggle_grab env idx s else regrab_mouse env idx s) {
      grab_key_at = timeval_zero;
      temp_ungrabbed_mouse = false;
    }

unfoldable pub on_grab_key : Env → ℕ → ℤ → Input → Input
on_grab_key env idx value s =
    let t = if is_num value 1 then grab_key_down env idx s else s in
    if is_num value 0 then grab_key_up env idx t else t

-- An event that a pointing device sends.
abbrev pub is_motion : Event → Bool
is_motion (ev_rel rel_x v) = true
is_motion (ev_rel rel_y v) = true
is_motion (ev_abs abs_x v) = true
is_motion (ev_abs abs_y v) = true
is_motion _ = false

-- With a keyboard grabbed and no mouse, the device that moves becomes the mouse.
unfoldable pub claim_mouse : Env → ℕ → Event → Input → Input
claim_mouse env idx ev s =
    if is_some s.grabbed_keyboard && not (is_some s.grabbed_mouse) && is_motion ev
    then (if is_at s.grabbed_keyboard idx
        then record s { grabbed_mouse = s.grabbed_keyboard }
        else if env.grab_ok idx
        then record s { calls = Call.grab idx true ∷ s.calls; grabbed_mouse = some idx }
        else record s { calls = Call.grab idx false ∷ s.calls })
    else s

-- `end:`, the thread of a device that cannot be read any more.
unfoldable pub lose_device : Env → ℕ → Input → Input
unfolding input_ungrab
lose_device env idx s =
    if is_at s.grabbed_keyboard idx || is_at s.grabbed_mouse idx
    then input_ungrab env (record s {
      libevdev = λ j. if j == idx then false else s.libevdev j;
      calls = Call.close_device idx ∷ s.calls;
      grabbed_keyboard = if is_at s.grabbed_keyboard idx then none else s.grabbed_keyboard;
      grabbed_mouse = if is_at s.grabbed_mouse idx then none else s.grabbed_mouse;
    })
    else record s {
      libevdev = λ j. if j == idx then false else s.libevdev j;
      calls = Call.close_device idx ∷ s.calls;
    }
