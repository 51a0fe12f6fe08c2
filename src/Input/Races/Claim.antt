-- ===== src/Input/Races/Claim.antt =====
-- src/input.c, input_device_thread: the choice of a mouse in two parts, the tests and the grab, between which
-- other threads run.
use spicy_kvm.Prelude.{
  ℕ, ◌≡◌, Bool, true, false, not, ◌&&◌, ◌==◌, some, List, ◌∷◌, if◌then◌else◌, arith,
}
use spicy_kvm.Input.State.{Event, Call, Input, Env, is_at, is_some}
use spicy_kvm.Input.Grab.{is_motion, claim_mouse}
use spicy_kvm.Input.Held.{is_held}
use spicy_kvm.Input.System.{System}
use spicy_kvm.Input.Races.Lost.{IsLost, all_spare, moves-IsLost}
use spicy_kvm.Input.Run.{Move, moves}

-- The tests.
unfoldable pub wants_mouse : Event → Input → Bool
wants_mouse ev s = is_some s.grabbed_keyboard && not (is_some s.grabbed_mouse) && is_motion ev

-- What follows them.
unfoldable pub take_mouse : Env → ℕ → Input → Input
take_mouse env idx s =
    if is_at s.grabbed_keyboard idx
    then record s { grabbed_mouse = s.grabbed_keyboard }
    else if env.grab_ok idx
    then record s { calls = Call.grab idx true ∷ s.calls; grabbed_mouse = some idx }
    else record s { calls = Call.grab idx false ∷ s.calls }

-- With nothing in between the parts are the whole.
claim_mouse_lem :
    (env : Env) (idx : ℕ) (ev : Event) (s : Input)
    → claim_mouse env idx ev s ≡ (if wants_mouse ev s then take_mouse env idx s else s)
unfolding claim_mouse wants_mouse take_mouse
claim_mouse_lem env idx ev s = ground arith

-- Two devices, neither of them the keyboard, pass the tests in one state, and then take the mouse one after the
-- other, where the grab succeeds for both. From then on, over any rounds of the other devices and devices
-- that appear, the first one stays grabbed, and is neither the keyboard nor the mouse.
pub take_mouse_twice :
    (env env' : Env) (i j : ℕ) (ev ev' : Event) (ms : List Move) (s : System)
    → wants_mouse ev s.input ≡ true
    → wants_mouse ev' s.input ≡ true
    → env.grab_ok i ≡ true
    → env'.grab_ok j ≡ true
    → s.input.libevdev i ≡ true
    → is_at s.input.grabbed_keyboard i ≡ false
    → is_at s.input.grabbed_keyboard j ≡ false
    → (j == i) ≡ false
    → all_spare i ms ≡ true
    → let taken = record s { input = take_mouse env' j (take_mouse env i s.input) } in
      let s' = (moves ms taken).input in
      (is_held s'.calls i ≡ true)
      × (is_at s'.grabbed_keyboard i ≡ false)
      × (is_at s'.grabbed_mouse i ≡ false)
unfolding wants_mouse take_mouse
take_mouse_twice env env' i j ev ev' ms s w w' ok ok' live ki kj other spare =
    let taken = record s { input = take_mouse env' j (take_mouse env i s.input) } in
    let lost : IsLost i taken.input = record {
      held = ground arith;
      no_keyboard = ground arith;
      no_mouse = ground arith;
      live = ground arith;
    } in
    let v = moves-IsLost i ms taken spare lost in (v.held, v.no_keyboard, v.no_mouse)
