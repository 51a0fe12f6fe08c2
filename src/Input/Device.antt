-- ===== src/Input/Device.antt =====
-- src/input.c, `input_device_thread`: one round of the loop of a device thread, as a whole.
use spicy_kvm.Prelude.{
  ℕ, ◌+◌, Bool, true, false, not, ◌&&◌, ◌||◌, Option, none, some, if◌then◌else◌,
}
use spicy_kvm.Input.State.{
  Event, ev_key, Read, again, nodev, failed, success, sync, Input, Env, is_at,
}
use spicy_kvm.Input.Grab.{on_grab_key, claim_mouse, lose_device}
use spicy_kvm.Input.Report.{Thread, handle_event}

-- What a round leaves: the shared state, the loop variables, and whether the thread goes on.
pub record Round : Type 0 where
  pub input : Input
  pub thread : Thread
  pub running : Bool

-- The two tests that keep an event from the server: the device is not grabbed, or it is the mouse
-- that is let go while the grab key is held.
unfoldable pub is_withheld : ℕ → Input → Bool
is_withheld idx s =
    not (is_at s.grabbed_keyboard idx) && not (is_at s.grabbed_mouse idx)
    || s.temp_ungrabbed_mouse && is_at s.grabbed_mouse idx

-- An event that is not of a grab key.
unfoldable pub forward : Env → ℕ → Event → Input → Thread → Round
unfolding is_withheld
forward env idx ev s t =
    let c = claim_mouse env idx ev s in
    if is_withheld idx c
    then record { input = c; thread = t; running = true }
    else (let (t', sent) = handle_event ev t c.calls in
        record { input = record c { calls = sent }; thread = t'; running = true })

unfoldable pub on_event : Env → ℕ → Event → Input → Thread → Round
on_event env idx (ev_key k value) s t =
    if s.grab_key k
    then record { input = on_grab_key env idx value s; thread = t; running = true }
    else forward env idx (ev_key k value) s t
on_event env idx ev s t = forward env idx ev s t

-- `sync++`, from -1 to 0 the first time.
abbrev pub count_sync : Option ℕ → Option ℕ
count_sync none = some 0
count_sync (some n) = some (n + 1)

unfoldable pub device_round : Env → ℕ → Read → Input → Thread → Round
device_round env idx again s t = record {
  input = s;
  thread = record t { sync = none };
  running = true;
}
device_round env idx nodev s t = record {
  input = lose_device env idx s;
  thread = t;
  running = false;
}
device_round env idx failed s t = record {
  input = lose_device env idx s;
  thread = t;
  running = false;
}
device_round env idx (success ev) s t = on_event env idx ev s t
device_round env idx (sync ev) s t = on_event env idx ev s (record t { sync = count_sync t.sync })
