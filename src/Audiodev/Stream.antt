-- ===== src/Audiodev/Stream.antt =====
-- What src/audiodev.c asks of a PipeWire stream, and what the stream does by then.
-- A volume is recorded as it is given; the gain that is computed from it is a floating point number.
-- The lock of the thread loop is left out, since no operation is interrupted.
use spicy_kvm.Prelude.{ℕ, Bool, true, false, List, [], ◌∷◌, if◌then◌else◌}

-- `STREAM_STATE_INACTIVE`, `STREAM_STATE_ACTIVE` and `STREAM_STATE_DRAINING`.
pub data Flow : Type 0 where
  inactive active draining : Flow

-- The calls: `pw_stream_new_simple`, `pw_stream_connect` with or without PW_STREAM_FLAG_INACTIVE,
-- `pw_stream_set_active`, `pw_stream_flush` with a drain, `pw_stream_destroy`, and the settings.
pub data Op : Type 0 where
  create destroy drain : Op
  connect set_active set_mute : Bool → Op
  set_volume : List ℕ → Op
  set_latency : ℕ → ℕ → Op

abbrev pub flow_if_active : Bool → Flow
flow_if_active true = active
flow_if_active false = inactive

-- What the stream does after some calls, newest first.
abbrev pub flow_of : List Op → Flow
flow_of [] = inactive
flow_of (create ∷ ops) = inactive
flow_of (destroy ∷ ops) = inactive
flow_of (drain ∷ ops) = draining
flow_of (connect starts_inactive ∷ ops) = if starts_inactive then inactive else active
flow_of (set_active b ∷ ops) = flow_if_active b
flow_of (_ ∷ ops) = flow_of ops
