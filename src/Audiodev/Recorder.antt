-- ===== src/Audiodev/Recorder.antt =====
-- src/audiodev.c, the recording stream: `pw.record` and its functions.
use spicy_kvm.Prelude.{
  ℕ, ◌-◌, ◌*◌, ◌/◌, Bool, true, false, ◌&&◌, List, ◌∷◌, length, ◌==◌, ltb, if◌then◌else◌,
}
use spicy_kvm.Audiodev.Stream.{Op, create, destroy, connect, set_active, set_mute, set_volume}

pub record Recorder : Type 0 where
  pub stream : Bool
  pub channels : ℕ
  pub sample_rate : ℕ
  pub stride : ℕ
  pub active : Bool
  pub ops : List Op

abbrev pub tell : Op → Recorder → Recorder
tell op r = record r { ops = op ∷ r.ops }

unfoldable pub audiodev_record_stop_stream : Recorder → Recorder
audiodev_record_stop_stream r = if r.stream then record (tell destroy r) { stream = false } else r

-- The first Boolean says whether PipeWire creates a stream.
unfoldable pub audiodev_record_start : Bool → ℕ → ℕ → Recorder → Recorder
unfolding audiodev_record_stop_stream
audiodev_record_start creates channels sample_rate r =
    if r.stream && r.channels == channels && r.sample_rate == sample_rate
    then (if r.active then r else record (tell (set_active true) r) { active = true })
    else (let q = record (audiodev_record_stop_stream r) {
      channels = channels;
      sample_rate = sample_rate;
      stride = 2 * channels;
    } in
        if creates
        then record (tell (connect false) (tell create q)) { stream = true; active = true }
        else q)

unfoldable pub audiodev_record_stop : Recorder → Recorder
audiodev_record_stop r =
    if r.active then record (tell (set_active false) r) { active = false } else r

unfoldable pub audiodev_record_volume : List ℕ → Recorder → Recorder
audiodev_record_volume volume r =
    if length volume == r.channels then tell (set_volume volume) r else r

unfoldable pub audiodev_record_mute : Bool → Recorder → Recorder
audiodev_record_mute mute r = tell (set_mute mute) r

-- The frames that `audiodev_on_record_process` passes to `audio_push`: the size and the offset of
-- the chunk, and the size of the buffer, in bytes; the offset lies in the buffer.
unfoldable pub pushed_frames : ℕ → ℕ → ℕ → Recorder → ℕ
pushed_frames size offset maxsize r =
    (if ltb size (maxsize - offset) then size else maxsize - offset) / r.stride
