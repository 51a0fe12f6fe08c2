-- ===== src/Audio/Recording.antt =====
-- src/audio.c, the recording: `audio.record` and its functions.
use spicy_kvm.Prelude.{
  ℕ, ◌*◌, Bool, true, false, not, ◌||◌, List, [], ◌∷◌, ◌==◌, if◌then◌else◌, take,
}
use spicy_kvm.Audiodev.Recorder.{
  Recorder, audiodev_record_start, audiodev_record_stop, audiodev_record_volume,
  audiodev_record_mute,
}
use spicy_kvm.Audio.Playback.{Playback}

-- `audio.record`, whether `audio.audioDev` is set, and the static variables of `audio_record_start`.
-- The format of the samples is left out.
pub record Recording : Type 0 where
  pub audio_dev : Bool
  pub requested : Bool
  pub started : Bool
  pub volume : List ℕ
  pub mute : Bool
  pub stride : ℕ
  pub last_channels : ℕ
  pub last_sample_rate : ℕ
  pub static_last_channels : ℕ
  pub static_last_sample_rate : ℕ
  pub recorder : Recorder

-- `audio_push`: the bytes that are sent of some frames.
unfoldable pub audio_push : ℕ → Recording → ℕ
audio_push frames s = frames * s.stride

-- The volume of the playback, if one was stored for the recording.
abbrev restore_volume : List ℕ → List ℕ → Recorder → Recorder
restore_volume [] played r = r
restore_volume (v ∷ vs) played r = audiodev_record_volume played r

-- `creates` says whether PipeWire creates a stream.
unfoldable pub real_record_start : Bool → Playback → ℕ → ℕ → Recording → Recording
real_record_start creates p channels sample_rate s = record s {
  started = true;
  stride = channels * 2;
  recorder = audiodev_record_mute p.mute (
      restore_volume s.volume p.volume
        (audiodev_record_start creates channels sample_rate s.recorder));
}

abbrev request : ℕ → ℕ → Recording → Recording
request channels sample_rate s = record s {
  requested = true;
  last_channels = channels;
  last_sample_rate = sample_rate;
}

unfoldable pub audio_record_start : Bool → Playback → ℕ → ℕ → Recording → Recording
audio_record_start creates p channels sample_rate s =
    if s.started
    then (if not (channels == s.static_last_channels)
          || not (sample_rate == s.static_last_sample_rate)
        then real_record_start creates p channels sample_rate
            (request channels sample_rate (record s { recorder = audiodev_record_stop s.recorder }))
        else s)
    else real_record_start creates p channels sample_rate (request channels sample_rate s)

unfoldable pub real_record_stop : Recording → Recording
real_record_stop s = record s { recorder = audiodev_record_stop s.recorder; started = false }

unfoldable pub audio_record_stop : Recording → Recording
audio_record_stop s =
    let q = record s { requested = false } in
    if not s.audio_dev || not s.started then q else real_record_stop q

unfoldable pub audio_record_volume : List ℕ → Recording → Recording
audio_record_volume volume s =
    let q = record s { volume = take 8 volume } in
    if s.started
    then record q { recorder = audiodev_record_volume (take 8 volume) s.recorder }
    else q

unfoldable pub audio_record_mute : Bool → Recording → Recording
audio_record_mute mute s =
    let q = record s { mute = mute } in
    if s.started then record q { recorder = audiodev_record_mute mute s.recorder } else q
