-- ===== src/Audio/Endless.antt =====
-- A recording of src/audio.c does not end.
use spicy_kvm.Prelude.{ℕ, ◌≡◌, Bool, true, false, List, [], ◌∷◌, arith}
use spicy_kvm.Audiodev.Recorder.{
  audiodev_record_start, audiodev_record_stop, audiodev_record_volume, audiodev_record_mute,
}
use spicy_kvm.Audio.Playback.{Playback}
use spicy_kvm.Audio.Recording.{
  Recording, real_record_start, audio_record_start, audio_record_stop, audio_record_volume,
  audio_record_mute,
}

-- The calls of PureSpice; a start has the state of the playback, and PipeWire creates its stream.
pub data Use : Type 0 where
  start : Playback → ℕ → ℕ → Use
  stop : Use
  volume : List ℕ → Use
  mute : Bool → Use

abbrev pub use_recording : Use → Recording → Recording
use_recording (start p channels sample_rate) s = audio_record_start true p channels sample_rate s
use_recording stop s = audio_record_stop s
use_recording (volume vs) s = audio_record_volume vs s
use_recording (mute m) s = audio_record_mute m s

abbrev pub use_all : List Use → Recording → Recording
use_all [] s = s
use_all (u ∷ us) s = use_all us (use_recording u s)

pub record IsRecording (s : Recording) : Type 0 where
  pub no_audio_dev : s.audio_dev ≡ false
  pub is_started : s.started ≡ true
  pub is_active : s.recorder.active ≡ true

use_recording-IsRecording :
    (u : Use) (s : Recording) → IsRecording s → IsRecording (use_recording u s)
unfolding audio_record_start real_record_start audio_record_stop audio_record_volume
    audio_record_mute audiodev_record_start audiodev_record_stop audiodev_record_volume
    audiodev_record_mute
use_recording-IsRecording (start p channels sample_rate) s v = ground arith
use_recording-IsRecording stop s v = ground arith
use_recording-IsRecording (volume vs) s v = ground arith
use_recording-IsRecording (mute m) s v = ground arith

-- A recording that is started, with `audio.audioDev` not set, stays started, and its stream active,
-- through any calls, stops included, if each stream that is asked for is created.
pub use_all-IsRecording :
    (us : List Use) (s : Recording) → IsRecording s → IsRecording (use_all us s)
use_all-IsRecording [] s v = v
use_all-IsRecording (u ∷ us) s v =
    use_all-IsRecording us (use_recording u s) (use_recording-IsRecording u s v)
