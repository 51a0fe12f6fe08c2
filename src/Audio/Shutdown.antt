-- ===== src/Audio/Shutdown.antt =====
-- src/audio.c, `audio_init` and `audio_free`.
use spicy_kvm.Audiodev.Stream.{inactive}
use spicy_kvm.Prelude.{◌+◌, ◌≡◌, Bool, true, false, none, some, List, [], pos, if◌then◌else◌, arith}
use spicy_kvm.Audiodev.Player.{Player, audiodev_playback_stop_stream}
use spicy_kvm.Audiodev.Recorder.{Recorder, audiodev_record_stop_stream}
use spicy_kvm.Audiodev.Backend.{
  Part, Turn, Backend, Answers, audiodev_init, audiodev_free, audiodev_init_lem, audiodev_free_lem,
  made, ended,
}
use spicy_kvm.Audio.Playback.{
  state_stop, clocks_start, Resource, src, buffer, device_timing, timings, frames_in, frames_out,
  Playback, is_stopped, playback_stop,
}
use spicy_kvm.Audio.Recording.{Recording, audio_record_stop}
use spicy_kvm.Audio.Balance.{
  Balanced, stop-Balanced, is_stopped-playback_stop, made as made_of, freed,
}

-- `audio`, with what is made for PipeWire. Its two streams are those of `playback` and `recording`.
pub record Audio : Type 0 where
  pub playback : Playback
  pub recording : Recording
  pub turns : List Turn

abbrev pub backend_of : Audio → Backend
backend_of a = record {
  player = a.playback.player;
  recorder = a.recording.recorder;
  turns = a.turns;
}

-- `audio` and `pw` at the start of the program.
abbrev pub audio_start : Audio
audio_start = record {
  playback = record {
    state = state_stop;
    volume = [];
    mute = false;
    channels = 0;
    sample_rate = 0;
    stride = 0;
    device_max_period_frames = 0;
    device_start_frames = 0;
    has_frames = false;
    has_out = false;
    has_timings = false;
    clocks = record clocks_start { dev_last_time = some (pos 0); dev_next_time = some (pos 0) };
    last_channels = 0;
    last_sample_rate = 0;
    player = record {
      stream = false;
      rate_match = none;
      channels = 0;
      sample_rate = 0;
      stride = 0;
      max_period_frames = 0;
      start_frames = 0;
      state = inactive;
      ops = [];
    };
    changes = [];
  };
  recording = record {
    audio_dev = false;
    requested = false;
    started = false;
    volume = [];
    mute = false;
    stride = 0;
    last_channels = 0;
    last_sample_rate = 0;
    static_last_channels = 0;
    static_last_sample_rate = 0;
    recorder = record {
      stream = false;
      channels = 0;
      sample_rate = 0;
      stride = 0;
      active = false;
      ops = [];
    };
  };
  turns = [];
}

-- The state with another backend.
abbrev with_backend : Audio → Backend → Audio
with_backend a b = record {
  playback = record a.playback { player = b.player };
  recording = record a.recording { recorder = b.recorder };
  turns = b.turns;
}

-- The options are parameters of the functions that use them.
unfoldable pub audio_init : Answers → Audio → Audio × Bool
audio_init w a = let (b, ok) = audiodev_init w (backend_of a) in (with_backend a b, ok)

unfoldable pub audio_free : Audio → Audio
audio_free a =
    let stopped = record a {
      playback = playback_stop a.playback;
      recording = audio_record_stop a.recording;
    } in
    with_backend stopped (audiodev_free (backend_of stopped))

freed_all :
    (x : Resource) (p : Playback)
    → Balanced p
    → is_stopped p.state ≡ true
    → made_of x p.changes ≡ freed x p.changes
freed_all src p v s = ground (arith, v.src_balance)
freed_all buffer p v s = ground (arith, v.buffer_balance)
freed_all device_timing p v s = ground (arith, v.timing_balance)
freed_all timings p v s = ground (arith, v.timings_balance, v.no_timings)
freed_all frames_in p v s = ground (arith, v.in_balance, v.no_frames)
freed_all frames_out p v s = ground (arith, v.out_balance, v.no_frames, v.in_with_out)

no_playback_stream : (p : Player) → (audiodev_playback_stop_stream p).stream ≡ false
unfolding audiodev_playback_stop_stream
no_playback_stream p = ground arith

no_record_stream : (r : Recorder) → (audiodev_record_stop_stream r).stream ≡ false
unfolding audiodev_record_stop_stream
no_record_stream r = ground arith

-- Whatever the streams are, `audio_free` destroys them.
pub audio_free_streams :
    (a : Audio)
    → ((audio_free a).playback.player.stream ≡ false)
      × ((audio_free a).recording.recorder.stream ≡ false)
unfolding audio_free audiodev_free
audio_free_streams a = (
  no_playback_stream (playback_stop a.playback).player,
  no_record_stream (audio_record_stop a.recording).recorder,
)

-- After `audio_free` the playback is stopped, what it made is freed, and neither stream is there.
pub audio_free_lem :
    (a : Audio) (x : Resource)
    → Balanced a.playback
    → let a' = audio_free a in
      (is_stopped a'.playback.state ≡ true)
      × (a'.playback.player.stream ≡ false)
      × (a'.recording.recorder.stream ≡ false)
      × (made_of x a'.playback.changes ≡ freed x a'.playback.changes)
unfolding audio_free audiodev_free
audio_free_lem a x v = (
  is_stopped-playback_stop a.playback,
  no_playback_stream (playback_stop a.playback).player,
  no_record_stream (audio_record_stop a.recording).recorder,
  freed_all x (playback_stop a.playback) (stop-Balanced a.playback v)
      (is_stopped-playback_stop a.playback),
)

-- Where `audio_init` succeeds, after a later `audio_free` each part of PipeWire that was made since is
-- ended, whatever came in between; where it fails, it is ended at once.
pub audio_init_free_lem :
    (w : Answers) (a : Audio) (p : Playback) (r : Recording) (x : Part)
    → let (a', ok) = audio_init w a in
      let end = if ok then audio_free (record a' { playback = p; recording = r }) else a' in
      made x end.turns + ended x a.turns ≡ made x a.turns + ended x end.turns
unfolding audio_init audio_free
audio_init_free_lem w a p r x =
    let (b, ok) = audiodev_init w (backend_of a) in
    let stopped = record (with_backend a b) {
      playback = playback_stop p;
      recording = audio_record_stop r;
    } in
    ground (arith, audiodev_init_lem w (backend_of a) x, audiodev_free_lem (backend_of stopped) x)
