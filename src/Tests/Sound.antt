-- ===== src/Tests/Sound.antt =====
-- The sound of src/audio.c and src/audiodev.c.
use spicy_kvm.Prelude.{◌≡◌, refl, true, false, none, some, List, [], ◌∷◌, arith}
use spicy_kvm.Audiodev.Stream.{inactive, draining, connect, create, drain, set_active, flow_of}
use spicy_kvm.Audiodev.Player.{
  Player, Pw, audiodev_on_playback_drained, audiodev_playback_setup, audiodev_playback_start,
  audiodev_playback_stop, audiodev_playback_stop_stream,
}
use spicy_kvm.Audiodev.Agree.{activations, are_calm, use_all_agrees, setup_stuck}
use spicy_kvm.Audiodev.Agree
use spicy_kvm.Audio.Playback.{Playback, state_stop, clocks_start}
use spicy_kvm.Audio.Recording.{Recording}
use spicy_kvm.Audio.Balance.{Balanced}
use spicy_kvm.Audio.Endless.{IsRecording, use_all-IsRecording}
use spicy_kvm.Audio.Endless

abbrev pub pipewire : Pw
pipewire = record { creates = true; node_latency = some (256, 48000) }

abbrev pub no_player : Player
no_player = record {
  stream = false;
  rate_match = none;
  channels = 0;
  sample_rate = 0;
  stride = 0;
  max_period_frames = 0;
  start_frames = 0;
  state = inactive;
  ops = [];
}

-- Two playbacks of one format; the second one starts after the drain.
abbrev twice : List Agree.Use
twice =
    Agree.set_up pipewire 2 48000 256
    ∷ Agree.start
    ∷ Agree.stop
    ∷ Agree.drained
    ∷ Agree.set_up pipewire 2 48000 256
    ∷ Agree.start
    ∷ []

activated_twice : activations (Agree.use_all twice no_player).ops ≡ 2
unfolding audiodev_playback_setup audiodev_playback_start audiodev_playback_stop
    audiodev_on_playback_drained audiodev_playback_stop_stream
activated_twice = refl

use_all_agrees_example : let p = Agree.use_all twice no_player in flow_of p.ops ≡ p.state
unfolding audiodev_playback_setup audiodev_playback_start audiodev_playback_stop
    audiodev_on_playback_drained audiodev_playback_stop_stream
use_all_agrees_example = use_all_agrees twice no_player refl refl

abbrev drains : Player
drains = record no_player {
  stream = true;
  channels = 2;
  sample_rate = 48000;
  stride = 8;
  state = draining;
  ops = drain ∷ set_active true ∷ connect true ∷ create ∷ [];
}

setup_stuck_example :
    activations
      (Agree.use_all
        (Agree.start ∷ Agree.drained ∷ Agree.stop ∷ Agree.start ∷ [])
        (audiodev_playback_setup pipewire 2 44100 256 drains)).ops
    ≡ 1
setup_stuck_example =
    setup_stuck pipewire 2 44100 256 (Agree.start ∷ Agree.drained ∷ Agree.stop ∷ Agree.start ∷ [])
      drains refl refl refl

abbrev pub silence : Playback
silence = record {
  state = state_stop;
  volume = [];
  mute = false;
  channels = 0;
  sample_rate = 0;
  stride = 0;
  device_max_period_frames = 0;
  device_start_frames = 0;
  has_frames = false;
  has_out = false;
  has_timings = false;
  clocks = clocks_start;
  last_channels = 0;
  last_sample_rate = 0;
  player = no_player;
  changes = [];
}

pub silence-Balanced : Balanced silence
silence-Balanced = ground arith

abbrev pub recording : Recording
recording = record {
  audio_dev = false;
  requested = true;
  started = true;
  volume = [];
  mute = false;
  stride = 4;
  last_channels = 2;
  last_sample_rate = 48000;
  static_last_channels = 0;
  static_last_sample_rate = 0;
  recorder = record {
    stream = true;
    channels = 2;
    sample_rate = 48000;
    stride = 4;
    active = true;
    ops = connect false ∷ create ∷ [];
  };
}

use_all-IsRecording_example :
    IsRecording
      (Endless.use_all (Endless.stop ∷ Endless.start silence 2 48000 ∷ Endless.stop ∷ []) recording)
use_all-IsRecording_example =
    use_all-IsRecording (Endless.stop ∷ Endless.start silence 2 48000 ∷ Endless.stop ∷ []) recording
      (record { no_audio_dev = refl; is_started = refl; is_active = refl })
