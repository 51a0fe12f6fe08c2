-- ===== src/Audio/Playback.antt =====
-- src/audio.c, the control of the playback: `audio.playback` and the functions that PureSpice calls.
-- The fields that are floating point numbers, and those that only `audio_pull` and
-- `audio_playback_data` set, are left out; a ring buffer is always made.
use spicy_kvm.Prelude.{
  ℕ, ◌*◌, Bool, true, false, ◌&&◌, Option, none, List, [], ◌∷◌, ◌==◌, if◌then◌else◌, ℤ, pos, take,
}
use spicy_kvm.Audiodev.Player.{
  Player, Pw, audiodev_playback_setup, audiodev_playback_stop, audiodev_playback_volume,
  audiodev_playback_mute,
}

-- `StreamState`
pub data StreamState : Type 0 where
  state_stop setup_spice setup_device run keep_alive : StreamState

-- What is made and freed: the resampler, three ring buffers, and the two arrays of frames.
pub data Resource : Type 0 where
  src buffer device_timing timings frames_in frames_out : Resource

pub data Change : Type 0 where
  makes frees : Resource → Change

-- The counters of `deviceData` and `spiceData` that a start resets; INT64_MIN is `none`.
pub record Clocks : Type 0 where
  pub device_period_frames : ℕ
  pub device_next_position : ℤ
  pub spice_period_frames : ℕ
  pub spice_next_position : ℤ
  pub dev_period_frames : ℕ
  pub dev_last_time : Option ℤ
  pub dev_next_time : Option ℤ

abbrev pub clocks_start : Clocks
clocks_start = record {
  device_period_frames = 0;
  device_next_position = pos 0;
  spice_period_frames = 0;
  spice_next_position = pos 0;
  dev_period_frames = 0;
  dev_last_time = none;
  dev_next_time = none;
}

-- `audio.playback`, the static variables of `audio_playback_start`, the stream, and the changes made
-- so far, newest first. `volume` holds the first `volumeChannels` values; `has_frames` and
-- `has_timings` say whether `framesIn` and `timings` are not null, and `has_out` whether `framesOut`
-- leads to an array.
pub record Playback : Type 0 where
  pub state : StreamState
  pub volume : List ℕ
  pub mute : Bool
  pub channels : ℕ
  pub sample_rate : ℕ
  pub stride : ℕ
  pub device_max_period_frames : ℕ
  pub device_start_frames : ℕ
  pub has_frames : Bool
  pub has_out : Bool
  pub has_timings : Bool
  pub clocks : Clocks
  pub last_channels : ℕ
  pub last_sample_rate : ℕ
  pub player : Player
  pub changes : List Change

abbrev pub is_stopped : StreamState → Bool
is_stopped state_stop = true
is_stopped _ = false

abbrev pub is_keep_alive : StreamState → Bool
is_keep_alive keep_alive = true
is_keep_alive _ = false

-- `STREAM_ACTIVE`
abbrev pub stream_active : StreamState → Bool
stream_active run = true
stream_active keep_alive = true
stream_active _ = false

abbrev free_frames : Playback → Playback
free_frames p =
    if p.has_frames
    then record p {
      has_frames = false;
      has_out = false;
      changes = frees frames_in ∷ (if p.has_out then frees frames_out ∷ p.changes else p.changes);
    }
    else p

abbrev free_timings : Playback → Playback
free_timings p =
    if p.has_timings
    then record p { has_timings = false; changes = frees timings ∷ p.changes }
    else p

unfoldable pub playback_stop : Playback → Playback
playback_stop p =
    if is_stopped p.state
    then p
    else free_timings (
        free_frames (record p {
          state = state_stop;
          player = audiodev_playback_stop p.player;
          changes = frees src ∷ frees device_timing ∷ frees buffer ∷ p.changes;
        }))

-- The volume, if one was stored.
abbrev restore_volume : List ℕ → Player → Player
restore_volume [] player = player
restore_volume (v ∷ vs) player = audiodev_playback_volume (v ∷ vs) player

-- From the ring buffers on.
unfoldable pub set_up_playback : Pw → ℕ → ℕ → ℕ → Playback → Playback
set_up_playback w requested channels sample_rate p =
    let player = audiodev_playback_setup w channels sample_rate requested p.player in
    record p {
      state = setup_spice;
      channels = channels;
      sample_rate = sample_rate;
      stride = channels * 4;
      last_channels = channels;
      last_sample_rate = sample_rate;
      clocks = clocks_start;
      device_max_period_frames = player.max_period_frames;
      device_start_frames = player.start_frames;
      player = audiodev_playback_mute p.mute (restore_volume p.volume player);
      has_timings = true;
      changes = makes timings ∷ makes device_timing ∷ makes buffer ∷ makes src ∷ p.changes;
    }

-- `src_ok` says whether the resampler is made, and `requested` is the period that is asked for.
unfoldable pub audio_playback_start : Pw → Bool → ℕ → ℕ → ℕ → Playback → Playback
unfolding playback_stop
audio_playback_start w src_ok requested channels sample_rate p =
    if is_keep_alive p.state && channels == p.last_channels && sample_rate == p.last_sample_rate
    then p
    else if src_ok
    then set_up_playback w requested channels sample_rate (playback_stop p)
    else playback_stop p

-- `reset_ok` says whether the resampler is reset.
unfoldable pub audio_playback_stop : Bool → Playback → Playback
unfolding playback_stop
audio_playback_stop reset_ok p = elim p.state [
  | state_stop ↦ p
  | setup_spice ↦ playback_stop p
  | setup_device ↦ playback_stop p
  | run ↦ let q = record p { state = keep_alive } in if reset_ok then q else playback_stop q
  | keep_alive ↦ p
]

unfoldable pub audio_playback_volume : List ℕ → Playback → Playback
audio_playback_volume volume p =
    let q = record p { volume = take 8 volume } in
    if stream_active p.state
    then record q { player = audiodev_playback_volume (take 8 volume) p.player }
    else q

unfoldable pub audio_playback_mute : Bool → Playback → Playback
audio_playback_mute mute p =
    let q = record p { mute = mute } in
    if stream_active p.state then record q { player = audiodev_playback_mute mute p.player } else q

-- The two allocations, and whether the function goes on.
unfoldable pub make_frames : Bool → Bool → Playback → Playback × Bool
unfolding playback_stop
make_frames false out_ok p = (playback_stop p, false)
make_frames true false p =
    (playback_stop (record p { has_frames = true; changes = makes frames_in ∷ p.changes }), false)
make_frames true true p = (
  record p {
    has_frames = true;
    has_out = true;
    changes = makes frames_out ∷ makes frames_in ∷ p.changes;
  },
  true,
)

abbrev pub drop_frames : ℕ → Playback → Playback
drop_frames frames p = record (free_frames p) {
  clocks = record p.clocks { spice_period_frames = frames };
}

-- Of `audio_playback_data`, the arrays for a packet of `frames` frames: whether each of the two
-- allocations succeeds is given. The Boolean says whether the function goes on.
unfoldable pub resize_frames : Bool → Bool → ℕ → Playback → Playback × Bool
resize_frames in_ok out_ok frames p =
    if frames == p.clocks.spice_period_frames
    then (p, true)
    else make_frames in_ok out_ok (drop_frames frames p)
