-- ===== src/Audiodev/Player.antt =====
-- src/audiodev.c, the playback stream: `pw.playback` and its functions.
use spicy_kvm.Prelude.{
  ℕ, ◌*◌, ◌/◌, Bool, true, false, ◌&&◌, Option, none, some, List, ◌∷◌, length, ◌==◌, ltb,
  if◌then◌else◌,
}
use spicy_kvm.Audiodev.Stream.{
  Flow, inactive, active, draining, Op, create, destroy, drain, connect, set_active, set_mute,
  set_volume, set_latency,
}

-- `pw.playback`, with the calls made so far, newest first. `stream` says whether it is not null;
-- `rate_match` is the size that its pointer leads to, if it is not null.
pub record Player : Type 0 where
  pub stream : Bool
  pub rate_match : Option ℕ
  pub channels : ℕ
  pub sample_rate : ℕ
  pub stride : ℕ
  pub max_period_frames : ℕ
  pub start_frames : ℕ
  pub state : Flow
  pub ops : List Op

-- What PipeWire answers: whether the stream is created, and the two numbers of its latency, if the
-- text has them.
pub record Pw : Type 0 where
  pub creates : Bool
  pub node_latency : Option (ℕ × ℕ)

abbrev pub ask : Op → Player → Player
ask op p = record p { ops = op ∷ p.ops }

-- `audiodev_on_playback_io_changed`, for SPA_IO_RateMatch.
unfoldable pub audiodev_on_playback_io_changed : Option ℕ → Player → Player
audiodev_on_playback_io_changed data_size p = record p { rate_match = data_size }

-- The frames that `audiodev_on_playback_process` asks for, of a buffer of `maxsize` bytes.
unfoldable pub process_frames : ℕ → Player → ℕ
process_frames maxsize p = elim p.rate_match [
  | none ↦ maxsize / p.stride
  | some size ↦ if ltb 0 size && ltb size (maxsize / p.stride) then size else maxsize / p.stride
]

unfoldable pub audiodev_on_playback_drained : Player → Player
audiodev_on_playback_drained p = record (ask (set_active false) p) { state = inactive }

unfoldable pub audiodev_playback_stop_stream : Player → Player
audiodev_playback_stop_stream p =
    if p.stream then record (ask destroy p) { stream = false; rate_match = none } else p

-- `pw.playback.stream` is there with this format.
abbrev pub has_format : ℕ → ℕ → Player → Bool
has_format channels sample_rate p =
    p.stream && p.channels == channels && p.sample_rate == sample_rate

abbrev create_stream : Pw → Player → Player
create_stream w p = if w.creates then record (ask create p) { stream = true } else p

-- The period of the stream: that of its latency, if it is for this sample rate.
abbrev set_period : Pw → ℕ → Player → Player
set_period w requested p = elim w.node_latency [
  | none ↦ record (ask (set_latency requested p.sample_rate) p) { max_period_frames = requested }
  | some (num, denom) ↦
      if denom == p.sample_rate
      then record p { max_period_frames = num }
      else record (ask (set_latency requested p.sample_rate) p) { max_period_frames = requested }
]

unfoldable pub audiodev_playback_setup : Pw → ℕ → ℕ → ℕ → Player → Player
unfolding audiodev_playback_stop_stream
audiodev_playback_setup w channels sample_rate requested p =
    if has_format channels sample_rate p
    then p
    else (let q = record (audiodev_playback_stop_stream p) {
      channels = channels;
      sample_rate = sample_rate;
      stride = 4 * channels;
    } in
        let r = set_period w requested (create_stream w q) in
        let s = record r { start_frames = r.max_period_frames * 2 } in
        if s.stream then ask (connect true) s else s)

-- Where the state is not ACTIVE, only INACTIVE leads to an activation.
unfoldable pub audiodev_playback_start : Player → Player
audiodev_playback_start p =
    if p.stream
    then (elim p.state [
      | inactive ↦ record (ask (set_active true) p) { state = active }
      | active ↦ p
      | draining ↦ p
    ])
    else p

unfoldable pub audiodev_playback_stop : Player → Player
audiodev_playback_stop p = elim p.state [
  | inactive ↦ p
  | active ↦ record (ask drain p) { state = draining }
  | draining ↦ p
]

-- The volumes are those of the channels.
unfoldable pub audiodev_playback_volume : List ℕ → Player → Player
audiodev_playback_volume volume p =
    if length volume == p.channels then ask (set_volume volume) p else p

unfoldable pub audiodev_playback_mute : Bool → Player → Player
audiodev_playback_mute mute p = ask (set_mute mute) p
