-- ===== src/Audio/Packet.antt =====
-- src/audio.c, `audio_playback_data`: a packet of samples is resampled into the buffer.
use spicy_kvm.Prelude.{
  ℕ, zero, suc, ◌+◌, ◌*◌, ◌/◌, ◌-◌, Bool, true, false, not, ◌&&◌, ◌||◌, Option, none, some, List,
  ◌∷◌, ◌==◌, ltb, if◌then◌else◌, ℤ, pos,
}
use spicy_kvm.Audiodev.Latency.{Time, audiodev_playback_latency}
use spicy_kvm.Audiodev.Player.{audiodev_playback_start}
use spicy_kvm.Audio.Outside.{
  Double, RingBuffer, Resampler, failed, resampled, ◌⊕◌, ◌⊗◌, ◌⊘◌, of_nat,
}
use spicy_kvm.Audio.Playback.{setup_device, is_stopped, resize_frames}
use spicy_kvm.Audio.Live.{is_setup_spice, Live, DeviceTick, with_playback}
use spicy_kvm.Audio.Clock.{
  take_ticks, move_spice, target_latency, measure_spice, measure_offset, resample_ratio,
}

-- What the outside gives for a packet: the time, whether the two allocations succeed, what
-- `deviceTiming` delivers, the resampler, the times at which `audiodev_playback_latency` is called and
-- the time of the stream by then, whether there is a `latency_cb`, and the option `buffer_latency`.
pub record Surroundings {ℓ} (F : Type ℓ) : Type ℓ where
  pub now : ℤ
  pub in_ok : Bool
  pub out_ok : Bool
  pub delivers : List DeviceTick → List DeviceTick
  pub process : Resampler F
  pub clock : ℤ
  pub clock_again : ℤ
  pub time : Time
  pub has_callback : Bool
  pub buffer_latency : ℤ

-- How the loop of the resampler ends.
pub data Ending {ℓ} (A : Type ℓ) : Type ℓ where
  complete : A → Ending A
  broken : A → Ending A

module _ {ℓ κ} {F : Type ℓ} {B : Type κ} ⦃rb : RingBuffer B⦄ where
  abbrev pub append_frames : ℕ → Live F B → Live F B
  append_frames made l = record (move_spice (pos made) l) { buffer = rb.append (pos made) l.buffer }

  -- `while (consumed < frames)`, on fuel, where `call` counts the calls; `none` if the fuel runs out.
  unfoldable pub resample : ℕ → Resampler F → F → ℕ → ℕ → ℕ → Live F B → Option (Ending (Live F B))
  resample zero process ratio frames call consumed l =
      if ltb consumed frames then none else some (complete l)
  resample (suc fuel) process ratio frames call consumed l = elim (ltb consumed frames) [
    | false ↦ some (complete l)
    | true ↦ elim (process call (frames - consumed) ratio l.spice.frames_out_size) [
      | failed ↦ some (broken l)
      | resampled used made ↦
          resample fuel process ratio frames (suc call) (consumed + used) (append_frames made l)
    ]
  ]

-- The device is started after the first packet.
unfoldable pub start_device {ℓ κ} : {F : Type ℓ} {B : Type κ} → Live F B → Live F B
start_device l =
    if is_setup_spice l.playback.state
    then record (with_playback l (record l.playback {
      state = setup_device;
      player = audiodev_playback_start l.playback.player;
    })) {
      target_start_frames =
          l.playback.clocks.spice_period_frames * 2 + l.playback.device_start_frames;
    }
    else l

module _ {ℓ κ} {F : Type ℓ} {B : Type κ} ⦃d : Double F⦄ where
  -- `frames * 1000.0 / sampleRate`
  abbrev milliseconds : F → Live F B → F
  milliseconds frames l = frames ⊗ d.dec 1000 0 ⊘ of_nat l.playback.sample_rate

  -- `audiodev_playback_latency` at a time.
  abbrev device_latency : ℤ → Surroundings F → Live F B → ℕ
  device_latency ts e l = audiodev_playback_latency ts l.playback.player.sample_rate e.time

  -- The latency for the graph and for `latency_cb`.
  unfoldable pub report_latency : Surroundings F → F → Live F B → Live F B
  report_latency e actual l =
      let latency = d.to_float (milliseconds (actual ⊕ of_nat (device_latency e.clock e l)) l) in
      record l {
        timings = latency ∷ l.timings;
        reports =
            if e.has_callback
            then (
              latency,
              milliseconds actual l,
              milliseconds (of_nat (device_latency e.clock_again e l)) l,
            )
              ∷ l.reports
            else l.reports;
      }

  -- The arrays for the packet, and the size of the second one; the Boolean says whether to go on.
  unfoldable pub size_frames : Surroundings F → ℕ → Live F B → Live F B × Bool
  size_frames e frames l =
      let (p, goes_on) = resize_frames e.in_ok e.out_ok frames l.playback in
      let sized = with_playback l p in
      if not (frames == l.playback.clocks.spice_period_frames) && e.in_ok
      then (
        record sized {
          spice = record l.spice { frames_out_size = d.round (of_nat frames ⊗ d.dec 11 1) };
        },
        goes_on,
      )
      else (sized, goes_on)

  -- After the loop of the resampler; an error of it ends the function.
  abbrev pub after_loop : Surroundings F → F → Ending (Live F B) → Live F B
  after_loop e actual (complete l) = report_latency e actual (start_device l)
  after_loop e actual (broken l) = l

module _ {ℓ κ} {F : Type ℓ} {B : Type κ} ⦃d : Double F⦄ ⦃rb : RingBuffer B⦄ where
  -- From the ticks on.
  unfoldable pub store_packet : ℕ → Surroundings F → ℕ → Bool → Bool → Live F B → Option (Live F B)
  store_packet fuel e frames period_changed init l =
      let t = take_ticks e.delivers l in
      let target = target_latency e.buffer_latency t in
      let m = measure_spice e.now frames period_changed init target t in
      let (actual, o) = measure_offset target m in
      let (ratio, r) = resample_ratio m.live.spice.offset_error o in
      elim (resample fuel e.process ratio frames 0 0 r) [
        | none ↦ none
        | some ending ↦ some (after_loop e actual ending)
      ]

  unfoldable pub audio_playback_data : ℕ → Surroundings F → ℕ → Live F B → Option (Live F B)
  audio_playback_data fuel e size l =
      let frames = size / (l.playback.channels * 2) in
      let (sized, goes_on) = size_frames e frames l in
      let period = l.playback.clocks.spice_period_frames in
      if is_stopped l.playback.state || size == 0
      then some l
      else if goes_on
      then store_packet fuel e frames (not (frames == period)) (period == 0) sized
      else some sized
