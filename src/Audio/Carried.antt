-- ===== src/Audio/Carried.antt =====
-- What a packet and a pull of src/audio.c change of what is known of the position.
use spicy_kvm.Prelude.{
  ℕ, zero, suc, ◌+◌, ◌*◌, ◌/◌, ◌-◌, ◌≡◌, refl, Bool, true, false, not, ◌||◌, Option, none, some,
  ◌==◌, ltb, ℤ, arith, inl, inr, Bool-cases,
}
use spicy_kvm.Audio.Outside.{Double, RingBuffer, Resampler}
use spicy_kvm.Audio.Playback.{Playback, is_stopped, playback_stop, resize_frames, make_frames}
use spicy_kvm.Audio.Live.{Live}
use spicy_kvm.Audio.Pull.{begin_run, measure_device, play, close_if_silent, audio_pull}
use spicy_kvm.Audio.Clock.{
  Measured, take_ticks, new_spice_period, follow_spice, slew_spice, target_latency, measure_spice,
  measure_offset, resample_ratio,
}
use spicy_kvm.Audio.Packet.{
  Surroundings, Ending, complete, broken, append_frames, resample, start_device, report_latency,
  size_frames, after_loop, store_packet, audio_playback_data,
}
use spicy_kvm.Audio.Positions.{clocks-playback_stop}
use spicy_kvm.Audio.Stored.{Resampled-cases}
use spicy_kvm.Audio.Informed.{
  DeliversNewest, known_position, Informed, SameKnown, SameKnown-trans, SameKnown-Informed,
  take_ticks-Informed,
}

module _ {ℓ κ} {F : Type ℓ} {B : Type κ} ⦃rb : RingBuffer B⦄ where
  -- A fact about the end of the loop, if it ends.
  abbrev EndsSame : Live F B → Option (Ending (Live F B)) → Type 0
  EndsSame l none = Unit
  EndsSame l (some (complete l')) = SameKnown l l'
  EndsSame l (some (broken l')) = SameKnown l l'

  resample-SameKnown :
      (k : Live F B) (fuel : ℕ) (process : Resampler F) (ratio : F) (frames call consumed : ℕ)
      (l : Live F B)
      → SameKnown k l
      → EndsSame k (resample fuel process ratio frames call consumed l)
  unfolding resample
  resample-SameKnown k zero process ratio frames call consumed l s =
      elim (Bool-cases (ltb consumed frames)) [ inl more ↦ rw more tt | inr done ↦ rw done s ]
  resample-SameKnown k (suc fuel) process ratio frames call consumed l s =
      elim (Bool-cases (ltb consumed frames)) [
        | inr done ↦ rw (resample, done) s
        | inl more ↦
            elim (Resampled-cases
              (process call (frames - consumed) ratio l.spice.frames_out_size)) [
                | inl e ↦ rw (resample, more, e) s
                | inr (used, made, e) ↦
                    rw (resample, more, e)
                      (resample-SameKnown k fuel process ratio frames (suc call) (consumed + used)
                        (append_frames made l)
                        (SameKnown-trans s
                          (record { ticks = refl; time = refl; known = refl; position = refl })))
              ]
      ]

resize_frames-clocks :
    (in_ok out_ok : Bool) (frames : ℕ) (p : Playback)
    → let c = (resize_frames in_ok out_ok frames p).0.clocks in
      (c.dev_next_time ≡ p.clocks.dev_next_time)
      × (c.device_next_position ≡ p.clocks.device_next_position)
unfolding resize_frames make_frames playback_stop
resize_frames-clocks false out_ok frames p = ground arith
resize_frames-clocks true false frames p = ground arith
resize_frames-clocks true true frames p = ground arith

module _ {ℓ κ} {F : Type ℓ} {B : Type κ} ⦃d : Double F⦄ ⦃rb : RingBuffer B⦄ where
  measure_spice-SameKnown :
      (now : ℤ) (frames : ℕ) (changed init : Bool) (target : F) (l : Live F B)
      → SameKnown l (measure_spice now frames changed init target l).live
  unfolding measure_spice new_spice_period follow_spice slew_spice
  measure_spice-SameKnown now frames changed init target l = ground arith

  measure_offset-SameKnown :
      (target : F) (m : Measured F B) → SameKnown m.live (measure_offset target m).1
  unfolding measure_offset
  measure_offset-SameKnown target m = ground arith

  resample_ratio-SameKnown :
      (x : F) (k l : Live F B) → SameKnown k l → SameKnown k (resample_ratio x l).1
  unfolding resample_ratio
  resample_ratio-SameKnown x k l s = ground arith

  after_loop-SameKnown :
      (e : Surroundings F) (actual : F) (k : Live F B) (ending : Ending (Live F B))
      → EndsSame k (some ending)
      → SameKnown k (after_loop e actual ending)
  unfolding report_latency start_device
  after_loop-SameKnown e actual k (complete l) s = ground arith
  after_loop-SameKnown e actual k (broken l) s = s

  -- A fact about the state where there is a result.
  abbrev pub WhenLive : (Live F B → Type 0) → Option (Live F B) → Type 0
  WhenLive P none = Unit
  WhenLive P (some l) = P l

  finish-Informed :
      (e : Surroundings F) (actual : F) (k : Live F B) (x : Option (Ending (Live F B)))
      → Informed k
      → EndsSame k x
      → WhenLive Informed (elim x [ none ↦ none | some ending ↦ some (after_loop e actual ending) ])
  finish-Informed e actual k none v s = tt
  finish-Informed e actual k (some ending) v s =
      SameKnown-Informed k (after_loop e actual ending) (after_loop-SameKnown e actual k ending s) v

  store_packet-Informed :
      (fuel : ℕ) (e : Surroundings F) (frames : ℕ) (changed init : Bool) (l : Live F B)
      → DeliversNewest e.delivers
      → Informed l
      → WhenLive Informed (store_packet fuel e frames changed init l)
  unfolding store_packet
  store_packet-Informed fuel e frames changed init l w v =
      let ticked = take_ticks e.delivers l in
      let target = target_latency e.buffer_latency ticked in
      let m = measure_spice e.now frames changed init target ticked in
      let (actual, o) = measure_offset target m in
      let (ratio, r) = resample_ratio m.live.spice.offset_error o in
      let first : SameKnown ticked m.live =
        measure_spice-SameKnown e.now frames changed init target ticked in
      let second : SameKnown m.live r =
        resample_ratio-SameKnown m.live.spice.offset_error m.live o
          (measure_offset-SameKnown target m) in
      finish-Informed e actual ticked (resample fuel e.process ratio frames 0 0 r)
        (take_ticks-Informed e.delivers l w v)
        (resample-SameKnown ticked fuel e.process ratio frames 0 0 r (SameKnown-trans first second))

  size_frames-SameKnown :
      (e : Surroundings F) (frames : ℕ) (l : Live F B) → SameKnown l (size_frames e frames l).0
  unfolding size_frames
  size_frames-SameKnown e frames l =
      let (t, p) = resize_frames-clocks e.in_ok e.out_ok frames l.playback in ground (arith, t, p)

  pub data-Informed :
      (fuel : ℕ) (e : Surroundings F) (size : ℕ) (l : Live F B)
      → DeliversNewest e.delivers
      → Informed l
      → WhenLive Informed (audio_playback_data fuel e size l)
  unfolding audio_playback_data
  data-Informed fuel e size l w v =
      let frames = size / (l.playback.channels * 2) in
      let period = l.playback.clocks.spice_period_frames in
      let sized =
        SameKnown-Informed l (size_frames e frames l).0 (size_frames-SameKnown e frames l) v in
      elim (Bool-cases (is_stopped l.playback.state || size == 0)) [
        | inl ends ↦ rw ends v
        | inr more ↦ elim (Bool-cases (size_frames e frames l).1) [
          | inr fails ↦ rw (more, fails) sized
          | inl goes_on ↦
              rw (more, goes_on)
                (store_packet-Informed fuel e frames (not (frames == period)) (period == 0)
                  (size_frames e frames l).0 w sized)
        ]
      ]

  pub pull-Informed :
      (now : ℤ) (frames : ℕ) (l : Live F B) → Informed l → Informed (audio_pull now frames l).0
  unfolding audio_pull play close_if_silent known_position
  pull-Informed now frames l v =
      let m = measure_device now frames (begin_run l) in
      ground (arith, clocks-playback_stop m.playback)
