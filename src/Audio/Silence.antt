-- ===== src/Audio/Silence.antt =====
-- The device of src/audio.c while nothing is played: what `audio_pull` and a packet keep.
use spicy_kvm.Prelude.{
  ℕ, zero, suc, ◌+◌, ◌-◌, ◌*◌, ◌/◌, ◌≡◌, ◌∙◌, Bool, true, false, not, ◌||◌, Option, none, some,
  List, [], ◌∷◌, ◌==◌, ltb, ℤ, arith, inl, inr, Bool-cases,
}
use spicy_kvm.Audio.Outside.{Double, RingBuffer, Resampler}
use spicy_kvm.Audio.Playback.{Playback, is_stopped}
use spicy_kvm.Audio.Balance.{resize-Balanced}
use spicy_kvm.Audio.Live.{Live, DeviceTick}
use spicy_kvm.Audio.Pull.{
  begin_run, measure_device, change_period, follow_device, slew_device, play, close_if_silent,
  audio_pull,
}
use spicy_kvm.Audio.Clock.{
  receive_tick, receive_ticks, take_ticks, new_spice_period, follow_spice, slew_spice,
  measure_spice, measure_offset, resample_ratio, target_latency,
}
use spicy_kvm.Audio.Packet.{
  Surroundings, Ending, complete, broken, resample, append_frames, start_device, report_latency,
  size_frames, after_loop, store_packet, audio_playback_data,
}
use spicy_kvm.Audio.Stored.{Resampled-cases}
use spicy_kvm.Audio.Quiet.{
  IsQuiet, Same, Same-refl, Same-trans, Same-IsQuiet, playback_stop-IsQuiet, resize_quiet,
  resize_goes_on,
}

module _ {ℓ κ} {F : Type ℓ} {B : Type κ} ⦃rb : RingBuffer B⦄ where
  begin_run-Same : (l : Live F B) → Same l.playback (begin_run l).playback
  unfolding begin_run
  begin_run-Same l = ground arith

  play-Same : (frames : ℕ) (l : Live F B) → Same l.playback (play frames l).playback
  unfolding play
  play-Same frames l = Same-refl l.playback

module _ {ℓ κ} {F : Type ℓ} {B : Type κ} ⦃d : Double F⦄ ⦃rb : RingBuffer B⦄ where
  measure_device-Same :
      (now : ℤ) (frames : ℕ) (l : Live F B) → Same l.playback (measure_device now frames l).playback
  unfolding measure_device change_period follow_device slew_device
  measure_device-Same now frames l = ground arith

  pub pulled-Same :
      (now : ℤ) (frames : ℕ) (l : Live F B)
      → Same l.playback (play frames (measure_device now frames (begin_run l))).playback
  pulled-Same now frames l = Same-trans (begin_run-Same l) (
      Same-trans (measure_device-Same now frames (begin_run l))
        (play-Same frames (measure_device now frames (begin_run l))))

  pub audio_pull-IsQuiet :
      (now : ℤ) (frames : ℕ) (l : Live F B)
      → IsQuiet l.playback
      → IsQuiet (audio_pull now frames l).0.playback
  unfolding audio_pull close_if_silent
  audio_pull-IsQuiet now frames l v =
      let m = measure_device now frames (begin_run l) in
      let w = Same-IsQuiet l.playback (play frames m).playback (pulled-Same now frames l) v in
      ground (arith, w, playback_stop-IsQuiet (play frames m).playback w)

  measure_spice-Same :
      (now : ℤ) (frames : ℕ) (changed init : Bool) (target : F) (l : Live F B)
      → is_stopped l.playback.state ≡ false
      → Same l.playback (measure_spice now frames changed init target l).live.playback
  unfolding measure_spice new_spice_period follow_spice slew_spice
  measure_spice-Same now frames changed init target l s = ground arith

module _ {ℓ κ} {F : Type ℓ} {B : Type κ} where
  receive_ticks-Same :
      (ts : List DeviceTick) (l : Live F B) → Same l.playback (receive_ticks ts l).playback
  unfolding receive_ticks receive_tick
  receive_ticks-Same [] l = Same-refl l.playback
  receive_ticks-Same (t ∷ ts) l =
      Same-trans (ground arith) (receive_ticks-Same ts (receive_tick t l))

  start_device-IsQuiet : (l : Live F B) → IsQuiet l.playback → IsQuiet (start_device l).playback
  unfolding start_device
  start_device-IsQuiet l v = ground arith

  -- A fact about the playback where there is a result.
  abbrev pub Whenever : (Playback → Type 0) → Option (Live F B) → Type 0
  Whenever P none = Unit
  Whenever P (some l) = P l.playback

  abbrev pub Ended : (Playback → Type 0) → Option (Ending (Live F B)) → Type 0
  Ended P none = Unit
  Ended P (some (complete l)) = P l.playback
  Ended P (some (broken l)) = P l.playback

module _ {ℓ κ} {F : Type ℓ} {B : Type κ} ⦃rb : RingBuffer B⦄ where
  resample-Same :
      (p : Playback) (fuel : ℕ) (process : Resampler F) (ratio : F) (frames call consumed : ℕ)
      (l : Live F B)
      → Same p l.playback
      → Ended (Same p) (resample fuel process ratio frames call consumed l)
  unfolding resample
  resample-Same p zero process ratio frames call consumed l s =
      elim (Bool-cases (ltb consumed frames)) [ inl more ↦ rw more tt | inr done ↦ rw done s ]
  resample-Same p (suc fuel) process ratio frames call consumed l s =
      elim (Bool-cases (ltb consumed frames)) [
        | inr done ↦ rw (resample, done) s
        | inl more ↦
            elim (Resampled-cases
              (process call (frames - consumed) ratio l.spice.frames_out_size)) [
                | inl e ↦ rw (resample, more, e) s
                | inr (used, made, e) ↦
                    rw (resample, more, e)
                      (resample-Same p fuel process ratio frames (suc call) (consumed + used)
                        (append_frames made l) (ground arith))
              ]
      ]

module _ {ℓ κ} {F : Type ℓ} {B : Type κ} ⦃d : Double F⦄ ⦃rb : RingBuffer B⦄ where
  finish-IsQuiet :
      (p : Playback) (e : Surroundings F) (actual : F) (x : Option (Ending (Live F B)))
      → IsQuiet p
      → Ended (Same p) x
      → Whenever IsQuiet (elim x [ none ↦ none | some ending ↦ some (after_loop e actual ending) ])
  unfolding report_latency
  finish-IsQuiet p e actual none v s = tt
  finish-IsQuiet p e actual (some (complete l)) v s =
      start_device-IsQuiet l (Same-IsQuiet p l.playback s v)
  finish-IsQuiet p e actual (some (broken l)) v s = Same-IsQuiet p l.playback s v

  store_packet-IsQuiet :
      (fuel : ℕ) (e : Surroundings F) (frames : ℕ) (changed init : Bool) (l : Live F B)
      → is_stopped l.playback.state ≡ false
      → IsQuiet l.playback
      → Whenever IsQuiet (store_packet fuel e frames changed init l)
  unfolding store_packet
  store_packet-IsQuiet fuel e frames changed init l live v =
      let ticked = take_ticks e.delivers l in
      let target = target_latency e.buffer_latency ticked in
      let m = measure_spice e.now frames changed init target ticked in
      let (actual, o) = measure_offset target m in
      let (ratio, r) = resample_ratio m.live.spice.offset_error o in
      let first : Same l.playback ticked.playback = receive_ticks-Same (e.delivers l.ticks) l in
      let second : Same ticked.playback m.live.playback =
        measure_spice-Same e.now frames changed init target ticked (ground (arith, first)) in
      let third : Same m.live.playback r.playback =
        unfold measure_offset resample_ratio in ground arith in
      finish-IsQuiet l.playback e actual (resample fuel e.process ratio frames 0 0 r) v (
        resample-Same l.playback fuel e.process ratio frames 0 0 r
          (Same-trans first (Same-trans second third)))

  size_frames-IsQuiet :
      (e : Surroundings F) (frames : ℕ) (l : Live F B)
      → is_stopped l.playback.state ≡ false
      → IsQuiet l.playback
      → IsQuiet (size_frames e frames l).0.playback
  unfolding size_frames
  size_frames-IsQuiet e frames l live v =
      let sized = resize-Balanced e.in_ok e.out_ok frames l.playback v.balanced live in
      let q = resize_quiet e.in_ok e.out_ok frames l.playback live v in ground (arith, sized, q)

  size_frames_goes_on :
      (e : Surroundings F) (frames : ℕ) (l : Live F B)
      → (size_frames e frames l).1 ≡ true
      → is_stopped (size_frames e frames l).0.playback.state ≡ is_stopped l.playback.state
  unfolding size_frames
  size_frames_goes_on e frames l h =
      ground (arith, resize_goes_on e.in_ok e.out_ok frames l.playback)

  pub data-IsQuiet :
      (fuel : ℕ) (e : Surroundings F) (size : ℕ) (l : Live F B)
      → IsQuiet l.playback
      → Whenever IsQuiet (audio_playback_data fuel e size l)
  unfolding audio_playback_data
  data-IsQuiet fuel e size l v =
      let frames = size / (l.playback.channels * 2) in
      let period = l.playback.clocks.spice_period_frames in
      elim (Bool-cases (is_stopped l.playback.state || size == 0)) [
        | inl ends ↦ rw ends v
        | inr more ↦
            let live : is_stopped l.playback.state ≡ false = ground arith in
            let sized = size_frames-IsQuiet e frames l live v in
            elim (Bool-cases (size_frames e frames l).1) [
              | inr fails ↦ rw (more, fails) sized
              | inl goes_on ↦
                  rw (more, goes_on)
                    (store_packet-IsQuiet fuel e frames (not (frames == period)) (period == 0)
                      (size_frames e frames l).0 (size_frames_goes_on e frames l goes_on ∙ live)
                      sized)
            ]
      ]
