-- ===== src/Audio/Stored.antt =====
-- The positions of src/audio.c after a packet.
use spicy_kvm.Prelude.{
  ℕ, zero, suc, ◌+◌, ◌*◌, ◌/◌, ◌-◌, ◌≤◌, ◌≡◌, refl, Bool, true, false, not, ◌||◌, Option, none,
  some, List, [], ◌∷◌, ◌==◌, ltb, ℤ, arith, ◌⊎◌, inl, inr, Bool-cases,
}
use spicy_kvm.Audio.Outside.{
  Double, RingBuffer, IsUnbounded, Progresses, Resampler, Resampled, failed, resampled,
}
use spicy_kvm.Audio.Playback.{
  Playback, is_stopped, playback_stop, resize_frames, make_frames, drop_frames,
}
use spicy_kvm.Audio.Live.{Live, DeviceTick}
use spicy_kvm.Audio.Pull.{error_of}
use spicy_kvm.Audio.Clock.{
  Measured, receive_tick, receive_ticks, take_ticks, new_spice_period, follow_spice, slew_frames,
  slew_spice, target_latency, measure_spice, measure_offset, resample_ratio,
}
use spicy_kvm.Audio.Packet.{
  Surroundings, Ending, complete, broken, append_frames, resample, start_device, report_latency,
  size_frames, after_loop, store_packet, audio_playback_data,
}
use spicy_kvm.Audio.Positions.{given, Tracks, Tracks-append_frames}

pub Resampled-cases :
    (r : Resampled) → (r ≡ failed) ⊎ ((used : ℕ) × (made : ℕ) × (r ≡ resampled used made))
Resampled-cases failed = inl refl
Resampled-cases (resampled used made) = inr (used, made, refl)

-- What moves neither position.
abbrev SamePositions : Playback → Playback → Type 0
SamePositions p q =
    (q.clocks.device_next_position ≡ p.clocks.device_next_position)
    × (q.clocks.spice_next_position ≡ p.clocks.spice_next_position)

make_frames_keeps :
    (in_ok out_ok : Bool) (p : Playback) → SamePositions p (make_frames in_ok out_ok p).0
unfolding make_frames playback_stop
make_frames_keeps false out_ok p = ground arith
make_frames_keeps true false p = ground arith
make_frames_keeps true true p = (refl, refl)

resize_frames_keeps :
    (in_ok out_ok : Bool) (frames : ℕ) (p : Playback)
    → SamePositions p (resize_frames in_ok out_ok frames p).0
unfolding resize_frames
resize_frames_keeps in_ok out_ok frames p =
    ground (arith, make_frames_keeps in_ok out_ok (drop_frames frames p))

-- A result, with a fact about it.
abbrev pub Returns {ℓ} : {A : Type ℓ} → (A → Type 0) → Option A → Type 0
Returns P none = ⊥
Returns P (some a) = P a

module _ {ℓ κ} {F : Type ℓ} {B : Type κ} ⦃rb : RingBuffer B⦄ where
  Tracks-receive_ticks :
      (ts : List DeviceTick) (l : Live F B) → Tracks l → Tracks (receive_ticks ts l)
  unfolding receive_ticks receive_tick
  Tracks-receive_ticks [] l t = t
  Tracks-receive_ticks (tick ∷ ts) l t = Tracks-receive_ticks ts (receive_tick tick l) t

  Tracks-start_device : (l : Live F B) → Tracks l → Tracks (start_device l)
  unfolding start_device
  Tracks-start_device l t = ground arith

  abbrev AtEnd : Ending (Live F B) → Type 0
  AtEnd (complete l) = Tracks l
  AtEnd (broken l) = Tracks l

  module _ (u : IsUnbounded B) (process : Resampler F) (progress : Progresses process) where
    -- With as much fuel as frames are left, the loop ends.
    resample_ends :
        (fuel : ℕ) (ratio : F) (frames call consumed : ℕ) (l : Live F B)
        → frames ≤ consumed + fuel
        → Tracks l
        → Returns AtEnd (resample fuel process ratio frames call consumed l)
    unfolding resample
    resample_ends zero ratio frames call consumed l h t = elim (Bool-cases (ltb consumed frames)) [
      | inl more ↦ absurd (ground arith)
      | inr done ↦ rw done t
    ]
    resample_ends (suc fuel) ratio frames call consumed l h t =
        elim (Bool-cases (ltb consumed frames)) [
          | inr done ↦ rw (resample, done) t
          | inl more ↦
              let room = l.spice.frames_out_size in
              elim (Resampled-cases (process call (frames - consumed) ratio room)) [
                | inl e ↦ rw (resample, more, e) t
                | inr (used, made, e) ↦
                    let (lo, hi) =
                      progress.uses call (frames - consumed) ratio room used made (ground arith)
                        e in
                    rw (resample, more, e)
                      (resample_ends fuel ratio frames (suc call) (consumed + used)
                        (append_frames made l) (omega arith) (Tracks-append_frames u made l t))
              ]
        ]

module _ {ℓ κ} {F : Type ℓ} {B : Type κ} ⦃d : Double F⦄ ⦃rb : RingBuffer B⦄ where
  Tracks-size_frames :
      (e : Surroundings F) (frames : ℕ) (l : Live F B)
      → Tracks l
      → Tracks (size_frames e frames l).0
  unfolding size_frames
  Tracks-size_frames e frames l t =
      let (p, _) = resize_frames e.in_ok e.out_ok frames l.playback in
      let (d_same, s_same) = resize_frames_keeps e.in_ok e.out_ok frames l.playback in
      ground (arith, d_same, s_same)

  Tracks-measure_offset :
      (target : F) (m : Measured F B) → Tracks m.live → Tracks (measure_offset target m).1
  unfolding measure_offset
  Tracks-measure_offset target m t = ground arith

  Tracks-after_loop :
      (e : Surroundings F) (actual : F) (ending : Ending (Live F B))
      → AtEnd ending
      → Tracks (after_loop e actual ending)
  unfolding report_latency
  Tracks-after_loop e actual (complete l) t = Tracks-start_device l t
  Tracks-after_loop e actual (broken l) t = t

  finish :
      (e : Surroundings F) (actual : F) (x : Option (Ending (Live F B)))
      → Returns AtEnd x
      → Returns Tracks (elim x [ none ↦ none | some ending ↦ some (after_loop e actual ending) ])
  finish e actual none t = elim t [ ]
  finish e actual (some ending) t = Tracks-after_loop e actual ending t

  module _ (u : IsUnbounded B) where
    Tracks-measure_spice :
        (now : ℤ) (frames : ℕ) (changed init : Bool) (target : F) (l : Live F B)
        → Tracks l
        → Tracks (measure_spice now frames changed init target l).live
    unfolding measure_spice new_spice_period follow_spice slew_spice
    Tracks-measure_spice now frames changed init target l t =
        let slew = slew_frames now (error_of now l.spice.next_time) target l in
        ground (
          arith,
          u.count-append slew l.buffer,
          given (rb.count l.buffer) l.playback.clocks.device_next_position slew,
        )

    Tracks-store_packet :
        (fuel : ℕ) (e : Surroundings F) (frames : ℕ) (changed init : Bool) (l : Live F B)
        → Progresses e.process
        → frames ≤ fuel
        → Tracks l
        → Returns Tracks (store_packet fuel e frames changed init l)
    unfolding store_packet
    Tracks-store_packet fuel e frames changed init l progress h t =
        let ticked = take_ticks e.delivers l in
        let target = target_latency e.buffer_latency ticked in
        let m = measure_spice e.now frames changed init target ticked in
        let (actual, o) = measure_offset target m in
        let (ratio, r) = resample_ratio m.live.spice.offset_error o in
        let measured : Tracks m.live =
          Tracks-measure_spice e.now frames changed init target ticked
            (Tracks-receive_ticks (e.delivers l.ticks) l t) in
        let tracked : Tracks r = unfold resample_ratio in Tracks-measure_offset target m measured in
        finish e actual (resample fuel e.process ratio frames 0 0 r)
          (resample_ends u e.process progress fuel ratio frames 0 0 r (omega arith) tracked)

    -- A packet is stored in as many steps as it has frames at most, and the count of the ring buffer stays
    -- what the position of the packets is ahead of the position of the device.
    pub Tracks-audio_playback_data :
        (fuel : ℕ) (e : Surroundings F) (size : ℕ) (l : Live F B)
        → Progresses e.process
        → size / (l.playback.channels * 2) ≤ fuel
        → Tracks l
        → Returns Tracks (audio_playback_data fuel e size l)
    unfolding audio_playback_data
    Tracks-audio_playback_data fuel e size l progress h t =
        let frames = size / (l.playback.channels * 2) in
        let period = l.playback.clocks.spice_period_frames in
        elim (Bool-cases (is_stopped l.playback.state || size == 0)) [
          | inl ends ↦ rw ends t
          | inr more ↦ elim (Bool-cases (size_frames e frames l).1) [
            | inr fails ↦ rw (more, fails) (Tracks-size_frames e frames l t)
            | inl goes_on ↦
                rw (more, goes_on)
                  (Tracks-store_packet fuel e frames (not (frames == period)) (period == 0)
                    (size_frames e frames l).0 progress h (Tracks-size_frames e frames l t))
          ]
        ]
