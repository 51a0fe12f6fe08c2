-- ===== src/Audio/Unstarted.antt =====
-- When the stream of src/audiodev.c is activated by a playback of src/audio.c.
use spicy_kvm.Prelude.{
  ℕ, zero, suc, ◌+◌, ◌-◌, ◌*◌, ◌/◌, ◌≡◌, refl, Bool, true, false, not, ◌&&◌, ◌||◌, Option, none,
  some, List, [], ◌∷◌, ◌==◌, ltb, ℤ, arith, inl, inr, Bool-cases, Option-cases,
}
use spicy_kvm.Audiodev.Player.{
  Pw, audiodev_playback_stop, audiodev_playback_volume, audiodev_playback_mute,
  audiodev_on_playback_drained,
}
use spicy_kvm.Audiodev.Agree.{activations}
use spicy_kvm.Audio.Outside.{Double, RingBuffer, IsUnbounded, Resampler}
use spicy_kvm.Audio.Playback.{
  Playback, Clocks, keep_alive, is_stopped, playback_stop, resize_frames, make_frames,
  audio_playback_start, audio_playback_stop, audio_playback_volume, audio_playback_mute,
  set_up_playback,
}
use spicy_kvm.Audio.Live.{
  Live, DeviceTick, is_setup_spice, live_start, live_stop, live_volume, live_mute,
}
use spicy_kvm.Audio.Pull.{
  change_period, follow_device, slew_device, begin_run, measure_device, play, close_if_silent,
  audio_pull,
}
use spicy_kvm.Audio.Clock.{
  receive_tick, receive_ticks, take_ticks, new_spice_period, follow_spice, slew_spice,
  measure_spice, measure_offset, resample_ratio, target_latency,
}
use spicy_kvm.Audio.Packet.{
  Surroundings, Ending, complete, broken, resample, append_frames, start_device, report_latency,
  size_frames, after_loop, store_packet, audio_playback_data,
}
use spicy_kvm.Audio.Positions.{Tracks}
use spicy_kvm.Audio.Stored.{Returns, Resampled-cases}
use spicy_kvm.Audio.Silence.{Ended, Whenever}
use spicy_kvm.Audio.Session.{Use, packet, use_live, use_all, AllProgress, Tracks-use_live}

-- How often the stream was activated.
abbrev pub starts : Playback → ℕ
starts p = activations p.player.ops

-- A step that does not begin in SETUP_SPICE, and activates nothing.
abbrev IsPast : ℕ → Playback → Type 0
IsPast n p = (is_setup_spice p.state ≡ false) × (starts p ≡ n)

IsPast-playback_stop : (n : ℕ) (p : Playback) → IsPast n p → IsPast n (playback_stop p)
unfolding playback_stop audiodev_playback_stop
IsPast-playback_stop n p v = ground arith

starts-playback_stop : (p : Playback) → starts (playback_stop p) ≡ starts p
unfolding playback_stop audiodev_playback_stop
starts-playback_stop p = ground arith

resize-IsPast :
    (n : ℕ) (in_ok out_ok : Bool) (frames : ℕ) (p : Playback)
    → IsPast n p
    → IsPast n (resize_frames in_ok out_ok frames p).0
unfolding resize_frames make_frames playback_stop audiodev_playback_stop
resize-IsPast n false out_ok frames p v = ground arith
resize-IsPast n true false frames p v = ground arith
resize-IsPast n true true frames p v = ground arith

-- A fact that the ticks and the positions do not matter to.
abbrev pub IsLasting : (Playback → Type 0) → Type 0
IsLasting P =
    (p : Playback) (c : Clocks)
    → c.spice_period_frames ≡ p.clocks.spice_period_frames
    → P p
    → P (record p { clocks = c })

module _ (P : Playback → Type 0) (lasts : IsLasting P) where
  pub receive_ticks_keeps {ℓ κ} :
      {F : Type ℓ} {B : Type κ} (ts : List DeviceTick) (l : Live F B)
      → P l.playback
      → P (receive_ticks ts l).playback
  unfolding receive_ticks receive_tick
  receive_ticks_keeps [] l v = v
  receive_ticks_keeps (t ∷ ts) l v =
      receive_ticks_keeps ts (receive_tick t l) (lasts l.playback _ refl v)

  pub resample_keeps {ℓ κ} :
      {F : Type ℓ} {B : Type κ} ⦃rb : RingBuffer B⦄ (fuel : ℕ) (process : Resampler F) (ratio : F)
      (frames call consumed : ℕ) (l : Live F B)
      → P l.playback
      → Ended P (resample fuel process ratio frames call consumed l)
  unfolding resample
  resample_keeps zero process ratio frames call consumed l v =
      elim (Bool-cases (ltb consumed frames)) [ inl more ↦ rw more tt | inr done ↦ rw done v ]
  resample_keeps (suc fuel) process ratio frames call consumed l v =
      elim (Bool-cases (ltb consumed frames)) [
        | inr done ↦ rw (resample, done) v
        | inl more ↦
            elim (Resampled-cases
              (process call (frames - consumed) ratio l.spice.frames_out_size)) [
                | inl e ↦ rw (resample, more, e) v
                | inr (used, made, e) ↦
                    rw (resample, more, e)
                      (resample_keeps fuel process ratio frames (suc call) (consumed + used)
                        (append_frames made l) (lasts l.playback _ refl v))
              ]
      ]

lasts-IsPast : (n : ℕ) → IsLasting (IsPast n)
lasts-IsPast n p c e v = v

module _ {ℓ κ} {F : Type ℓ} {B : Type κ} ⦃d : Double F⦄ ⦃rb : RingBuffer B⦄ where
  measure_spice-IsPast :
      (n : ℕ) (now : ℤ) (frames : ℕ) (changed init : Bool) (target : F) (l : Live F B)
      → IsPast n l.playback
      → IsPast n (measure_spice now frames changed init target l).live.playback
  unfolding measure_spice new_spice_period follow_spice slew_spice
  measure_spice-IsPast n now frames changed init target l v = ground arith

  finish-IsPast :
      (n : ℕ) (e : Surroundings F) (actual : F) (x : Option (Ending (Live F B)))
      → Ended (IsPast n) x
      → Whenever
          (IsPast n)
          (elim x [ none ↦ none | some ending ↦ some (after_loop e actual ending) ])
  unfolding report_latency start_device
  finish-IsPast n e actual none s = tt
  finish-IsPast n e actual (some (complete l)) s = ground arith
  finish-IsPast n e actual (some (broken l)) s = s

  store_packet-IsPast :
      (n fuel : ℕ) (e : Surroundings F) (frames : ℕ) (changed init : Bool) (l : Live F B)
      → IsPast n l.playback
      → Whenever (IsPast n) (store_packet fuel e frames changed init l)
  unfolding store_packet
  store_packet-IsPast n fuel e frames changed init l v =
      let ticked = take_ticks e.delivers l in
      let target = target_latency e.buffer_latency ticked in
      let m = measure_spice e.now frames changed init target ticked in
      let (actual, o) = measure_offset target m in
      let (ratio, r) = resample_ratio m.live.spice.offset_error o in
      let measured : IsPast n m.live.playback =
        measure_spice-IsPast n e.now frames changed init target ticked
          (receive_ticks_keeps (IsPast n) (lasts-IsPast n) (e.delivers l.ticks) l v) in
      let aimed : IsPast n r.playback =
        unfold measure_offset resample_ratio in ground (arith, measured) in
      finish-IsPast n e actual (resample fuel e.process ratio frames 0 0 r)
        (resample_keeps (IsPast n) (lasts-IsPast n) fuel e.process ratio frames 0 0 r aimed)

  size_frames-IsPast :
      (n : ℕ) (e : Surroundings F) (frames : ℕ) (l : Live F B)
      → IsPast n l.playback
      → IsPast n (size_frames e frames l).0.playback
  unfolding size_frames
  size_frames-IsPast n e frames l v =
      ground (arith, resize-IsPast n e.in_ok e.out_ok frames l.playback v)

  data-IsPast :
      (n fuel : ℕ) (e : Surroundings F) (size : ℕ) (l : Live F B)
      → IsPast n l.playback
      → Whenever (IsPast n) (audio_playback_data fuel e size l)
  unfolding audio_playback_data
  data-IsPast n fuel e size l v =
      let frames = size / (l.playback.channels * 2) in
      let period = l.playback.clocks.spice_period_frames in
      let sized = size_frames-IsPast n e frames l v in
      elim (Bool-cases (is_stopped l.playback.state || size == 0)) [
        | inl ends ↦ rw ends v
        | inr more ↦ elim (Bool-cases (size_frames e frames l).1) [
          | inr fails ↦ rw (more, fails) sized
          | inl goes_on ↦
              rw (more, goes_on)
                (store_packet-IsPast n fuel e frames (not (frames == period)) (period == 0)
                  (size_frames e frames l).0 sized)
        ]
      ]

  start-IsPast :
      (n : ℕ) (w : Pw) (src_ok : Bool) (requested channels sample_rate : ℕ) (l : Live F B)
      → IsPast n l.playback
      → let l' = live_start w src_ok requested channels sample_rate l in
        is_setup_spice l'.playback.state ≡ false → IsPast n l'.playback
  unfolding live_start audio_playback_start set_up_playback
  start-IsPast n w src_ok requested channels sample_rate l v h =
      ground (arith, starts-playback_stop l.playback)

  pulled-IsPast :
      (n : ℕ) (now : ℤ) (frames : ℕ) (l : Live F B)
      → IsPast n l.playback
      → IsPast n (play frames (measure_device now frames (begin_run l))).playback
  unfolding play measure_device change_period follow_device slew_device begin_run
  pulled-IsPast n now frames l v = ground arith

  pull-IsPast :
      (n : ℕ) (now : ℤ) (frames : ℕ) (l : Live F B)
      → IsPast n l.playback
      → IsPast n (audio_pull now frames l).0.playback
  unfolding audio_pull close_if_silent
  pull-IsPast n now frames l v =
      let m = measure_device now frames (begin_run l) in
      let w : IsPast n (play frames m).playback = pulled-IsPast n now frames l v in
      ground (arith, w, IsPast-playback_stop n (play frames m).playback w)

  use_live-IsPast :
      (n : ℕ) (x : Use F) (l : Live F B)
      → IsPast n l.playback
      → Whenever (λ p. is_setup_spice p.state ≡ false) (use_live x l)
      → Whenever (IsPast n) (use_live x l)
  unfolding live_stop live_volume live_mute audio_playback_stop audio_playback_volume
      audio_playback_mute audiodev_playback_volume audiodev_playback_mute
      audiodev_on_playback_drained
  use_live-IsPast n (Use.start w src_ok requested channels sample_rate) l v h =
      start-IsPast n w src_ok requested channels sample_rate l v h
  use_live-IsPast n (Use.stop reset_ok) l v h = ground (
    arith,
    IsPast-playback_stop n l.playback v,
    IsPast-playback_stop n (record l.playback { state = keep_alive }) (refl, v.1),
  )
  use_live-IsPast n (Use.volume vs) l v h = ground arith
  use_live-IsPast n (Use.mute m) l v h = ground arith
  use_live-IsPast n (Use.pull now frames) l v h = pull-IsPast n now frames l v
  use_live-IsPast n (packet e size) l v h =
      data-IsPast n (size / (l.playback.channels * 2)) e size l v
  use_live-IsPast n Use.drained l v h = ground arith

  -- The state is not SETUP_SPICE after any of some calls and events.
  abbrev pub is_past : Option (Live F B) → Bool
  is_past none = true
  is_past (some l) = not (is_setup_spice l.playback.state)

  abbrev pub are_past : List (Use F) → Live F B → Bool
  are_past [] l = true
  are_past (x ∷ us) l =
      let y = use_live x l in is_past y && (elim y [ none ↦ true | some l' ↦ are_past us l' ])

  module _ (u : IsUnbounded B) where
    pub starts-use_all :
        (us : List (Use F)) (l : Live F B)
        → AllProgress us
        → Tracks l
        → is_setup_spice l.playback.state ≡ false
        → are_past us l ≡ true
        → Returns (λ l'. starts l'.playback ≡ starts l.playback) (use_all us l)
    starts-use_all [] l h t s p = refl
    starts-use_all (x ∷ us) l h t s p = elim (Option-cases (use_live x l)) [
      | inl e ↦ absurd (rw e at (Tracks-use_live u x l h.0 t))
      | inr (l', e) ↦
          let r : Returns Tracks (some l') = rw e at (Tracks-use_live u x l h.0 t) in
          let q : is_past (some l') && are_past us l' ≡ true = rw e at p in
          let past : is_setup_spice l'.playback.state ≡ false = ground arith in
          let w : Whenever (IsPast (starts l.playback)) (some l') =
            rw e at (use_live-IsPast (starts l.playback) x l (s, refl) (rw e past)) in
          rw (use_all, e) (rw w.1 at (starts-use_all us l' h.1 r past (ground arith)))
    ]
