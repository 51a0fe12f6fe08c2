-- ===== src/Audio/Failing.antt =====
-- A resampler of src/audio.c that fails on the first packet.
use spicy_kvm.Prelude.{
  ℕ, zero, suc, ◌-◌, ◌*◌, ◌/◌, ◌<◌, ◌≡◌, refl, ◌∙◌, Bool, true, false, not, ◌&&◌, ◌||◌, Option,
  none, some, List, [], ◌∷◌, ◌==◌, ltb, ℤ, arith, inl, inr, Bool-cases, Option-cases,
}
use native.Mathlib.Nat.{zero-div}
use spicy_kvm.Audio.Outside.{
  Double, RingBuffer, IsUnbounded, Resampler, Resampled, failed, resampled, Progresses,
}
use spicy_kvm.Audio.Playback.{Playback, setup_spice, run, is_stopped, resize_frames, make_frames}
use spicy_kvm.Audio.Live.{Live, DeviceTick}
use spicy_kvm.Audio.Pull.{is_far, error_of}
use spicy_kvm.Audio.Clock.{
  receive_tick, receive_ticks, take_ticks, new_spice_period, slew_spice, measure_spice,
  measure_offset, resample_ratio, target_latency,
}
use spicy_kvm.Audio.Packet.{
  Surroundings, Ending, complete, broken, resample, start_device, report_latency, size_frames,
  after_loop, store_packet, audio_playback_data,
}
use spicy_kvm.Audio.Positions.{Tracks}
use spicy_kvm.Audio.Stored.{Returns}
use spicy_kvm.Audio.Silence.{Ended, Whenever}
use spicy_kvm.Audio.Session.{Use, packet, use_live, use_all, AllProgress, Tracks-use_live}
use spicy_kvm.Audio.Unstarted.{
  starts, IsLasting, receive_ticks_keeps, resample_keeps, is_past, are_past, starts-use_all,
}

-- The stream still waits to be started by a packet of some frames.
record IsWaiting (n frames channels : ℕ) (p : Playback) : Type 0 where
  state : p.state ≡ setup_spice
  started : starts p ≡ n
  period : p.clocks.spice_period_frames ≡ frames
  same : p.channels ≡ channels

lasts-IsWaiting : (n frames channels : ℕ) → IsLasting (IsWaiting n frames channels)
lasts-IsWaiting n frames channels p c e v = record {
  state = v.state;
  started = v.started;
  period = e ∙ v.period;
  same = v.same;
}

-- It runs, and was not started.
abbrev IsRunning : ℕ → Playback → Type 0
IsRunning n p = (p.state ≡ run) × (starts p ≡ n)

lasts-IsRunning : (n : ℕ) → IsLasting (IsRunning n)
lasts-IsRunning n p c e v = v

-- Every call of the resampler fails.
abbrev pub Fails {ℓ} : {F : Type ℓ} → Resampler F → Type ℓ
Fails process = (i n : ℕ) (ratio : _) (room : ℤ) → process i n ratio room ≡ failed

make_frames-IsWaiting :
    (in_ok out_ok : Bool) (frames : ℕ) (p : Playback)
    → in_ok ≡ true
    → out_ok ≡ true
    → p.state ≡ setup_spice
    → let (q, goes_on) = resize_frames in_ok out_ok frames p in
      IsWaiting (starts p) frames p.channels q × (goes_on ≡ true)
unfolding resize_frames make_frames
make_frames-IsWaiting true true frames p i o s = (
  record {
    state = ground arith;
    started = ground arith;
    period = ground arith;
    same = ground arith;
  },
  ground arith,
)
make_frames-IsWaiting true false frames p i o s = cc
make_frames-IsWaiting false out_ok frames p i o s = cc

not_empty : (size c : ℕ) → 0 < size / c → (size == 0) ≡ false
not_empty zero c h = let lt : 0 < 0 = rw (zero-div c) at h in absurd (omega arith)
not_empty (suc n) c h = ground arith

module _ {ℓ κ} {F : Type ℓ} {B : Type κ} ⦃d : Double F⦄ ⦃rb : RingBuffer B⦄ where
  resample_breaks :
      (fuel : ℕ) (process : Resampler F) (ratio : F) (frames : ℕ) (l : Live F B)
      → Fails process
      → 0 < frames
      → 0 < fuel
      → resample fuel process ratio frames 0 0 l ≡ some (broken l)
  unfolding resample
  resample_breaks zero process ratio frames l fails h k = absurd (omega arith)
  resample_breaks (suc fuel) process ratio frames l fails h k =
      let more : ltb 0 frames ≡ true = ground arith in
      rw (resample, more, fails 0 (frames - 0) ratio l.spice.frames_out_size) refl

  size_frames-IsWaiting :
      (e : Surroundings F) (frames : ℕ) (l : Live F B)
      → e.in_ok ≡ true
      → e.out_ok ≡ true
      → l.playback.state ≡ setup_spice
      → let (s, goes_on) = size_frames e frames l in
        IsWaiting (starts l.playback) frames l.playback.channels s.playback × (goes_on ≡ true)
  unfolding size_frames
  size_frames-IsWaiting e frames l i o s =
      let w = make_frames-IsWaiting e.in_ok e.out_ok frames l.playback i o s in
      elim (Bool-cases (not (frames == l.playback.clocks.spice_period_frames) && e.in_ok)) [
        | inl new ↦ rw new w
        | inr old ↦ rw old w
      ]

  after_broken :
      (P : Playback → Type 0) (e : Surroundings F) (actual : F) (r : Live F B)
      (x : Option (Ending (Live F B)))
      → x ≡ some (broken r)
      → P r.playback
      → Returns
          (λ l'. P l'.playback)
          (elim x [ none ↦ none | some ending ↦ some (after_loop e actual ending) ])
  after_broken P e actual r x b p = rw b p

  -- The first packet leaves the stream waiting.
  store_first :
      (n fuel : ℕ) (e : Surroundings F) (frames channels : ℕ) (l : Live F B)
      → Fails e.process
      → 0 < frames
      → 0 < fuel
      → IsWaiting n frames channels l.playback
      → Returns
          (λ l'. IsWaiting n frames channels l'.playback)
          (store_packet fuel e frames true true l)
  unfolding store_packet
  store_first n fuel e frames channels l fails h k v =
      let P = IsWaiting n frames channels in
      let ticked = take_ticks e.delivers l in
      let target = target_latency e.buffer_latency ticked in
      let m = measure_spice e.now frames true true target ticked in
      let (actual, o) = measure_offset target m in
      let (ratio, r) = resample_ratio m.live.spice.offset_error o in
      let first : P ticked.playback =
        receive_ticks_keeps P (lasts-IsWaiting n frames channels) (e.delivers l.ticks) l v in
      let same : r.playback ≡ ticked.playback =
        unfold measure_spice new_spice_period measure_offset resample_ratio in ground arith in
      after_broken P e actual r (resample fuel e.process ratio frames 0 0 r)
        (resample_breaks fuel e.process ratio frames r fails h k) (rw same first)

  first_packet :
      (e : Surroundings F) (size : ℕ) (l : Live F B)
      → Fails e.process
      → e.in_ok ≡ true
      → e.out_ok ≡ true
      → l.playback.state ≡ setup_spice
      → l.playback.clocks.spice_period_frames ≡ 0
      → 0 < size / (l.playback.channels * 2)
      → Returns
          (λ l'.
            IsWaiting
              (starts l.playback)
              (size / (l.playback.channels * 2))
              l.playback.channels
              l'.playback)
          (use_live (packet e size) l)
  unfolding audio_playback_data
  first_packet e size l fails i o s z h =
      let frames = size / (l.playback.channels * 2) in
      let (w, goes_on) = size_frames-IsWaiting e frames l i o s in
      let more : (is_stopped l.playback.state || size == 0) ≡ false =
        ground (arith, not_empty size (l.playback.channels * 2) h) in
      let changed : (not (frames == l.playback.clocks.spice_period_frames)) ≡ true = ground arith in
      let init : (l.playback.clocks.spice_period_frames == 0) ≡ true = ground arith in
      rw (more, goes_on, changed, init)
        (store_first (starts l.playback) frames e frames l.playback.channels
          (size_frames e frames l).0 fails h h w)

  finish-IsRunning :
      (n : ℕ) (e : Surroundings F) (actual : F) (x : Option (Ending (Live F B)))
      → Ended (IsRunning n) x
      → Whenever
          (IsRunning n)
          (elim x [ none ↦ none | some ending ↦ some (after_loop e actual ending) ])
  unfolding report_latency start_device
  finish-IsRunning n e actual none s = tt
  finish-IsRunning n e actual (some (complete l)) s = ground arith
  finish-IsRunning n e actual (some (broken l)) s = s

  next_time-receive_ticks :
      (ts : List DeviceTick) (l : Live F B)
      → (receive_ticks ts l).spice.next_time ≡ l.spice.next_time
  unfolding receive_ticks receive_tick
  next_time-receive_ticks [] l = refl
  next_time-receive_ticks (t ∷ ts) l = next_time-receive_ticks ts (receive_tick t l)

  -- A packet that is late makes the state RUN.
  store_late :
      (n fuel : ℕ) (e : Surroundings F) (frames channels : ℕ) (l : Live F B)
      → is_far {F = F} (error_of e.now l.spice.next_time) ≡ true
      → IsWaiting n frames channels l.playback
      → Whenever (IsRunning n) (store_packet fuel e frames false false l)
  unfolding store_packet
  store_late n fuel e frames channels l far v =
      let P = IsWaiting n frames channels in
      let ticked = take_ticks e.delivers l in
      let target = target_latency e.buffer_latency ticked in
      let m = measure_spice e.now frames false false target ticked in
      let (actual, o) = measure_offset target m in
      let (ratio, r) = resample_ratio m.live.spice.offset_error o in
      let first : P ticked.playback =
        receive_ticks_keeps P (lasts-IsWaiting n frames channels) (e.delivers l.ticks) l v in
      let late : is_far {F = F} (error_of e.now ticked.spice.next_time) ≡ true =
        rw (next_time-receive_ticks (e.delivers l.ticks) l) far in
      let slewed : IsRunning n m.live.playback =
        unfold measure_spice slew_spice in ground (arith, late, first) in
      let runs : IsRunning n r.playback =
        unfold measure_offset resample_ratio in ground (arith, slewed) in
      finish-IsRunning n e actual (resample fuel e.process ratio frames 0 0 r)
        (resample_keeps (IsRunning n) (lasts-IsRunning n) fuel e.process ratio frames 0 0 r runs)

  size_frames-same :
      (e : Surroundings F) (frames : ℕ) (l : Live F B)
      → l.playback.clocks.spice_period_frames ≡ frames
      → size_frames e frames l ≡ (l, true)
  unfolding size_frames resize_frames
  size_frames-same e frames l h =
      let same : (frames == l.playback.clocks.spice_period_frames) ≡ true = ground arith in
      rw same refl

  late_packet :
      (n : ℕ) (e : Surroundings F) (size frames : ℕ) (l : Live F B)
      → IsWaiting n frames l.playback.channels l.playback
      → size / (l.playback.channels * 2) ≡ frames
      → 0 < frames
      → is_far {F = F} (error_of e.now l.spice.next_time) ≡ true
      → Whenever (IsRunning n) (use_live (packet e size) l)
  unfolding audio_playback_data
  late_packet n e size frames l v q h far =
      let sized = size_frames-same e frames l v.period in
      let more : (is_stopped l.playback.state || size == 0) ≡ false =
        ground (arith, v.state, not_empty size (l.playback.channels * 2) (rw q h)) in
      let same : not (frames == l.playback.clocks.spice_period_frames) ≡ false =
        ground (arith, v.period) in
      let init : (l.playback.clocks.spice_period_frames == 0) ≡ false = ground (arith, v.period) in
      rw (more, q, sized, same, init) (store_late n frames e frames l.playback.channels l far v)

Fails-Progresses {ℓ} : {F : Type ℓ} (process : Resampler F) → Fails process → Progresses process
Fails-Progresses process fails = record {
  uses = λ i n ratio room used made h e. absurd (never (fails i n ratio room) e);
}
  where
    never : {r : Resampled} {used made : ℕ} → r ≡ failed → r ≡ resampled used made → ⊥
    never p q = cc

module _ {ℓ κ} {F : Type ℓ} {B : Type κ} ⦃d : Double F⦄ ⦃rb : RingBuffer B⦄ where
  -- Where the resampler fails on the first packet, for which the arrays are made, and the next packet, of the same
  -- size, is late: the state is RUN after it; and it and any calls and events after it return without that the
  -- stream is activated, as long as none of them leaves the state SETUP_SPICE. The later resamplers make progress, and
  -- the count of the ring buffer is at first what the position of the packets is ahead of the position of the device.
  pub late_packet_runs :
      (u : IsUnbounded B) (e e' : Surroundings F) (size : ℕ) (us : List (Use F)) (l l' : Live F B)
      → Tracks l
      → l.playback.state ≡ setup_spice
      → l.playback.clocks.spice_period_frames ≡ 0
      → 0 < size / (l.playback.channels * 2)
      → e.in_ok ≡ true
      → e.out_ok ≡ true
      → Fails e.process
      → use_live (packet e size) l ≡ some l'
      → is_far {F = F} (error_of e'.now l'.spice.next_time) ≡ true
      → Progresses e'.process
      → AllProgress us
      → are_past (packet e' size ∷ us) l' ≡ true
      → Returns (λ l2. l2.playback.state ≡ run) (use_live (packet e' size) l')
        × Returns (λ l2. starts l2.playback ≡ starts l.playback) (use_all (packet e' size ∷ us) l')
  late_packet_runs u e e' size us l l' t s z h i o fails first far progress all past =
      let n = starts l.playback in
      let frames = size / (l.playback.channels * 2) in
      let w : Returns (λ q. IsWaiting n frames l.playback.channels q.playback) (some l') =
        rw first at (first_packet e size l fails i o s z h) in
      let v : IsWaiting n frames l'.playback.channels l'.playback = record {
        state = w.state;
        started = w.started;
        period = w.period;
        same = refl;
      } in
      let t' : Returns Tracks (some l') =
        rw first at (Tracks-use_live u (packet e size) l (Fails-Progresses e.process fails) t) in
      let r = Tracks-use_live u (packet e' size) l' progress t' in
      let q : size / (l'.playback.channels * 2) ≡ frames = rw w.same refl in
      let m = late_packet n e' size frames l' v q h far in
      elim (Option-cases (use_live (packet e' size) l')) [
        | inl none_e ↦ absurd (rw none_e at r)
        | inr (l2, some_e) ↦
            let runs : Whenever (IsRunning n) (some l2) = rw some_e at m in
            let tracks : Returns Tracks (some l2) = rw some_e at r in
            let later : is_past (some l2) && are_past us l2 ≡ true = rw some_e at past in
            rw (use_all, some_e)
              (
                runs.0,
                rw runs.1 at
                    (starts-use_all u us l2 all tracks (ground (arith, runs.0)) (ground arith)),
              )
      ]
