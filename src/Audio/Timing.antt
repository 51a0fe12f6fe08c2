-- ===== src/Audio/Timing.antt =====
-- src/audio.c, `audio_pull`: the first frames that the device takes, and the end of a playback that is
-- kept alive.
use spicy_kvm.Prelude.{
  ℕ, ◌+◌, ◌*◌, ◌<◌, ◌≡◌, ap, ◌∙◌, sym, Bool, true, false, not, ◌&&◌, ◌||◌, List, [], ◌∷◌, ◌==◌,
  if◌then◌else◌, ℤ, pos, ◌+ℤ◌, ◌-ℤ◌, is_negative, is_positive, int_laws, arith, inl, inr,
  Bool-cases,
}
use spicy_kvm.Audio.Outside.{Double, RingBuffer, IsUnbounded}
use spicy_kvm.Audio.Playback.{state_stop, setup_device, run, keep_alive, is_stopped, playback_stop}
use spicy_kvm.Audio.Live.{Live}
use spicy_kvm.Audio.Pull.{
  begin_run, measure_device, change_period, follow_device, play, close_if_silent, audio_pull,
  error_of, is_far,
}

silenced : (c t : ℤ) → c -ℤ (c -ℤ t) ≡ t
silenced c t = omega int_laws

minus_zero : (a : ℤ) → a -ℤ pos 0 ≡ a
minus_zero a = omega int_laws

shifted : (c r : ℤ) (f t : ℕ) → c -ℤ pos f +ℤ r -ℤ pos t ≡ c +ℤ r -ℤ pos (f + t)
shifted c r f t = omega int_laws

true≢false : {b : Bool} → b ≡ true → b ≡ false → ⊥
true≢false p q = cc

-- How many frames are asked for.
abbrev pub total : List (ℤ × ℕ) → ℕ
total [] = 0
total ((now, frames) ∷ ps) = frames + total ps

-- What the buffer has for the device.
abbrev pub padded : ℤ → ℕ → ℤ
padded count target = if is_negative (count -ℤ pos target) then pos target else count

module _ {ℓ κ} {F : Type ℓ} {B : Type κ} ⦃d : Double F⦄ ⦃rb : RingBuffer B⦄ where
  -- Some pulls, one after the other, each with the time and the frames.
  abbrev pub pull_all : List (ℤ × ℕ) → Live F B → Live F B
  pull_all [] l = l
  pull_all ((now, frames) ∷ ps) l = pull_all ps (audio_pull now frames l).0

  -- The device's clock is measured without a move of the read pointer.
  abbrev pub is_steady : ℤ → ℕ → Live F B → Bool
  is_steady now frames l =
      not (frames == 0)
      && (not (frames == l.playback.clocks.device_period_frames)
          || not (is_far (error_of {F = F} now l.device.next_time)))

  abbrev pub are_steady : List (ℤ × ℕ) → Live F B → Bool
  are_steady [] l = true
  are_steady ((now, frames) ∷ ps) l =
      is_steady now frames l && are_steady ps (audio_pull now frames l).0

  -- The frames above 30 seconds of silence.
  abbrev pub slack : Live F B → ℤ
  slack l = rb.count l.buffer +ℤ pos (30 * l.playback.sample_rate)

module _ {ℓ κ} {F : Type ℓ} {B : Type κ} ⦃d : Double F⦄ ⦃rb : RingBuffer B⦄
    (u : IsUnbounded B) where
  begin_run_lem :
      (l : Live F B)
      → l.playback.state ≡ setup_device
      → (rb.count (begin_run l).buffer ≡ padded (rb.count l.buffer) l.target_start_frames)
        × ((begin_run l).playback.state ≡ run)
        × ((begin_run l).playback.clocks.device_period_frames
            ≡ l.playback.clocks.device_period_frames)
  unfolding begin_run
  begin_run_lem l s =
      let offset = rb.count l.buffer -ℤ pos l.target_start_frames in
      ground (
        arith,
        u.count-consume offset l.buffer,
        silenced (rb.count l.buffer) (pos l.target_start_frames),
      )

  -- The first time that a started device asks for frames, it gets as many, of a buffer that was first
  -- filled with silence up to the target, if it had fewer frames; and the playback runs.
  pub audio_pull_first :
      (now : ℤ) (frames : ℕ) (l : Live F B)
      → l.playback.state ≡ setup_device
      → l.playback.clocks.device_period_frames ≡ 0
      → 0 < frames
      → let (l', given) = audio_pull now frames l in
        (given ≡ frames)
        × (l'.playback.state ≡ run)
        × (rb.count l'.buffer ≡ padded (rb.count l.buffer) l.target_start_frames -ℤ pos frames)
  unfolding audio_pull measure_device change_period play close_if_silent
  audio_pull_first now frames l s z h =
      let (c, r, p) = begin_run_lem l s in
      ground (arith, c, r, p, u.count-consume (pos frames) (begin_run l).buffer)

  measure_steady :
      (now : ℤ) (frames : ℕ) (l : Live F B)
      → is_steady now frames l ≡ true
      → let l' = measure_device now frames l in
        (l'.buffer ≡ l.buffer)
        × (l'.playback.state ≡ l.playback.state)
        × (l'.playback.sample_rate ≡ l.playback.sample_rate)
  unfolding measure_device change_period follow_device
  measure_steady now frames l h = ground arith

  pull_keep_alive :
      (now : ℤ) (frames : ℕ) (l : Live F B)
      → l.playback.state ≡ keep_alive
      → is_steady now frames l ≡ true
      → let l' = (audio_pull now frames l).0 in
        (l'.playback.state ≡ (if is_positive (slack l') then keep_alive else state_stop))
        × (rb.count l'.buffer ≡ rb.count l.buffer -ℤ pos frames)
        × (l'.playback.sample_rate ≡ l.playback.sample_rate)
  unfolding audio_pull begin_run play close_if_silent playback_stop
  pull_keep_alive now frames l s h =
      let (b, st, r) = measure_steady now frames l h in
      ground (arith, b, st, r, u.count-consume (pos frames) l.buffer)

  stays_stopped :
      (ps : List (ℤ × ℕ)) (l : Live F B)
      → is_stopped l.playback.state ≡ true
      → is_stopped (pull_all ps l).playback.state ≡ true
  unfolding audio_pull
  stays_stopped [] l s = s
  stays_stopped ((now, frames) ∷ ps) l s =
      stays_stopped ps (audio_pull now frames l).0 (ground arith)

  left_over :
      (l l' : Live F B) (frames rest : ℕ)
      → rb.count l'.buffer ≡ rb.count l.buffer -ℤ pos frames
      → l'.playback.sample_rate ≡ l.playback.sample_rate
      → is_positive (slack l -ℤ pos (frames + rest)) ≡ false
      → is_positive (slack l' -ℤ pos rest) ≡ false
  left_over l l' frames rest c r e =
      ground (
        arith,
        c,
        r,
        e,
        shifted (rb.count l.buffer) (pos (30 * l.playback.sample_rate)) frames rest,
      )

  -- A playback that is kept alive, and gets no packet, is stopped after finitely many pulls: as soon as
  -- they asked for the frames that the buffer has and 30 seconds more, where no pull moves the read
  -- pointer otherwise.
  pub pull_all_stops :
      (ps : List (ℤ × ℕ)) (l : Live F B)
      → l.playback.state ≡ keep_alive
      → is_positive (slack l) ≡ true
      → are_steady ps l ≡ true
      → is_positive (slack l -ℤ pos (total ps)) ≡ false
      → is_stopped (pull_all ps l).playback.state ≡ true
  pull_all_stops [] l s p a e =
      absurd (true≢false p (ap is_positive (sym (minus_zero (slack l))) ∙ e))
  pull_all_stops ((now, frames) ∷ ps) l s p a e =
      let l' = (audio_pull now frames l).0 in
      let (st, c, r) = pull_keep_alive now frames l s (ground arith) in
      elim (Bool-cases (is_positive (slack l'))) [
        | inr done ↦ stays_stopped ps l' (ground arith)
        | inl more ↦
            pull_all_stops ps l' (ground arith) more (ground arith)
              (left_over l l' frames (total ps) c r e)
      ]
