-- ===== src/Audio/Pull.antt =====
-- src/audio.c, `audio_pull`: the device thread takes frames from the buffer and measures its clock.
use spicy_kvm.Prelude.{
  ℕ, ◌*◌, Bool, true, false, not, ◌&&◌, ◌∷◌, ◌==◌, if◌then◌else◌, ℤ, pos, ◌+ℤ◌, ◌-ℤ◌, is_negative,
  is_positive,
}
use spicy_kvm.Audio.Outside.{Double, RingBuffer, ◌⊕◌, ◌⊗◌, ◌⊘◌, of_nat}
use spicy_kvm.Audio.Playback.{
  is_keep_alive, StreamState, setup_device, run, is_stopped, playback_stop,
}
use spicy_kvm.Audio.Live.{Live, with_clocks, with_state, with_playback}

abbrev is_setup_device : StreamState → Bool
is_setup_device setup_device = true
is_setup_device _ = false

-- `nextPosition += n`
abbrev pub move_device {ℓ κ} : {F : Type ℓ} {B : Type κ} → ℤ → Live F B → Live F B
move_device n l = with_clocks l (record l.playback.clocks {
  device_next_position = l.playback.clocks.device_next_position +ℤ n;
})

module _ {ℓ κ} {F : Type ℓ} {B : Type κ} ⦃rb : RingBuffer B⦄ where
  -- The first call after the device was started: silence up to the frames that the start asked for.
  unfoldable pub begin_run : Live F B → Live F B
  begin_run l =
      let offset = rb.count l.buffer -ℤ pos l.target_start_frames in
      if is_setup_device l.playback.state
      then with_state
          (if is_negative offset
            then record (move_device offset l) { buffer = rb.consume offset l.buffer }
            else l)
          run
      else l

  -- The tick for the Spice thread, and the frames that are played.
  unfoldable pub play : ℕ → Live F B → Live F B
  play frames l = record l {
    ticks =
        record {
          period_frames = l.playback.clocks.device_period_frames;
          next_time = l.device.next_time;
          next_position = l.playback.clocks.device_next_position;
        }
        ∷ l.ticks;
    buffer = rb.consume (pos frames) l.buffer;
  }

  -- After 30 seconds of silence the stream that is kept alive is closed.
  unfoldable pub close_if_silent : Live F B → Live F B
  close_if_silent l =
      if is_keep_alive l.playback.state
        && not (is_positive (rb.count l.buffer +ℤ pos (30 * l.playback.sample_rate)))
      then with_playback l (playback_stop l.playback)
      else l

module _ {ℓ} {F : Type ℓ} ⦃d : Double F⦄ where
  -- `llrint(sec * 1.0e9)`
  abbrev pub nanoseconds : F → ℤ
  nanoseconds sec = d.llrint (sec ⊗ d.dec 1000000000 0)

  -- `2.0 * M_PI * bandwidth * periodSec`, with a bandwidth of 0.05
  abbrev pub omega_of : F → F
  omega_of sec = d.dec 2 0 ⊗ d.pi ⊗ d.dec 5 2 ⊗ sec

  -- `(now - nextTime) * 1.0e-9`
  abbrev pub error_of : ℤ → ℤ → F
  error_of now next_time = d.of_int (now -ℤ next_time) ⊗ d.dec 1 9

  -- `fabs(error) >= 0.2`
  abbrev pub is_far : F → Bool
  is_far error = d.ge (d.fabs error) (d.dec 2 1)

module _ {ℓ κ} {F : Type ℓ} {B : Type κ} ⦃d : Double F⦄ where
  -- `(double)frames / sampleRate`
  abbrev pub period_of : ℕ → Live F B → F
  period_of frames l = of_nat frames ⊘ of_nat l.playback.sample_rate

  -- The period has changed.
  unfoldable pub change_period : ℤ → ℕ → Live F B → Live F B
  change_period now frames l =
      let sec = period_of frames l in
      let omega_sec = omega_of sec in
      move_device (pos frames)
        (record (with_clocks l (record l.playback.clocks { device_period_frames = frames })) {
          device = record {
            period_sec = sec;
            next_time =
                if l.playback.clocks.device_period_frames == 0
                then now +ℤ nanoseconds sec
                else l.device.next_time +ℤ nanoseconds l.device.period_sec;
            b = d.sqrt2 ⊗ omega_sec;
            c = omega_sec ⊗ omega_sec;
          };
        })

  -- The error of the clock is small.
  unfoldable pub follow_device : F → ℕ → Live F B → Live F B
  follow_device error frames l = move_device (pos frames) (record l {
    device = record l.device {
      next_time = l.device.next_time +ℤ nanoseconds (l.device.b ⊗ error ⊕ l.device.period_sec);
      period_sec = l.device.period_sec ⊕ l.device.c ⊗ error;
    };
  })

module _ {ℓ κ} {F : Type ℓ} {B : Type κ} ⦃d : Double F⦄ ⦃rb : RingBuffer B⦄ where
  -- The error is too high: the read pointer is moved.
  unfoldable pub slew_device : ℤ → F → ℕ → Live F B → Live F B
  slew_device now error frames l =
      let slew = d.round (error ⊗ of_nat l.playback.sample_rate) in
      let sec = period_of frames l in
      move_device (slew +ℤ pos frames) (record l {
        buffer = rb.consume slew l.buffer;
        device = record l.device { period_sec = sec; next_time = now +ℤ nanoseconds sec };
      })

  -- The measurement of the device's clock.
  unfoldable pub measure_device : ℤ → ℕ → Live F B → Live F B
  measure_device now frames l =
      let error = error_of now l.device.next_time in
      if frames == l.playback.clocks.device_period_frames
      then (if is_far error then slew_device now error frames l else follow_device error frames l)
      else change_period now frames l

  -- The state after it, and the number of frames that it returns.
  unfoldable pub audio_pull : ℤ → ℕ → Live F B → Live F B × ℕ
  audio_pull now frames l =
      if frames == 0
      then (l, 0)
      else if is_stopped l.playback.state
      then (l, 0)
      else (close_if_silent (play frames (measure_device now frames (begin_run l))), frames)
