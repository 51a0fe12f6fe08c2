-- ===== src/Audio/Clock.antt =====
-- src/audio.c, of `audio_playback_data`: the target latency, and the clock of the packets.
use spicy_kvm.Prelude.{
  ℕ, ◌*◌, ◌-◌, Bool, true, false, not, ◌&&◌, ◌||◌, Option, none, some, List, [], ◌∷◌, ◌==◌, ltb,
  if◌then◌else◌, ℤ, ◌+ℤ◌, ◌-ℤ◌, negsuc, pos_part,
}
use spicy_kvm.Audio.Outside.{Double, RingBuffer, ◌⊕◌, ◌⊖◌, ◌⊗◌, ◌⊘◌, of_nat}
use spicy_kvm.Audio.Playback.{is_keep_alive, run}
use spicy_kvm.Audio.Live.{Live, DeviceTick, with_clocks, with_state}
use spicy_kvm.Audio.Pull.{period_of, nanoseconds, omega_of, error_of, is_far}

-- INT64_MIN for a time that is not known.
abbrev time_of : Option ℤ → ℤ
time_of none = negsuc 9223372036854775807
time_of (some t) = t

abbrev is_known : Option ℤ → Bool
is_known none = false
is_known (some t) = true

abbrev pub max : ℕ → ℕ → ℕ
max a b = if ltb a b then b else a

module _ {ℓ κ} {F : Type ℓ} {B : Type κ} where
  -- A tick of the device thread.
  unfoldable pub receive_tick : DeviceTick → Live F B → Live F B
  receive_tick t l =
      record (with_clocks l (record l.playback.clocks {
        dev_period_frames = t.period_frames;
        dev_last_time = l.playback.clocks.dev_next_time;
        dev_next_time = some t.next_time;
      })) {
        spice = record l.spice {
          dev_last_position = l.spice.dev_next_position;
          dev_next_position = t.next_position;
        };
      }

  -- The loop over the ticks that `deviceTiming` has.
  unfoldable pub receive_ticks : List DeviceTick → Live F B → Live F B
  receive_ticks [] l = l
  receive_ticks (t ∷ ts) l = receive_ticks ts (receive_tick t l)

  -- What `deviceTiming` delivers of the ticks that were pushed.
  abbrev pub take_ticks : (List DeviceTick → List DeviceTick) → Live F B → Live F B
  take_ticks delivers l = record (receive_ticks (delivers l.ticks) l) { ticks = [] }

  -- `nextPosition += n`
  abbrev pub move_spice : ℤ → Live F B → Live F B
  move_spice n l = with_clocks l (record l.playback.clocks {
    spice_next_position = l.playback.clocks.spice_next_position +ℤ n;
  })

-- `curTime`, `curPosition` and `devPosition`, which is DBL_MIN while it is not computed.
pub record Measured {ℓ κ} (F : Type ℓ) (B : Type κ) : Type (ℓ ⊔ κ) where
  pub live : Live F B
  pub cur_time : ℤ
  pub cur_position : ℤ
  pub dev_position : F

module _ {ℓ κ} {F : Type ℓ} {B : Type κ} ⦃d : Double F⦄ where
  unfoldable pub compute_device_position : ℤ → Live F B → F
  compute_device_position cur_time l =
      let s = l.spice in
      let last = time_of l.playback.clocks.dev_last_time in
      let next = time_of l.playback.clocks.dev_next_time in
      d.of_int s.dev_last_position
      ⊕ d.of_int (s.dev_next_position -ℤ s.dev_last_position)
        ⊗ (d.of_int (cur_time -ℤ last) ⊘ d.of_int (next -ℤ last))

  -- `targetLatencyFrames`, by `buffer_latency` of the options.
  unfoldable pub target_latency : ℤ → Live F B → F
  target_latency buffer_latency l =
      let device_max = l.playback.device_max_period_frames in
      let period = l.playback.clocks.dev_period_frames in
      let target =
        of_nat (max device_max period) ⊗ d.dec 11 1
        ⊕ of_nat (pos_part buffer_latency * l.playback.sample_rate) ⊘ d.dec 1000 0 in
      if not (period == 0) && ltb period device_max
      then target ⊕ of_nat (device_max - period)
      else target

  -- The first packet, or one of another size than the one before.
  unfoldable pub new_spice_period : ℤ → ℕ → Bool → Live F B → Measured F B
  new_spice_period now frames init l =
      let time = if init then now else l.spice.next_time in
      let sec = period_of frames l in
      let omega_sec = omega_of sec in
      record {
        live = record l {
          spice = record l.spice {
            period_sec = sec;
            next_time = time +ℤ nanoseconds sec;
            b = d.sqrt2 ⊗ omega_sec;
            c = omega_sec ⊗ omega_sec;
          };
        };
        cur_time = time;
        cur_position = l.playback.clocks.spice_next_position;
        dev_position = d.dbl_min;
      }

  -- The error of the clock is small.
  unfoldable pub follow_spice : F → Live F B → Measured F B
  follow_spice error l = record {
    live = record l {
      spice = record l.spice {
        next_time = l.spice.next_time +ℤ nanoseconds (l.spice.b ⊗ error ⊕ l.spice.period_sec);
        period_sec = l.spice.period_sec ⊕ l.spice.c ⊗ error;
      };
    };
    cur_time = l.spice.next_time;
    cur_position = l.playback.clocks.spice_next_position;
    dev_position = d.dbl_min;
  }

  -- How far the write pointer is moved: to the target latency, if the position of the device is known.
  unfoldable pub slew_frames : ℤ → F → F → Live F B → ℤ
  slew_frames now error target l =
      if is_known l.playback.clocks.dev_last_time
      then (let aim = compute_device_position now l ⊕ target in
          d.round (
            (if is_keep_alive l.playback.state then aim ⊕ of_nat 20 else aim)
            ⊖ d.of_int l.playback.clocks.spice_next_position))
      else d.round (error ⊗ of_nat l.playback.sample_rate)

module _ {ℓ κ} {F : Type ℓ} {B : Type κ} ⦃d : Double F⦄ ⦃rb : RingBuffer B⦄ where
  -- The error is too high, or the playback starts again.
  unfoldable pub slew_spice : ℤ → ℕ → F → F → Live F B → Measured F B
  slew_spice now frames error target l =
      let slew = slew_frames now error target l in
      let sec = period_of frames l in
      record {
        live =
            with_state
              (record (move_spice slew l) {
                buffer = rb.append slew l.buffer;
                spice = record l.spice {
                  period_sec = sec;
                  next_time = now +ℤ nanoseconds sec;
                  offset_error = d.dec 0 0;
                  offset_error_integral = d.dec 0 0;
                  ratio_integral = d.dec 0 0;
                };
              })
              run;
        cur_time = now;
        cur_position = l.playback.clocks.spice_next_position +ℤ slew;
        dev_position =
            if is_known l.playback.clocks.dev_last_time
            then compute_device_position now l
            else d.dbl_min;
      }

  -- The measurement of the packets' clock.
  unfoldable pub measure_spice : ℤ → ℕ → Bool → Bool → F → Live F B → Measured F B
  measure_spice now frames period_changed init target l =
      let error = error_of now l.spice.next_time in
      if period_changed
      then new_spice_period now frames init l
      else if is_far error || is_keep_alive l.playback.state
      then slew_spice now frames error target l
      else follow_spice error l

module _ {ℓ κ} {F : Type ℓ} {B : Type κ} ⦃d : Double F⦄ where
  -- `actualOffset`, and the state with the filtered errors of the offset and of the ratio.
  unfoldable pub measure_offset : F → Measured F B → F × Live F B
  measure_offset target m =
      let l = m.live in
      let s = l.spice in
      let dev =
        if d.eq m.dev_position d.dbl_min
        then compute_device_position m.cur_time l
        else m.dev_position in
      let actual = d.of_int m.cur_position ⊖ dev in
      let error = d.neg (actual ⊖ target) ⊖ s.offset_error in
      if is_known l.playback.clocks.dev_last_time
      then (
        actual,
        record l {
          spice = record s {
            offset_error = s.offset_error ⊕ (s.b ⊗ error ⊕ s.offset_error_integral);
            offset_error_integral = s.offset_error_integral ⊕ s.c ⊗ error;
          };
        },
      )
      else (d.dec 0 0, l)

  -- The ratio of the resampler, by the error of the offset before this packet.
  unfoldable pub resample_ratio : F → Live F B → F × Live F B
  resample_ratio offset_error l =
      let integral = l.spice.ratio_integral ⊕ offset_error ⊗ l.spice.period_sec in
      (
        d.dec 1 0 ⊕ (d.dec 5 7 ⊗ offset_error ⊕ d.dec 1 16 ⊗ integral),
        record l { spice = record l.spice { ratio_integral = integral } },
      )
