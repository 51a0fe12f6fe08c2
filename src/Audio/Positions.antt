-- ===== src/Audio/Positions.antt =====
-- The positions of src/audio.c and the ring buffer.
use spicy_kvm.Prelude.{
  ℕ, ◌≡◌, sym, ap, ◌∙◌, ℤ, pos, ◌+ℤ◌, ◌-ℤ◌, int_laws, pos_part, neg_part, arith,
}
use spicy_kvm.Audio.Outside.{Double, RingBuffer, IsUnbounded}
use spicy_kvm.Audio.Playback.{Playback, playback_stop}
use spicy_kvm.Audio.Live.{Live}
use spicy_kvm.Audio.Pull.{
  begin_run, change_period, follow_device, slew_device, measure_device, play, close_if_silent,
  audio_pull, error_of,
}
use spicy_kvm.Audio.Packet.{append_frames}

undo : (a d o : ℤ) → a -ℤ o +ℤ (d +ℤ o) ≡ a +ℤ d
undo a d o = omega int_laws

later : (a d o : ℤ) → a +ℤ (d +ℤ o) ≡ a +ℤ d +ℤ o
later a d o = omega int_laws

undo_later : (a d o n : ℤ) → a -ℤ o +ℤ (d +ℤ (o +ℤ n)) ≡ a +ℤ d +ℤ n
undo_later a d o n = omega int_laws

taken : (a d s n : ℤ) → a +ℤ d ≡ s +ℤ n → a -ℤ n +ℤ d ≡ s
taken a d s n e = omega (int_laws, ap pos_part e, ap neg_part e)

pub given : (a d n : ℤ) → a +ℤ n +ℤ d ≡ a +ℤ d +ℤ n
given a d n = omega int_laws

module _ {ℓ κ} {F : Type ℓ} {B : Type κ} ⦃rb : RingBuffer B⦄ where
  -- Where the writer is, by the count of the buffer and the position of the device.
  abbrev pub lead : Live F B → ℤ
  lead l = rb.count l.buffer +ℤ l.playback.clocks.device_next_position

  abbrev pub Tracks : Live F B → Type 0
  Tracks l = lead l ≡ l.playback.clocks.spice_next_position

pub clocks-playback_stop : (p : Playback) → (playback_stop p).clocks ≡ p.clocks
unfolding playback_stop
clocks-playback_stop p = ground arith

module _ {ℓ κ} {F : Type ℓ} {B : Type κ} ⦃rb : RingBuffer B⦄ where
  Tracks-close_if_silent : (l : Live F B) → Tracks l → Tracks (close_if_silent l)
  unfolding close_if_silent
  Tracks-close_if_silent l t = ground (arith, clocks-playback_stop l.playback)

module _ {ℓ κ} {F : Type ℓ} {B : Type κ} ⦃rb : RingBuffer B⦄ (u : IsUnbounded B) where
  lead-begin_run :
      (l : Live F B)
      → (lead (begin_run l) ≡ lead l)
        × ((begin_run l).playback.clocks.spice_next_position
            ≡ l.playback.clocks.spice_next_position)
  unfolding begin_run
  lead-begin_run l =
      let offset = rb.count l.buffer -ℤ pos l.target_start_frames in
      ground (
        arith,
        u.count-consume offset l.buffer,
        undo (rb.count l.buffer) l.playback.clocks.device_next_position offset,
      )

  lead-play :
      (frames : ℕ) (l : Live F B) (s : ℤ) → lead l ≡ s +ℤ pos frames → lead (play frames l) ≡ s
  unfolding play
  lead-play frames l s e =
      ap (λ c. c +ℤ l.playback.clocks.device_next_position) (u.count-consume (pos frames) l.buffer)
      ∙ taken (rb.count l.buffer) l.playback.clocks.device_next_position s (pos frames) e

  pub Tracks-append_frames : (made : ℕ) (l : Live F B) → Tracks l → Tracks (append_frames made l)
  Tracks-append_frames made l t =
      let n = pos made in
      ground (
        arith,
        u.count-append n l.buffer,
        given (rb.count l.buffer) l.playback.clocks.device_next_position n,
      )

module _ {ℓ κ} {F : Type ℓ} {B : Type κ} ⦃d : Double F⦄ ⦃rb : RingBuffer B⦄
    (u : IsUnbounded B) where
  lead-measure_device :
      (now : ℤ) (frames : ℕ) (l : Live F B)
      → let l' = measure_device now frames l in
        (lead l' ≡ lead l +ℤ pos frames)
        × (l'.playback.clocks.spice_next_position ≡ l.playback.clocks.spice_next_position)
  unfolding measure_device change_period follow_device slew_device
  lead-measure_device now frames l =
      let c = rb.count l.buffer in
      let p = l.playback.clocks.device_next_position in
      let slew =
        d.round (d.mul (error_of now l.device.next_time) (d.of_int (pos l.playback.sample_rate))) in
      ground (
        arith,
        u.count-consume slew l.buffer,
        later c p (pos frames),
        undo_later c p slew (pos frames),
      )

  Tracks-pulled :
      (now : ℤ) (frames : ℕ) (l : Live F B)
      → Tracks l
      → Tracks (play frames (measure_device now frames (begin_run l)))
  Tracks-pulled now frames l t =
      let (b, bs) = lead-begin_run u l in
      let (m, ms) = lead-measure_device now frames (begin_run l) in
      let ahead : lead (measure_device now frames (begin_run l))
          ≡ l.playback.clocks.spice_next_position +ℤ pos frames =
        m ∙ ap (λ x. x +ℤ pos frames) (b ∙ t) in
      lead-play u frames (measure_device now frames (begin_run l)) _ ahead
      ∙ sym (unfold play in ms ∙ bs)

  pub Tracks-audio_pull :
      (now : ℤ) (frames : ℕ) (l : Live F B) → Tracks l → Tracks (audio_pull now frames l).0
  unfolding audio_pull
  Tracks-audio_pull now frames l t =
      let p = play frames (measure_device now frames (begin_run l)) in
      ground (arith, Tracks-close_if_silent p (Tracks-pulled now frames l t))
