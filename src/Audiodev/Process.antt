-- ===== src/Audiodev/Process.antt =====
-- src/audiodev.c, the callbacks of the streams for a buffer.
use spicy_kvm.Prelude.{ℕ, ◌+◌, ◌-◌, ◌*◌, ◌/◌, ◌≤◌, ◌≡◌, ◌==◌, ltb, if◌then◌else◌, ℤ, arith}
use spicy_kvm.Audio.Outside.{Double, RingBuffer}
use spicy_kvm.Audio.Live.{Live}
use spicy_kvm.Audio.Pull.{begin_run, measure_device, play, close_if_silent, audio_pull}
use spicy_kvm.Audiodev.Player.{Player, process_frames, audiodev_playback_stop}
use spicy_kvm.Audio.Playback.{Playback, playback_stop}
use spicy_kvm.Audio.Silence.{pulled-Same}
use spicy_kvm.Audio.Recording.{Recording, audio_push}
use spicy_kvm.Audiodev.Recorder.{pushed_frames}

-- What `pw_stream_dequeue_buffer` gives of a buffer: its size, if it has data.
pub data Dequeued : Type 0 where
  no_buffer no_data : Dequeued
  buffer : ℕ → Dequeued

-- What the callback does: nothing; it keeps the buffer; or it queues it with the size of its chunk.
pub data Processed : Type 0 where
  skipped lost : Processed
  queued : ℕ → Processed

-- The chunk of a buffer with what `audio_pull` returned.
abbrev chunk_of : Player → ℕ → Processed
chunk_of p frames = if frames == 0 then queued 0 else queued (frames * p.stride)

module _ {ℓ κ} {F : Type ℓ} {B : Type κ} ⦃d : Double F⦄ ⦃rb : RingBuffer B⦄ where
  unfoldable pub audiodev_on_playback_process : ℤ → Dequeued → Live F B → Live F B × Processed
  audiodev_on_playback_process now no_buffer l = (l, skipped)
  audiodev_on_playback_process now no_data l = (l, lost)
  audiodev_on_playback_process now (buffer maxsize) l =
      let (l', frames) = audio_pull now (process_frames maxsize l.playback.player) l in
      (l', chunk_of l'.playback.player frames)

-- A chunk fits in a buffer of some size.
abbrev pub Fits : ℕ → Processed → Type 0
Fits maxsize skipped = Unit
Fits maxsize lost = Unit
Fits maxsize (queued size) = size ≤ maxsize

div-mul-le : (n k : ℕ) → n / k * k ≤ n
div-mul-le n k = grind arith

le-mul : (a b k : ℕ) → a ≤ b → a * k ≤ b * k
le-mul a b k h = grind arith

process_frames_fit : (maxsize : ℕ) (p : Player) → process_frames maxsize p * p.stride ≤ maxsize
unfolding process_frames
process_frames_fit maxsize p =
    let least : process_frames maxsize p ≤ maxsize / p.stride = ground arith in
    omega (
      arith,
      le-mul (process_frames maxsize p) (maxsize / p.stride) p.stride least,
      div-mul-le maxsize p.stride,
    )

stride-playback_stop : (p : Playback) → (playback_stop p).player.stride ≡ p.player.stride
unfolding playback_stop audiodev_playback_stop
stride-playback_stop p = ground arith

module _ {ℓ κ} {F : Type ℓ} {B : Type κ} ⦃d : Double F⦄ ⦃rb : RingBuffer B⦄ where
  pulled_frames :
      (now : ℤ) (frames : ℕ) (l : Live F B)
      → let (l', given) = audio_pull now frames l in
        (given ≤ frames) × (l'.playback.player.stride ≡ l.playback.player.stride)
  unfolding audio_pull close_if_silent
  pulled_frames now frames l =
      let p = play frames (measure_device now frames (begin_run l)) in
      let same = pulled-Same now frames l in ground (arith, same, stride-playback_stop p.playback)

  -- What the callback of the playback stream queues is no longer than the buffer.
  pub process-Fits :
      (now : ℤ) (maxsize : ℕ) (l : Live F B)
      → Fits maxsize (audiodev_on_playback_process now (buffer maxsize) l).1
  unfolding audiodev_on_playback_process
  process-Fits now maxsize l =
      let asked = process_frames maxsize l.playback.player in
      let (given, stride) = pulled_frames now asked l in
      let (l', frames) = audio_pull now asked l in
      ground (
        arith,
        stride,
        process_frames_fit maxsize l.playback.player,
        le-mul frames asked l.playback.player.stride given,
      )

-- What is passed on of a recorded buffer lies in the buffer, if the offset of the chunk does and both
-- files have the same stride.
audio_push_fits :
    (size offset maxsize : ℕ) (s : Recording)
    → offset ≤ maxsize
    → s.stride ≡ s.recorder.stride
    → offset + audio_push (pushed_frames size offset maxsize s.recorder) s ≤ maxsize
unfolding pushed_frames audio_push
audio_push_fits size offset maxsize s h e =
    let given = if ltb size (maxsize - offset) then size else maxsize - offset in
    ground (arith, div-mul-le given s.stride)
