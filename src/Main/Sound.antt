-- ===== src/Main/Sound.antt =====
-- The sound while `main` of src/main.c runs: the functions of src/audio.c that `config` gives to
-- PureSpice, with what PipeWire does.
use spicy_kvm.Prelude.{ℕ, Bool, Option, none, some, List, [], ◌∷◌, pos, Option-cases, inl, inr}
use spicy_kvm.Audio.Outside.{Double, RingBuffer}
use spicy_kvm.Audio.Recording.{
  Recording, audio_record_start, audio_record_stop, audio_record_volume, audio_record_mute,
}
use spicy_kvm.Audio.Live.{Live}
use spicy_kvm.Audio.Silence.{Whenever}
use spicy_kvm.Audio.Session.{Use, use_live}
use spicy_kvm.Audio.Shutdown.{audio_start}
use spicy_kvm.Audio.Quiet.{IsQuiet}
use spicy_kvm.Audio.Rest.{use_live-IsQuiet}
use spicy_kvm.Main.Loop.{Sound}
use spicy_kvm.Main.Freed.{Heard}

-- A call for the playback, or for the recording, whose stream PipeWire creates or not.
pub data Heed {ℓ} (F : Type ℓ) : Type ℓ where
  plays : Use F → Heed F
  record_starts : Bool → ℕ → ℕ → Heed F
  record_stops : Heed F
  record_volume : List ℕ → Heed F
  record_mute : Bool → Heed F

module _ {ℓ κ} {F : Type ℓ} {B : Type κ} ⦃d : Double F⦄ ⦃rb : RingBuffer B⦄ where
  -- `audio` at the start of the program; its ring buffer is not used before a start makes one.
  abbrev pub live_zero : Live F B
  live_zero = record {
    playback = audio_start.playback;
    buffer = rb.new_unbounded;
    target_start_frames = 0;
    device = record { period_sec = d.dec 0 0; next_time = pos 0; b = d.dec 0 0; c = d.dec 0 0 };
    spice = record {
      frames_out_size = pos 0;
      period_sec = d.dec 0 0;
      next_time = pos 0;
      b = d.dec 0 0;
      c = d.dec 0 0;
      dev_last_position = pos 0;
      dev_next_position = pos 0;
      offset_error = d.dec 0 0;
      offset_error_integral = d.dec 0 0;
      ratio_integral = d.dec 0 0;
    };
    ticks = [];
    timings = [];
    reports = [];
  }

  abbrev pub heed : Heed F → Live F B × Recording → Option (Live F B × Recording)
  heed (plays u) (l, r) = elim (use_live u l) [ none ↦ none | some l' ↦ some (l', r) ]
  heed (record_starts creates channels sample_rate) (l, r) =
      some (l, audio_record_start creates l.playback channels sample_rate r)
  heed record_stops (l, r) = some (l, audio_record_stop r)
  heed (record_volume vs) (l, r) = some (l, audio_record_volume vs r)
  heed (record_mute m) (l, r) = some (l, audio_record_mute m r)

  -- A call that does not return is the last one.
  abbrev pub heed_all :
      List (Heed F) → Option (Live F B × Recording) → Option (Live F B × Recording)
  heed_all hs none = none
  heed_all [] (some a) = some a
  heed_all (h ∷ hs) (some a) = heed_all hs (heed h a)

  abbrev pub sound_of : Option (Live F B × Recording) → Sound
  sound_of none = none
  sound_of (some (l, r)) = some (l.playback, r)

  -- A resource is there exactly while it is in use.
  abbrev pub Quiet : Option (Live F B × Recording) → Type 0
  Quiet none = Unit
  Quiet (some (l, r)) = IsQuiet l.playback

  Quiet-heed :
      (h : Heed F) (l : Live F B) (r : Recording) → IsQuiet l.playback → Quiet (heed h (l, r))
  Quiet-heed (plays u) l r v = elim (Option-cases (use_live u l)) [
    | inl e ↦ rw (e, heed) tt
    | inr (l', e) ↦
        let w : Whenever IsQuiet (some l') = rw e at (use_live-IsQuiet u l v) in rw (e, heed) w
  ]
  Quiet-heed (record_starts creates channels sample_rate) l r v = v
  Quiet-heed record_stops l r v = v
  Quiet-heed (record_volume vs) l r v = v
  Quiet-heed (record_mute m) l r v = v

  pub Quiet-heed_all :
      (hs : List (Heed F)) (x : Option (Live F B × Recording)) → Quiet x → Quiet (heed_all hs x)
  Quiet-heed_all hs none v = tt
  Quiet-heed_all [] (some a) v = v
  Quiet-heed_all (h ∷ hs) (some (l, r)) v = Quiet-heed_all hs (heed h (l, r)) (Quiet-heed h l r v)

  pub Heard-sound_of : (x : Option (Live F B × Recording)) → Quiet x → Heard IsQuiet (sound_of x)
  Heard-sound_of none v = tt
  Heard-sound_of (some a) v = v
