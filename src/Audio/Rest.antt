-- ===== src/Audio/Rest.antt =====
-- The device of src/audio.c while nothing is played, over a whole playback.
use spicy_kvm.Prelude.{◌*◌, ◌/◌, Option, none, some, List, [], ◌∷◌, arith, inl, inr, Option-cases}
use spicy_kvm.Audiodev.Player.{audiodev_on_playback_drained}
use spicy_kvm.Audio.Outside.{Double, RingBuffer, IsUnbounded}
use spicy_kvm.Audio.Balance
use spicy_kvm.Audio.Live.{Live, live_start, live_stop, live_volume, live_mute}
use spicy_kvm.Audio.Positions.{Tracks}
use spicy_kvm.Audio.Stored.{Returns}
use spicy_kvm.Audio.Session.{use_live, use_all, AllProgress, use_all-Tracks}
use spicy_kvm.Audio.Session
use spicy_kvm.Audio.Quiet.{IsQuiet, start-IsQuiet, control-IsQuiet}
use spicy_kvm.Audio.Silence.{Whenever, audio_pull-IsQuiet, data-IsQuiet}

module _ {ℓ κ} {F : Type ℓ} {B : Type κ} ⦃d : Double F⦄ ⦃rb : RingBuffer B⦄ where
  pub use_live-IsQuiet :
      (x : Session.Use F) (l : Live F B) → IsQuiet l.playback → Whenever IsQuiet (use_live x l)
  unfolding live_start live_stop live_volume live_mute audiodev_on_playback_drained
  use_live-IsQuiet (Session.start w src_ok requested channels sample_rate) l v =
      ground (arith, start-IsQuiet w src_ok requested channels sample_rate l.playback v)
  use_live-IsQuiet (Session.stop reset_ok) l v =
      control-IsQuiet (Balance.stop reset_ok) l.playback v
  use_live-IsQuiet (Session.volume vs) l v = control-IsQuiet (Balance.volume vs) l.playback v
  use_live-IsQuiet (Session.mute m) l v = control-IsQuiet (Balance.mute m) l.playback v
  use_live-IsQuiet (Session.pull now frames) l v = audio_pull-IsQuiet now frames l v
  use_live-IsQuiet (Session.packet e size) l v =
      data-IsQuiet (size / (l.playback.channels * 2)) e size l v
  use_live-IsQuiet Session.drained l v = ground arith

  Whenever-use_all :
      (us : List (Session.Use F)) (l : Live F B)
      → IsQuiet l.playback
      → Whenever IsQuiet (use_all us l)
  Whenever-use_all [] l v = v
  Whenever-use_all (x ∷ us) l v = elim (Option-cases (use_live x l)) [
    | inl e ↦ rw (use_all, e) tt
    | inr (l', e) ↦
        let w : Whenever IsQuiet (some l') = rw e at (use_live-IsQuiet x l v) in
        rw (use_all, e) (Whenever-use_all us l' w)
  ]

  Returns-IsQuiet :
      (x : Option (Live F B))
      → Returns Tracks x
      → Whenever IsQuiet x
      → Returns (λ l. IsQuiet l.playback) x
  Returns-IsQuiet none t v = t
  Returns-IsQuiet (some l) t v = v

  -- Over any calls and events, in any order, which all return: a resource is there once while it is in
  -- use and not otherwise; and while the playback is stopped, or waits for its first packet, the state of
  -- the device is not ACTIVE. The resampler is one that makes progress.
  pub use_all-IsQuiet :
      (u : IsUnbounded B) (us : List (Session.Use F)) (l : Live F B)
      → AllProgress us
      → Tracks l
      → IsQuiet l.playback
      → Returns (λ l'. IsQuiet l'.playback) (use_all us l)
  use_all-IsQuiet u us l h t v =
      Returns-IsQuiet (use_all us l) (use_all-Tracks u us l h t) (Whenever-use_all us l v)
