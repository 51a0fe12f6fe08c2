-- ===== src/Audio/Known.antt =====
-- What the packets of src/audio.c know of the device's position, over a whole playback.
use spicy_kvm.Prelude.{
  ◌*◌, ◌/◌, Option, none, some, List, [], ◌∷◌, arith, inl, inr, Bool, ℕ, Bool-cases, Option-cases,
}
use spicy_kvm.Audiodev.Player.{Pw, audiodev_on_playback_drained}
use spicy_kvm.Audio.Outside.{Double, RingBuffer, IsUnbounded}
use spicy_kvm.Audio.Playback.{audio_playback_start, audio_playback_volume, audio_playback_mute}
use spicy_kvm.Audio.Live.{Live, is_setup_spice, live_start, live_stop, live_volume, live_mute}
use spicy_kvm.Audio.Positions.{Tracks}
use spicy_kvm.Audio.Stored.{Returns}
use spicy_kvm.Audio.Session.{
  Use, packet, start_clocks, stop_clocks, use_live, use_all, AllProgress, use_all-Tracks,
}
use spicy_kvm.Audio.Session
use spicy_kvm.Audio.Informed.{DeliversNewest, known_position, Informed}
use spicy_kvm.Audio.Carried.{WhenLive, data-Informed, pull-Informed}

module _ {ℓ} {F : Type ℓ} where
  abbrev Delivers : Use F → Type 0
  Delivers (packet e size) = DeliversNewest e.delivers
  Delivers _ = Unit

  -- The ring buffer of the ticks delivers the newest one to each packet.
  abbrev pub AllDeliver : List (Use F) → Type 0
  AllDeliver [] = Unit
  AllDeliver (u ∷ us) = Delivers u × AllDeliver us

module _ {ℓ κ} {F : Type ℓ} {B : Type κ} ⦃d : Double F⦄ ⦃rb : RingBuffer B⦄ where
  start-Informed :
      (w : Pw) (src_ok : Bool) (requested channels sample_rate : ℕ) (l : Live F B)
      → Informed l
      → Informed (live_start w src_ok requested channels sample_rate l)
  unfolding live_start known_position
  start-Informed w src_ok requested channels sample_rate l v =
      let p = audio_playback_start w src_ok requested channels sample_rate l.playback in
      let clocks = start_clocks w src_ok requested channels sample_rate l.playback in
      elim (Bool-cases (is_setup_spice p.state)) [
        | inl e ↦ ground (arith, clocks)
        | inr e ↦ ground (arith, clocks)
      ]

  use_live-Informed :
      (x : Use F) (l : Live F B) → Delivers x → Informed l → WhenLive Informed (use_live x l)
  unfolding live_stop live_volume live_mute audio_playback_volume audio_playback_mute
      audiodev_on_playback_drained
  use_live-Informed (Session.start w src_ok requested channels sample_rate) l h v =
      start-Informed w src_ok requested channels sample_rate l v
  use_live-Informed (Session.stop reset_ok) l h v = ground (arith, stop_clocks reset_ok l.playback)
  use_live-Informed (Session.volume vs) l h v = ground arith
  use_live-Informed (Session.mute m) l h v = ground arith
  use_live-Informed (Session.pull now frames) l h v = pull-Informed now frames l v
  use_live-Informed (packet e size) l h v =
      data-Informed (size / (l.playback.channels * 2)) e size l h v
  use_live-Informed Session.drained l h v = v

  WhenLive-use_all :
      (us : List (Use F)) (l : Live F B)
      → AllDeliver us
      → Informed l
      → WhenLive Informed (use_all us l)
  WhenLive-use_all [] l h v = v
  WhenLive-use_all (x ∷ us) l h v = elim (Option-cases (use_live x l)) [
    | inl e ↦ rw (use_all, e) tt
    | inr (l', e) ↦
        let w : WhenLive Informed (some l') = rw e at (use_live-Informed x l h.0 v) in
        rw (use_all, e) (WhenLive-use_all us l' h.1 w)
  ]

  Returns-Informed :
      (x : Option (Live F B)) → Returns Tracks x → WhenLive Informed x → Returns Informed x
  Returns-Informed none t v = t
  Returns-Informed (some l) t v = v

  -- Over any calls and events of the two threads, in any order, which all return: the position of the
  -- device that the packets know, or that the newest tick on its way has, is the one of the device,
  -- wherever they know one. The resampler makes progress and the ring buffer of the ticks delivers the
  -- newest.
  pub use_all-Informed :
      (u : IsUnbounded B) (us : List (Use F)) (l : Live F B)
      → AllProgress us
      → AllDeliver us
      → Tracks l
      → Informed l
      → Returns Informed (use_all us l)
  use_all-Informed u us l h w t v =
      Returns-Informed (use_all us l) (use_all-Tracks u us l h t) (WhenLive-use_all us l w v)
