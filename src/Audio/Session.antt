-- ===== src/Audio/Session.antt =====
-- A playback of src/audio.c as a whole: the calls of PureSpice and of the device, in any order.
use spicy_kvm.Prelude.{
  ℕ, ◌*◌, ◌/◌, ◌≡◌, Bool, Option, none, some, List, [], ◌∷◌, if◌then◌else◌, ℤ, ◌+ℤ◌, arith, inl,
  inr, Bool-cases, Option-cases,
}
use spicy_kvm.Audiodev.Player.{Pw, audiodev_on_playback_drained}
use spicy_kvm.Audio.Outside.{Double, RingBuffer, IsUnbounded, Progresses}
use spicy_kvm.Audio.Playback.{
  keep_alive, Playback, clocks_start, set_up_playback, audio_playback_start, audio_playback_stop,
  audio_playback_volume, audio_playback_mute,
}
use spicy_kvm.Audio.Live.{Live, is_setup_spice, live_start, live_stop, live_volume, live_mute}
use spicy_kvm.Audio.Pull.{audio_pull}
use spicy_kvm.Audio.Balance.{is_stopped-playback_stop}
use spicy_kvm.Audio.Packet.{Surroundings, audio_playback_data}
use spicy_kvm.Audio.Positions.{Tracks, clocks-playback_stop, Tracks-audio_pull}
use spicy_kvm.Audio.Stored.{Returns, Tracks-audio_playback_data}

-- What happens to a playback. `drained` is the event of PipeWire at the end of a drain.
pub data Use {ℓ} (F : Type ℓ) : Type ℓ where
  start : Pw → Bool → ℕ → ℕ → ℕ → Use F
  stop : Bool → Use F
  volume : List ℕ → Use F
  mute : Bool → Use F
  pull : ℤ → ℕ → Use F
  packet : Surroundings F → ℕ → Use F
  drained : Use F

module _ {ℓ} {F : Type ℓ} where
  abbrev pub MakesProgress : Use F → Type ℓ
  MakesProgress (packet e size) = Progresses e.process
  MakesProgress _ = Unit

  -- The resampler of each packet makes progress.
  abbrev pub AllProgress : List (Use F) → Type ℓ
  AllProgress [] = Unit
  AllProgress (u ∷ us) = MakesProgress u × AllProgress us

pub start_clocks :
    (w : Pw) (src_ok : Bool) (requested channels sample_rate : ℕ) (p : Playback)
    → let p' = audio_playback_start w src_ok requested channels sample_rate p in
      p'.clocks ≡ (if is_setup_spice p'.state then clocks_start else p.clocks)
unfolding audio_playback_start set_up_playback
start_clocks w src_ok requested channels sample_rate p =
    ground (arith, clocks-playback_stop p, is_stopped-playback_stop p)

pub stop_clocks :
    (reset_ok : Bool) (p : Playback) → (audio_playback_stop reset_ok p).clocks ≡ p.clocks
unfolding audio_playback_stop
stop_clocks reset_ok p =
    ground (arith, clocks-playback_stop p, clocks-playback_stop (record p { state = keep_alive }))

module _ {ℓ κ} {F : Type ℓ} {B : Type κ} ⦃d : Double F⦄ ⦃rb : RingBuffer B⦄ where
  -- The fuel of a packet is the number of its frames.
  abbrev pub use_live : Use F → Live F B → Option (Live F B)
  use_live (start w src_ok requested channels sample_rate) l =
      some (live_start w src_ok requested channels sample_rate l)
  use_live (stop reset_ok) l = some (live_stop reset_ok l)
  use_live (volume vs) l = some (live_volume vs l)
  use_live (mute m) l = some (live_mute m l)
  use_live (pull now frames) l = some (audio_pull now frames l).0
  use_live (packet e size) l = audio_playback_data (size / (l.playback.channels * 2)) e size l
  use_live drained l = some (record l {
    playback = record l.playback { player = audiodev_on_playback_drained l.playback.player };
  })

  abbrev pub use_all : List (Use F) → Live F B → Option (Live F B)
  use_all [] l = some l
  use_all (u ∷ us) l = elim (use_live u l) [ none ↦ none | some l' ↦ use_all us l' ]

  module _ (u : IsUnbounded B) where
    start_Tracks :
        (w : Pw) (src_ok : Bool) (requested channels sample_rate : ℕ) (l : Live F B)
        → Tracks l
        → Tracks (live_start w src_ok requested channels sample_rate l)
    unfolding live_start ◌+ℤ◌
    start_Tracks w src_ok requested channels sample_rate l t =
        let p = audio_playback_start w src_ok requested channels sample_rate l.playback in
        let clocks = start_clocks w src_ok requested channels sample_rate l.playback in
        elim (Bool-cases (is_setup_spice p.state)) [
          | inl e ↦ ground (arith, clocks, u.count-new_unbounded)
          | inr e ↦ ground (arith, clocks)
        ]

    pub Tracks-use_live :
        (x : Use F) (l : Live F B) → MakesProgress x → Tracks l → Returns Tracks (use_live x l)
    unfolding live_stop live_volume live_mute audio_playback_volume audio_playback_mute
    Tracks-use_live (start w src_ok requested channels sample_rate) l h t =
        start_Tracks w src_ok requested channels sample_rate l t
    Tracks-use_live (stop reset_ok) l h t = ground (arith, stop_clocks reset_ok l.playback)
    Tracks-use_live (volume vs) l h t = ground arith
    Tracks-use_live (mute m) l h t = ground arith
    Tracks-use_live (pull now frames) l h t = Tracks-audio_pull u now frames l t
    Tracks-use_live (packet e size) l h t =
        Tracks-audio_playback_data u (size / (l.playback.channels * 2)) e size l h (omega arith) t
    Tracks-use_live drained l h t = t

    -- Over any calls and events, in any order, each packet is stored in finitely many steps, as many as
    -- it has frames at most; and the count of the ring buffer stays what the position of the packets
    -- is ahead of the position of the device. The resampler is one that makes progress.
    pub use_all-Tracks :
        (us : List (Use F)) (l : Live F B)
        → AllProgress us
        → Tracks l
        → Returns Tracks (use_all us l)
    use_all-Tracks [] l h t = t
    use_all-Tracks (x ∷ us) l h t = elim (Option-cases (use_live x l)) [
      | inl e ↦ absurd (rw e at (Tracks-use_live x l h.0 t))
      | inr (l', e) ↦
          let r : Returns Tracks (some l') = rw e at (Tracks-use_live x l h.0 t) in
          rw (use_all, e) (use_all-Tracks us l' h.1 r)
    ]
