-- ===== src/Audio/Informed.antt =====
-- The two threads of src/audio.c: what the packets know of the device's position.
use spicy_kvm.Prelude.{
  ◌≡◌, refl, sym, ap, ◌∙◌, Option, none, some, List, [], ◌∷◌, ◌++◌, ℤ, arith, ◌⊎◌, inl, inr,
}
use spicy_kvm.Audio.Live.{Live, DeviceTick}
use spicy_kvm.Audio.Clock.{receive_tick, receive_ticks, take_ticks}

-- A bounded ring buffer forgets the oldest ticks: the last one that it delivers is the newest.
pub record DeliversNewest (delivers : List DeviceTick → List DeviceTick) : Type 0 where
  pub no_tick : delivers [] ≡ []
  pub newest :
      (t : DeviceTick) (ts : List DeviceTick)
      → (us : List DeviceTick) × (delivers (t ∷ ts) ≡ us ++ t ∷ [])

-- The position of the device that the packets know, if any, or that the newest tick has for them.
unfoldable pub known_position : List DeviceTick → Option ℤ → ℤ → ℤ → ℤ
known_position [] none known position = position
known_position [] (some t) known position = known
known_position (t ∷ ts) time known position = t.next_position

ticks_cases :
    (ts : List DeviceTick) → (ts ≡ []) ⊎ ((t : DeviceTick) × (us : List DeviceTick) × (ts ≡ t ∷ us))
ticks_cases [] = inl refl
ticks_cases (t ∷ us) = inr (t, us, refl)

module _ {ℓ κ} {F : Type ℓ} {B : Type κ} where
  abbrev pub Informed : Live F B → Type 0
  Informed l =
      let c = l.playback.clocks in
      known_position l.ticks c.dev_next_time l.spice.dev_next_position c.device_next_position
      ≡ c.device_next_position

  -- What changes none of that.
  pub record SameKnown (l l' : Live F B) : Type 0 where
    pub ticks : l'.ticks ≡ l.ticks
    pub time : l'.playback.clocks.dev_next_time ≡ l.playback.clocks.dev_next_time
    pub known : l'.spice.dev_next_position ≡ l.spice.dev_next_position
    pub position : l'.playback.clocks.device_next_position ≡ l.playback.clocks.device_next_position

  pub SameKnown-trans : {k l m : Live F B} → SameKnown k l → SameKnown l m → SameKnown k m
  SameKnown-trans s t = ground arith

  pub SameKnown-Informed : (l l' : Live F B) → SameKnown l l' → Informed l → Informed l'
  SameKnown-Informed l l' s v = rw (s.ticks, s.time, s.known, s.position) v

  receive_ticks-append :
      (us : List DeviceTick) (t : DeviceTick) (l : Live F B)
      → receive_ticks (us ++ t ∷ []) l ≡ receive_tick t (receive_ticks us l)
  unfolding receive_ticks
  receive_ticks-append [] t l = refl
  receive_ticks-append (u ∷ us) t l = receive_ticks-append us t (receive_tick u l)

  receive_ticks-position :
      (us : List DeviceTick) (l : Live F B)
      → (receive_ticks us l).playback.clocks.device_next_position
        ≡ l.playback.clocks.device_next_position
  unfolding receive_ticks receive_tick
  receive_ticks-position [] l = refl
  receive_ticks-position (u ∷ us) l = receive_ticks-position us (receive_tick u l)

  take_newest :
      (delivers : List DeviceTick → List DeviceTick) (t : DeviceTick) (us ts : List DeviceTick)
      (l : Live F B)
      → delivers l.ticks ≡ us ++ t ∷ []
      → t.next_position ≡ l.playback.clocks.device_next_position
      → Informed (take_ticks delivers l)
  unfolding known_position
  take_newest delivers t us ts l e p =
      rw (e, receive_ticks-append us t l)
        (unfold receive_tick in p ∙ sym (receive_ticks-position us l))

  pub take_ticks-Informed :
      (delivers : List DeviceTick → List DeviceTick) (l : Live F B)
      → DeliversNewest delivers
      → Informed l
      → Informed (take_ticks delivers l)
  unfolding known_position
  take_ticks-Informed delivers l w v = elim (ticks_cases l.ticks) [
    | inl e ↦ let v' = rw e at v in rw (e, w.no_tick) (unfold receive_ticks in v')
    | inr (t, ts, e) ↦
        let (us, n) = w.newest t ts in
        let v' = rw e at v in take_newest delivers t us ts l (ap delivers e ∙ n) v'
  ]
