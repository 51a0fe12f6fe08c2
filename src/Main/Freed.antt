-- ===== src/Main/Freed.antt =====
-- The end of src/main.c and the sound: what was made for PipeWire is ended.
use spicy_kvm.Prelude.{
  ℕ, zero, suc, ◌≡◌, refl, inl, inr, Bool, true, ◌||◌, none, some, List, [], ◌∷◌, if◌then◌else◌,
  Bool-cases, arith,
}
use spicy_kvm.Ddc.Bus.{Tick}
use spicy_kvm.Audiodev.Backend.{Answers, audiodev_init, Part, made, ended}
use spicy_kvm.Audio.Playback.{Playback}
use spicy_kvm.Audio.Recording.{Recording}
use spicy_kvm.Audio.Shutdown.{Audio, audio_start, audio_init, audio_free, audio_init_free_lem}
use spicy_kvm.Main.After.{Holds, Holds-bind, Holds-if, boot-Holds, changed-Holds, main_round-Holds}
use spicy_kvm.Main.Blind.{update_display-Holds, setup_ddc-Holds}
use spicy_kvm.Main.Loop.{
  is_grabbed, Options, Turn, State, Outcome, goes_on, exits, hangs, ◌>>=◌, follow_grab, same, Boot,
  Sound, hear, init_audio, boot, main, main_start, main_round, clean_up, main_loop,
}

-- A part of `main` keeps a fact about the sound, unless it returns 0, and then it frees the sound.
abbrev Frees : (Audio → Type 0) → ℕ → State → Type 0
Frees P zero m = (a : Audio) × P a × (m.audio ≡ audio_free a)
Frees P (suc n) m = Unit

abbrev pub Sounds : (Audio → Type 0) → Outcome → Type 0
Sounds P = Holds (λ m. P m.audio) (Frees P) Unit

-- A fact about what the playback becomes.
abbrev pub Heard : (Playback → Type 0) → Sound → Type 0
Heard Q none = Unit
Heard Q (some (p, r)) = Q p

abbrev pub AllHeard : (Playback → Type 0) → List Turn → Type 0
AllHeard Q [] = Unit
AllHeard Q (u ∷ us) = Heard Q u.sound × AllHeard Q us

module _ (Q : Playback → Type 0) (P : Audio → Type 0)
    (changes : (a : Audio) (p : Playback) (r : Recording)
      → Q p
      → P a
      → P (record a { playback = p; recording = r })) where
  Sounds-bind :
      (x : Outcome) (f : State → Outcome)
      → Sounds P x
      → ((m : State) → P m.audio → Sounds P (f m))
      → Sounds P (x >>= f)
  Sounds-bind = Holds-bind (λ m. P m.audio) (λ m. P m.audio) (Frees P) Unit

  Sounds-if : (b : Bool) (x y : Outcome) → Sounds P x → Sounds P y → Sounds P (if b then x else y)
  Sounds-if b x y p q = Holds-if (λ m. P m.audio) (Frees P) Unit b x y (λ _. p) λ _. q

  Sounds-hear : (s : Sound) (m : State) → Heard Q s → P m.audio → Sounds P (hear s m)
  Sounds-hear none m h e = tt
  Sounds-hear (some (p, r)) m h e = changes m.audio p r h e

  Sounds-follow_grab :
      (o : Options) (u : Turn) (m : State) → P m.audio → Sounds P (follow_grab o u m)
  Sounds-follow_grab o u m e = Sounds-if (same (is_grabbed u) m.was_grabbed) _ _ e (
      changed-Holds (λ m'. P m'.audio) (Frees P) Unit (λ m' e'. e') (λ m' e'. tt) (λ m'. P m'.audio)
        o u m (update_display-Holds (λ m'. P m'.audio) (Frees P) (λ m' d ok s p. p) o u m e)
        λ m' e'. e')

  Sounds-main_round :
      (o : Options) (u : Turn) (m : State)
      → Heard Q u.sound
      → P m.audio
      → Sounds P (main_round o u m)
  Sounds-main_round o u m h e =
      main_round-Holds (λ m'. P m'.audio) (λ m'. P m'.audio) (Frees P) Unit (λ m' e'. e')
        (λ m' e'. e') (λ m' e'. tt) (λ m' e'. tt) o u m tt (Sounds-hear u.sound m h e)
        (Sounds-follow_grab o u)

  Sounds-clean_up : (m : State) → P m.audio → Sounds P (clean_up m)
  Sounds-clean_up m e = elim (Bool-cases m.ddcci_ok) [
    | inl p ↦ rw p (m.audio, e, refl)
    | inr p ↦ rw p (m.audio, e, refl)
  ]

  Sounds-main_loop :
      (o : Options) (us : List Turn) (m : State)
      → AllHeard Q us
      → P m.audio
      → Sounds P (main_loop o us m)
  unfolding main_loop
  Sounds-main_loop o [] m h e = Sounds-if m.should_exit _ _ (Sounds-clean_up m e) e
  Sounds-main_loop o (u ∷ us) m h e = Sounds-if m.should_exit _ _ (Sounds-clean_up m e) (
      Sounds-bind (main_round o u m) (main_loop o us) (Sounds-main_round o u m h.0 e)
        λ m' e'. Sounds-main_loop o us m' h.1 e')

  -- What holds once `audio_init` is done holds of the sound that `main` frees.
  main-Sounds :
      (o : Options) (b : Boot) (us : List Turn) (m : State)
      → Sounds P (init_audio o b m)
      → Heard Q b.sound
      → AllHeard Q us
      → Sounds P (main o b us m)
  unfolding main
  main-Sounds o b us m starts h hs =
      Sounds-bind (boot o b m) (main_loop o us)
        (boot-Holds (λ m'. P m'.audio) (λ m'. P m'.audio) (Frees P) (λ _ _. tt) (λ _ _. tt) o b m
          starts (setup_ddc-Holds (λ m'. P m'.audio) (Frees P) (λ m' d ok s p. p) o b)
          λ m' e. Sounds-hear b.sound m' h e)
        λ m' e. Sounds-main_loop o us m' hs e

-- `audio_init` succeeded, what it made is there, and a fact holds of the playback.
abbrev IsSetUp : (Playback → Type 0) → Boot → Audio → Type 0
IsSetUp Q b a =
    let (a', ok) = audio_init b.pw audio_start in (ok ≡ true) × (a.turns ≡ a'.turns) × Q a.playback

playback-audio_init : (w : Answers) (a : Audio) → (audio_init w a).0.playback ≡ a.playback
unfolding audio_init audiodev_init
playback-audio_init w a = ground arith

init_audio-IsSetUp :
    (Q : Playback → Type 0) (o : Options) (b : Boot) (reads : List Tick)
    → o.playback_enable || o.record_enable ≡ true
    → Q audio_start.playback
    → Sounds (IsSetUp Q b) (init_audio o b (main_start reads))
init_audio-IsSetUp Q o b reads on q = elim (Bool-cases (audio_init b.pw audio_start).1) [
  | inl ok ↦ rw (on, ok) (refl, refl, rw (playback-audio_init b.pw audio_start) q)
  | inr fails ↦ rw (on, fails) tt
]

-- Where `main` returns 0: each part of PipeWire that was made is ended, and the sound is what
-- `audio_free` leaves of one with the fact.
abbrev pub IsFreed : (Playback → Type 0) → Outcome → Type 0
IsFreed Q (exits zero m) =
    ((x : Part) → made x m.audio.turns ≡ ended x m.audio.turns)
    × ((a : Audio) × Q a.playback × (m.audio ≡ audio_free a))
IsFreed Q _ = Unit

IsFreed-Sounds :
    (Q : Playback → Type 0) (b : Boot) (r : Outcome) → Sounds (IsSetUp Q b) r → IsFreed Q r
unfolding audio_free
IsFreed-Sounds Q b (goes_on m) e = tt
IsFreed-Sounds Q b (exits zero m) (a, (ok, turns, q), e) =
    let balance = audio_init_free_lem b.pw audio_start a.playback a.recording in
    (λ x. ground (arith, balance x, ok, turns, e), (a, q, e))
IsFreed-Sounds Q b (exits (suc n) m) e = tt
IsFreed-Sounds Q b hangs e = tt

-- Where `main` returns 0, each part of PipeWire that was made is ended, and the sound is what
-- `audio_free` leaves of one with any fact that holds of the playback at the start and of all that it
-- becomes. The sound is enabled.
pub main-IsFreed :
    (Q : Playback → Type 0) (reads : List Tick) (o : Options) (b : Boot) (us : List Turn)
    → o.playback_enable || o.record_enable ≡ true
    → Q audio_start.playback
    → Heard Q b.sound
    → AllHeard Q us
    → IsFreed Q (main o b us (main_start reads))
main-IsFreed Q reads o b us on q h hs = IsFreed-Sounds Q b (main o b us (main_start reads)) (
    main-Sounds Q (IsSetUp Q b) (λ a p r q' e. (e.0, e.1, q')) o b us (main_start reads)
      (init_audio-IsSetUp Q o b reads on q) h hs)
