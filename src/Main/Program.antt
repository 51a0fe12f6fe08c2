-- ===== src/Main/Program.antt =====
-- src/main.c with src/input.c: `main` over the threads of the devices.
use spicy_kvm.Prelude.{
  ◌≡◌, refl, ap, Bool, true, false, if◌then◌else◌, Option, some, inl, inr, Bool-cases, List, [],
  ◌∷◌, ◌++◌,
}
use spicy_kvm.Ddc.Bus.{Tick}
use spicy_kvm.Input.Keys.{Key, key_rightctrl, key_pause}
use spicy_kvm.Input.State.{input_is_grabbed}
use spicy_kvm.Input.System.{System, system_start}
use spicy_kvm.Input.Init.{Setup, input_init}
use spicy_kvm.Input.Reachable.{Reach-IsSound, input_init-IsSound}
use spicy_kvm.Input.System.{start}
use spicy_kvm.Input.Invariant.{Inv}
use spicy_kvm.Input.Races.{Fine, FineMove, fine_moves, resting}
use spicy_kvm.Input.Races.Sound.{IsCovered, IsCovered-resting, IsCovered-fine_moves, Inv-IsCovered}
use spicy_kvm.Audio.Outside.{Double, RingBuffer}
use spicy_kvm.Audio.Recording.{Recording}
use spicy_kvm.Audio.Live.{Live}
use spicy_kvm.Audio.Shutdown.{audio_start}
use spicy_kvm.Audio.Quiet.{IsQuiet}
use spicy_kvm.Main.Freed.{AllHeard}
use spicy_kvm.Main.Sound.{
  Heed, heed_all, live_zero, sound_of, Quiet, Quiet-heed_all, Heard-sound_of,
}
use spicy_kvm.Main.Loop.{Options, Turn, State, Outcome, Boot, main, main_start}
use spicy_kvm.Main.After.{After}
use spicy_kvm.Main.Shows.{Shows, main-Shows}

-- `input.grab_key` at the start of the program.
abbrev pub default_keys : Key → Bool
default_keys key_rightctrl = true
default_keys _ = false

-- The keys of `input_opts` in `main`.
abbrev pub grab_keys : Key → Bool
grab_keys key_rightctrl = true
grab_keys key_pause = true
grab_keys _ = false

-- `input_init`, with its result, where the input is enabled.
unfoldable pub input_ready : Options → Setup → List Key → System × Bool
input_ready o u codes =
    if o.inputs_enable
    then input_init (some grab_keys) u codes (system_start default_keys)
    else (system_start default_keys, true)

-- A turn of the loop, after what the threads of the input and the sound did since the one before. The threads
-- of the input go on while the turn waits for the display, until it prints the title.
pub record Interval {ℓ} (F : Type ℓ) : Type ℓ where
  pub happened : List FineMove
  pub heeded : List (Heed F)
  pub turn : Turn
  pub meanwhile : List FineMove

module _ {ℓ} {F : Type ℓ} where
  -- The input where a turn looks at it, where it prints the title, and after some turns.
  abbrev pub looked : Interval F → Fine → Fine
  looked r f = fine_moves r.happened f

  abbrev pub titled : Interval F → Fine → Fine
  titled r f = fine_moves r.meanwhile (looked r f)

  abbrev pub input_after : List (Interval F) → Fine → Fine
  input_after [] f = f
  input_after (r ∷ rs) f = input_after rs (titled r f)

  IsCovered-input_after :
      (rs : List (Interval F)) (f : Fine) → IsCovered f → IsCovered (input_after rs f)
  IsCovered-input_after [] f v = v
  IsCovered-input_after (r ∷ rs) f v =
      IsCovered-input_after rs (titled r f)
        (IsCovered-fine_moves r.meanwhile (looked r f) (IsCovered-fine_moves r.happened f v))

-- The input at the start of the loop.
abbrev pub input_start_of : Options → Setup → List Key → Fine
input_start_of o u codes = resting (input_ready o u codes).0

IsCovered-input_start_of :
    (o : Options) (u : Setup) (codes : List Key) → IsCovered (input_start_of o u codes)
unfolding input_ready
IsCovered-input_start_of o u codes =
    IsCovered-resting (input_ready o u codes).0 (elim (Bool-cases o.inputs_enable) [
      | inl e ↦ rw e (
          input_init-IsSound (some grab_keys) u codes (system_start default_keys)
            (Reach-IsSound start))
      | inr e ↦ rw e (Reach-IsSound start)
    ])

module _ {ℓ κ} {F : Type ℓ} {B : Type κ} ⦃d : Double F⦄ ⦃rb : RingBuffer B⦄ where
  abbrev heard_turn : Interval F → Fine → Option (Live F B × Recording) → Turn
  heard_turn r f x = record r.turn {
    input = (looked r f).input;
    title_input = (titled r f).input;
    sound = sound_of x;
  }

  -- The turns, each with the states that the input and the sound have come to.
  abbrev pub turns_of : List (Interval F) → Fine → Option (Live F B × Recording) → List Turn
  turns_of [] f x = []
  turns_of (r ∷ rs) f x =
      let x' = heed_all r.heeded x in heard_turn r f x' ∷ turns_of rs (titled r f) x'

  abbrev sound_after :
      List (Interval F) → Option (Live F B × Recording) → Option (Live F B × Recording)
  sound_after [] x = x
  sound_after (r ∷ rs) x = sound_after rs (heed_all r.heeded x)

  turns_of-append :
      (rs : List (Interval F)) (r : Interval F) (f : Fine) (x : Option (Live F B × Recording))
      → turns_of (rs ++ r ∷ []) f x
        ≡ turns_of rs f x
          ++ heard_turn r (input_after rs f) (heed_all r.heeded (sound_after rs x)) ∷ []
  turns_of-append [] r f x = refl
  turns_of-append (q ∷ rs) r f x =
      let x' = heed_all q.heeded x in
      ap (λ (us : List Turn). heard_turn q f x' ∷ us) (turns_of-append rs r (titled q f) x')

  pub AllHeard-turns_of :
      (rs : List (Interval F)) (f : Fine) (x : Option (Live F B × Recording))
      → Quiet x
      → AllHeard IsQuiet (turns_of rs f x)
  AllHeard-turns_of [] f x v = tt
  AllHeard-turns_of (r ∷ rs) f x v =
      let w = Quiet-heed_all r.heeded x v in
      (
        Heard-sound_of (heed_all r.heeded x) w,
        AllHeard-turns_of rs (titled r f) (heed_all r.heeded x) w,
      )

-- Over any representation of the samples.
module _ {ℓ κ} {F : Type ℓ} (B : Type κ) ⦃d : Double F⦄ ⦃rb : RingBuffer B⦄ where
  -- The sound at the start of the loop.
  abbrev pub sound_ready : List (Heed F) → Option (Live F B × Recording)
  sound_ready hs = heed_all hs (some (live_zero, audio_start.recording))

  -- `main`, where `input_ok` of the surroundings is the result of `input_init`, and the sound is what
  -- the calls made of it, of which `hs` are those before the loop.
  unfoldable pub program :
      Options → Boot → Setup → List Key → List (Heed F) → List (Interval F) → State → Outcome
  program o b u codes hs rs m =
      let x = sound_ready hs in
      main o (record b { input_ok = (input_ready o u codes).1; sound = sound_of x })
        (turns_of rs (input_start_of o u codes) x) m

  -- After any rounds of the program, of which the last one is done, whatever the devices did, their threads
  -- racing within their rounds: while `main` goes on and the display is usable, the output that was selected
  -- last is that of the other machine if the input had a grabbed keyboard when the last round looked, and the
  -- own one if not; or none was selected, and there was no grabbed keyboard. And the invariant of the grabs
  -- holds then.
  pub program-Shows :
      (reads : List Tick) (o : Options) (b : Boot) (u : Setup) (codes : List Key)
      (hs : List (Heed F)) (rs : List (Interval F)) (r : Interval F)
      → let s = (looked r (input_after rs (input_start_of o u codes))).input in
        Inv s
        × After
            (Shows o (input_is_grabbed s))
            (program o b u codes hs (rs ++ r ∷ []) (main_start reads))
  unfolding program
  program-Shows reads o b u codes hs rs r =
      let f = input_start_of o u codes in
      let x = sound_ready hs in
      let last = heard_turn r (input_after rs f) (heed_all r.heeded (sound_after rs x)) in
      let covered = IsCovered-input_after rs f (IsCovered-input_start_of o u codes) in
      (
        Inv-IsCovered (looked r (input_after rs f))
            (IsCovered-fine_moves r.happened (input_after rs f) covered),
        rw (turns_of-append rs r f x) (
            main-Shows reads o
              (record b { input_ok = (input_ready o u codes).1; sound = sound_of x })
              (turns_of rs f x) last),
      )
