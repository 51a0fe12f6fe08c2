-- ===== src/Main/Titled.antt =====
-- The titles that the loop of src/main.c prints at its call of `update_title`.
use spicy_kvm.Prelude.{
  ◌≡◌, refl, Bool, false, ◌||◌, List, [], ◌∷◌, if◌then◌else◌, Bool-cases, inl, inr, arith,
}
use spicy_kvm.Ddc.Bus.{Tick}
use spicy_kvm.Input.State.{input_is_grabbed}
use spicy_kvm.Audio.Shutdown.{audio_init}
use spicy_kvm.Main.After.{
  After, boot-Holds, changed-Holds, main_round-Holds, After-bind, After-if, After-hear, AnyEnd,
  require-Holds,
}
use spicy_kvm.Main.Blind.{update_display-Holds, setup_ddc-Holds}
use spicy_kvm.Main.Loop.{
  is_grabbed, Options, Turn, State, Outcome, ◌>>=◌, follow_grab, same, Boot, Sound, hear, boot,
  main, main_start, main_round, main_loop,
}

-- The grab state that is known and the titles, newest first, after a turn: both stay until the grab state is
-- seen to change.
abbrev pub after_turn : Turn → Bool × List Bool → Bool × List Bool
after_turn u (was, titles) =
    if same (is_grabbed u) was
    then (was, titles)
    else (is_grabbed u, input_is_grabbed u.title_input ∷ titles)

abbrev pub after_turns : List Turn → Bool × List Bool → Bool × List Bool
after_turns [] x = x
after_turns (u ∷ us) x = after_turns us (after_turn u x)

abbrev pub Titled : Bool × List Bool → State → Type 0
Titled x m = (m.was_grabbed ≡ x.0) × (m.titles ≡ x.1)

module _ (x : Bool × List Bool) where
  chain :
      (y : Outcome) (f : State → Outcome)
      → After (Titled x) y
      → ((m : State) → Titled x m → After (Titled x) (f m))
      → After (Titled x) (y >>= f)
  chain = After-bind (Titled x) (Titled x)

  choose :
      (b : Bool) (y z : Outcome)
      → After (Titled x) y
      → After (Titled x) z
      → After (Titled x) (if b then y else z)
  choose b y z p q = After-if (Titled x) b y z (λ _. p) λ _. q

  hear-Titled : (s : Sound) (m : State) → Titled x m → After (Titled x) (hear s m)
  hear-Titled s m v = After-hear (Titled x) s m λ a. v

  follow-Titled :
      (o : Options) (u : Turn) (m : State)
      → Titled x m
      → After (Titled (after_turn u x)) (follow_grab o u m)
  follow-Titled o u m v = elim (Bool-cases (same (is_grabbed u) m.was_grabbed)) [
    | inl e ↦ rw e (ground (arith, v))
    | inr e ↦ rw e (
        changed-Holds (Titled x) AnyEnd Unit (λ m' v'. v') (λ m' v'. tt) (Titled (after_turn u x)) o
          u m (update_display-Holds (Titled x) AnyEnd (λ m d ok s p. p) o u m v)
          λ m' v'. ground (arith, v, v', e))
  ]

  round-Titled :
      (o : Options) (u : Turn) (m : State)
      → Titled x m
      → After (Titled (after_turn u x)) (main_round o u m)
  round-Titled o u m v =
      let y = after_turn u x in
      main_round-Holds (Titled x) (Titled y) AnyEnd Unit (λ m' v'. v') (λ m' v'. v') (λ m' v'. tt)
        (λ m' v'. tt) o u m tt (hear-Titled u.sound m v) (follow-Titled o u)

  boot-Titled : (o : Options) (b : Boot) (m : State) → Titled x m → After (Titled x) (boot o b m)
  boot-Titled o b m v =
      boot-Holds (Titled x) (Titled x) AnyEnd (λ _ _. tt) (λ _ _. tt) o b m
        (choose (o.playback_enable || o.record_enable) _ _
          (require-Holds (Titled x) AnyEnd (λ _ _. tt) (audio_init b.pw m.audio).1
            (record m { audio = (audio_init b.pw m.audio).0 }) v)
          v)
        (setup_ddc-Holds (Titled x) AnyEnd (λ m d ok s p. p) o b) (hear-Titled b.sound)

loop-Titled :
    (o : Options) (us : List Turn) (x : Bool × List Bool) (m : State)
    → Titled x m
    → After (Titled (after_turns us x)) (main_loop o us m)
unfolding main_loop
loop-Titled o [] x m v = After-if (Titled x) m.should_exit _ _ (λ _. tt) λ _. v
loop-Titled o (u ∷ us) x m v =
    let y = after_turn u x in
    After-if (Titled (after_turns us y)) m.should_exit _ _ (λ _. tt)
      λ _.
        After-bind (Titled y) (Titled (after_turns us y)) (main_round o u m) (main_loop o us)
          (round-Titled x o u m v) (loop-Titled o us y)

-- As long as `main` goes on: the titles that the call of `update_title` in its loop prints are one for each turn in
-- which the grab state was another than in the turn before, or than none at the start, by the grab state where
-- the title was printed; and in all other turns that call prints none. What `on_audio_latency` prints is
-- not among them.
pub main-Titled :
    (reads : List Tick) (o : Options) (b : Boot) (us : List Turn)
    → After (Titled (after_turns us (false, []))) (main o b us (main_start reads))
unfolding main
main-Titled reads o b us =
    After-bind (Titled (false, [])) (Titled (after_turns us (false, [])))
      (boot o b (main_start reads)) (main_loop o us)
      (boot-Titled (false, []) o b (main_start reads) (refl, refl)) (loop-Titled o us (false, []))
