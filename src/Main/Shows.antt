-- ===== src/Main/Shows.antt =====
-- src/main.c and src/input.c together: the display shows whose input it is.
use spicy_kvm.Prelude.{
  inl, inr, Bool-cases, ◌≡◌, refl, ◌⊎◌, Bool, true, false, none, some, List, [], ◌∷◌, ◌++◌, arith,
}
use spicy_kvm.Ddc.Bus.{Tick}
use spicy_kvm.Input.State.{input_is_grabbed}
use spicy_kvm.Main.Loop.{
  is_grabbed, Options, Turn, State, Outcome, goes_on, exits, hangs, hear, update_display,
  follow_grab, same, Boot, boot, main, main_start, main_round, main_loop,
}
use spicy_kvm.Main.After.{
  After, AnyEnd, anything, changed-Holds, main_round-Holds, After-bind, After-if,
}
use spicy_kvm.Ddc.Written.{last_write}
use spicy_kvm.Main.Display.{shown, Follows, main-Follows}

After-both : (P Q : State → Type 0) (x : Outcome) → After P x → After Q x → After (λ m. P m × Q m) x
After-both P Q (goes_on m) p q = (p, q)
After-both P Q (exits n m) p q = tt
After-both P Q hangs p q = tt

After-map : (P Q : State → Type 0) (x : Outcome) → ((m : State) → P m → Q m) → After P x → After Q x
After-map P Q (goes_on m) f p = f m p
After-map P Q (exits n m) f p = tt
After-map P Q hangs f p = tt

-- The grab state that `main` knows.
abbrev Knows : Bool → State → Type 0
Knows g m = m.was_grabbed ≡ g

eq_of_same : (a b : Bool) → same a b ≡ true → b ≡ a
eq_of_same true b h = h
eq_of_same false true h = cc
eq_of_same false false h = refl

Knows-follow_grab :
    (o : Options) (u : Turn) (m : State) → After (Knows (is_grabbed u)) (follow_grab o u m)
Knows-follow_grab o u m =
    After-if (Knows (is_grabbed u)) (same (is_grabbed u) m.was_grabbed) _ _
      (λ e. eq_of_same (is_grabbed u) m.was_grabbed e)
      λ _.
        changed-Holds (λ m'. Unit {0}) AnyEnd Unit (λ m' _. tt) (λ m' _. tt) (Knows (is_grabbed u))
          o u m (anything (update_display o u m)) λ m' _. refl

Knows-main_round :
    (o : Options) (u : Turn) (m : State) → After (Knows (is_grabbed u)) (main_round o u m)
Knows-main_round o u m =
    main_round-Holds (λ m'. Unit {0}) (Knows (is_grabbed u)) AnyEnd Unit (λ m' _. tt) (λ m' k. k)
      (λ m' _. tt) (λ m' k. tt) o u m tt (anything (hear u.sound m))
      λ m' _. Knows-follow_grab o u m'

Knows-main_loop :
    (o : Options) (us : List Turn) (u : Turn) (m : State)
    → After (Knows (is_grabbed u)) (main_loop o (us ++ u ∷ []) m)
unfolding main_loop
Knows-main_loop o [] u m =
    After-if (Knows (is_grabbed u)) m.should_exit _ _ (λ _. tt)
      λ _.
        After-bind (Knows (is_grabbed u)) (Knows (is_grabbed u)) (main_round o u m) (main_loop o [])
          (Knows-main_round o u m)
          λ m' k. After-if (Knows (is_grabbed u)) m'.should_exit _ _ (λ _. tt) λ _. k
Knows-main_loop o (u' ∷ us) u m =
    After-if (Knows (is_grabbed u)) m.should_exit _ _ (λ _. tt)
      λ _.
        After-bind (λ m'. Unit {0}) (Knows (is_grabbed u)) (main_round o u' m)
          (main_loop o (us ++ u ∷ [])) (anything (main_round o u' m))
          λ m' _. Knows-main_loop o us u m'

-- The output that was selected last, for a grab state, if the display is usable.
abbrev pub Shows : Options → Bool → State → Type 0
Shows o g m =
    (m.ddcci_ok ≡ false)
    ⊎ (last_write m.ddcci.calls ≡ some (shown o g))
    ⊎ ((last_write m.ddcci.calls ≡ none) × (g ≡ false))

Follows-Shows : (o : Options) (g : Bool) (m : State) → Follows o m × Knows g m → Shows o g m
Follows-Shows o g m p = elim (Bool-cases m.ddcci_ok) [
  | inl ok ↦ inr (ground (arith, p.0.shows ok))
  | inr bad ↦ inl bad
]

-- After the last turn of the loop of `main` so far, while `main` goes on and the display is usable, the
-- output that was selected last is that of the other machine if the input had a grabbed keyboard in that
-- turn, and the own one if not; or none was selected, and there was no grabbed keyboard.
pub main-Shows :
    (reads : List Tick) (o : Options) (b : Boot) (us : List Turn) (u : Turn)
    → After (Shows o (input_is_grabbed u.input)) (main o b (us ++ u ∷ []) (main_start reads))
unfolding main
main-Shows reads o b us u =
    let all = main o b (us ++ u ∷ []) (main_start reads) in
    After-map (λ m. Follows o m × Knows (is_grabbed u) m) (Shows o (is_grabbed u)) all
      (Follows-Shows o (is_grabbed u))
      (After-both (Follows o) (Knows (is_grabbed u)) all (main-Follows reads o b (us ++ u ∷ [])) (
        After-bind (λ m. Unit {0}) (Knows (is_grabbed u)) (boot o b (main_start reads))
          (main_loop o (us ++ u ∷ [])) (anything (boot o b (main_start reads)))
          λ m _. Knows-main_loop o us u m))
