-- ===== src/Main/After.antt =====
-- Facts about the state of src/main.c where it goes on.
use spicy_kvm.Prelude.{
  ℕ, ◌≡◌, refl, Bool, true, false, none, some, List, [], ◌∷◌, if◌then◌else◌, zero, suc,
}
use spicy_kvm.Main.Loop.{
  State, Outcome, goes_on, exits, hangs, ◌>>=◌, Sound, hear, Options, require, require_input,
  wait_ready, Boot, init_audio, setup_ddc, boot, take_signals, sighandler, Turn, update_display,
  settle, settled, follow_grab, main_round,
}
use spicy_kvm.Audio.Shutdown.{Audio}

-- What holds of a part of `main`: of the state if it goes on, of the code and the state if it returns, and
-- if it waits for ever.
abbrev pub Holds : (State → Type 0) → (ℕ → State → Type 0) → Type 0 → Outcome → Type 0
Holds P Q H (goes_on m) = P m
Holds P Q H (exits n m) = Q n m
Holds P Q H hangs = H

module _ (P R : State → Type 0) (Q : ℕ → State → Type 0) (H : Type 0) where
  pub Holds-bind :
      (x : Outcome) (f : State → Outcome)
      → Holds P Q H x
      → ((m : State) → P m → Holds R Q H (f m))
      → Holds R Q H (x >>= f)
  Holds-bind (goes_on m) f p k = k m p
  Holds-bind (exits n m) f p k = p
  Holds-bind hangs f p k = p

module _ (P : State → Type 0) (Q : ℕ → State → Type 0) (H : Type 0) where
  pub Holds-if :
      (b : Bool) (x y : Outcome)
      → (b ≡ true → Holds P Q H x)
      → (b ≡ false → Holds P Q H y)
      → Holds P Q H (if b then x else y)
  Holds-if true x y t f = t refl
  Holds-if false x y t f = f refl

-- The parts of the start of `main` that leave the state as it is, or return 1.
module _ (P : State → Type 0) (Q : ℕ → State → Type 0) (ends : (m : State) → P m → Q 1 m) where
  pub require-Holds : (ok : Bool) (m : State) → P m → Holds P Q Unit (require ok m)
  require-Holds ok m p = Holds-if P Q Unit ok _ _ (λ _. p) λ _. ends m p

  require_input-Holds :
      (o : Options) (ok : Bool) (m : State) → P m → Holds P Q Unit (require_input o ok m)
  require_input-Holds o ok m p =
      Holds-if P Q Unit o.inputs_enable _ _ (λ _. require-Holds ok m p) λ _. p

  wait_ready-Holds : (ps : List (Bool × Bool)) (m : State) → P m → Holds P Q Unit (wait_ready ps m)
  unfolding wait_ready
  wait_ready-Holds [] m p = tt
  wait_ready-Holds ((true, true) ∷ ps) m p = p
  wait_ready-Holds ((true, false) ∷ ps) m p = wait_ready-Holds ps m p
  wait_ready-Holds ((false, r) ∷ ps) m p = ends m p

-- Signals, where what holds does not depend on `should_exit`.
module _ (P : State → Type 0) (Q : ℕ → State → Type 0) (H : Type 0)
    (ask : (m : State) → P m → P (record m { should_exit = true }))
    (ends : (m : State) → P m → Q 1 m) where
  sighandler-Holds : (m : State) → P m → Holds P Q H (sighandler m)
  unfolding sighandler
  sighandler-Holds m p = Holds-if P Q H m.should_exit _ _ (λ _. ends m p) λ _. ask m p

  pub take_signals-Holds : (n : ℕ) (m : State) → P m → Holds P Q H (take_signals n m)
  unfolding take_signals
  take_signals-Holds zero m p = p
  take_signals-Holds (suc n) m p =
      Holds-bind P P Q H (sighandler m) (take_signals n) (sighandler-Holds m p)
        (take_signals-Holds n)

  -- What is done where the grab state has changed.
  pub changed-Holds :
      (R : State → Type 0) (o : Options) (u : Turn) (m : State)
      → Holds P Q H (update_display o u m)
      → ((m' : State) → P m' → R (settle o u m'))
      → Holds R Q H (update_display o u m >>= take_signals u.signals_between >>= settled o u)
  changed-Holds R o u m p k =
      Holds-bind P R Q H (update_display o u m >>= take_signals u.signals_between) (settled o u)
        (Holds-bind P P Q H (update_display o u m) (take_signals u.signals_between) p
          (take_signals-Holds u.signals_between))
        k

-- A turn of the loop: what holds up to the comparison of the grab state, and then.
module _ (P R : State → Type 0) (Q : ℕ → State → Type 0) (H : Type 0)
    (ask : (m : State) → P m → P (record m { should_exit = true }))
    (ask_then : (m : State) → R m → R (record m { should_exit = true }))
    (ends : (m : State) → P m → Q 1 m) (ends_then : (m : State) → R m → Q 1 m) where
  pub main_round-Holds :
      (o : Options) (u : Turn) (m : State)
      → Q 1 m
      → Holds P Q H (hear u.sound m)
      → ((m' : State) → P m' → Holds R Q H (follow_grab o u m'))
      → Holds R Q H (main_round o u m)
  unfolding main_round
  main_round-Holds o u m stopped hears follows =
      let before = hear u.sound m >>= take_signals u.signals_before in
      Holds-if R Q H u.running _ _
        (λ _.
          Holds-bind R R Q H (before >>= follow_grab o u) (take_signals u.signals_after)
            (Holds-bind P R Q H before (follow_grab o u)
              (Holds-bind P P Q H (hear u.sound m) (take_signals u.signals_before) hears
                (take_signals-Holds P Q H ask ends u.signals_before))
              follows)
            (take_signals-Holds R Q H ask_then ends_then u.signals_after))
        λ _. stopped

-- The start of `main`: what holds before the display is set up, and then.
module _ (P R : State → Type 0) (Q : ℕ → State → Type 0) (ends : (m : State) → P m → Q 1 m)
    (ends_then : (m : State) → R m → Q 1 m) where
  then_chain :
      (x : Outcome) (f : State → Outcome)
      → Holds R Q Unit x
      → ((m : State) → R m → Holds R Q Unit (f m))
      → Holds R Q Unit (x >>= f)
  then_chain = Holds-bind R R Q Unit

  pub boot-Holds :
      (o : Options) (b : Boot) (m : State)
      → Holds P Q Unit (init_audio o b m)
      → ((m' : State) → P m' → Holds R Q Unit (setup_ddc o b m'))
      → ((m' : State) → R m' → Holds R Q Unit (hear b.sound m'))
      → Holds R Q Unit (boot o b m)
  unfolding boot
  boot-Holds o b m starts sets_up hears =
      then_chain _ (require_input o b.mouse_ok)
        (then_chain _ (hear b.sound)
          (then_chain _ (wait_ready b.process)
            (then_chain _ (require b.connected)
              (Holds-bind P R Q Unit _ (setup_ddc o b)
                (Holds-bind P P Q Unit (init_audio o b m) (require_input o b.input_ok) starts
                  (require_input-Holds P Q ends o b.input_ok))
                sets_up)
              (require-Holds R Q ends_then b.connected))
            (wait_ready-Holds R Q ends_then b.process))
          hears)
        (require_input-Holds R Q ends_then o b.mouse_ok)

-- Nothing is said of an end.
abbrev pub AnyEnd : ℕ → State → Type 0
AnyEnd n m = Unit

-- A fact about the state, if `main` goes on.
abbrev pub After : (State → Type 0) → Outcome → Type 0
After P = Holds P AnyEnd Unit

pub anything : (x : Outcome) → After (λ m. Unit {0}) x
anything (goes_on m) = tt
anything (exits n m) = tt
anything hangs = tt

pub After-bind :
    (P Q : State → Type 0) (x : Outcome) (f : State → Outcome)
    → After P x
    → ((m : State) → P m → After Q (f m))
    → After Q (x >>= f)
After-bind P Q = Holds-bind P Q AnyEnd Unit

pub After-if :
    (P : State → Type 0) (b : Bool) (x y : Outcome)
    → (b ≡ true → After P x)
    → (b ≡ false → After P y)
    → After P (if b then x else y)
After-if P = Holds-if P AnyEnd Unit

-- The sound does not matter to a fact.
pub After-hear :
    (P : State → Type 0) (s : Sound) (m : State)
    → ((a : Audio) → P (record m { audio = a }))
    → After P (hear s m)
After-hear P none m k = tt
After-hear P (some (p, r)) m k = k _

pub true≢false : {b : Bool} → b ≡ true → b ≡ false → ⊥
true≢false p q = cc
