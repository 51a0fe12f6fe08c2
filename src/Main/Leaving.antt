-- ===== src/Main/Leaving.antt =====
-- How src/main.c ends.
use spicy_kvm.Prelude.{
  ℕ, zero, suc, ◌+◌, ◌≤◌, ◌<◌, ◌≡◌, refl, inl, inr, Bool, true, false, not, ◌&&◌, ◌||◌, none, some,
  List, [], ◌∷◌, if◌then◌else◌, Bool-cases, arith, ltb,
}
use spicy_kvm.Main.After.{Holds, Holds-bind}
use spicy_kvm.Main.Blind.{update_display-Holds}
use spicy_kvm.Main.Loop.{
  is_grabbed, Options, Turn, State, Outcome, ◌>>=◌, update_display, settled, follow_grab, Sound,
  hear, take_signals, same, sighandler, main_round, main_loop,
}

-- The program ends with a code, if it does not wait for ever.
abbrev pub EndsWith : ℕ → Outcome → Type 0
EndsWith n = Holds (λ m. ⊥) (λ k m. k ≡ n) Unit

EndsWith-loop :
    (o : Options) (us : List Turn) (m : State)
    → m.should_exit ≡ true
    → EndsWith 0 (main_loop o us m)
unfolding main_loop
EndsWith-loop o [] m e = ground arith
EndsWith-loop o (u ∷ us) m e = ground arith

-- What was asked for so far, the end or not, and a fact that the asking does not change.
abbrev Asked : (State → Type 0) → ℕ → State → Type 0
Asked V j m = (m.should_exit ≡ ltb 0 j) × (j ≤ 1) × V m

-- Signals add to it, unless the end is asked for more than once, where the program returns 1.
take_signals-Asked :
    (V : State → Type 0) (Q : ℕ → State → Type 0)
    → ((m : State) → V m → V (record m { should_exit = true }))
    → (t n j : ℕ) (m : State) → t ≡ j + n
    → (1 < t → (m' : State) → Q 1 m')
    → Asked V j m
    → Holds (Asked V t) Q Unit (take_signals n m)
unfolding take_signals sighandler
take_signals-Asked V Q ask t zero j m e late (asked, once, v) = (ground arith, omega arith, v)
take_signals-Asked V Q ask t (suc n) j m e late (asked, once, v) = elim (Bool-cases m.should_exit) [
  | inl s ↦ rw s (late (ground arith) _)
  | inr s ↦ rw s (
      take_signals-Asked V Q ask t n 1 (record m { should_exit = true }) (ground arith) late
        (refl, omega arith, ask m v))
]

-- The input was given back, which ends a program that does not linger.
abbrev pub is_released : Options → Turn → State → Bool
is_released o u m = m.was_grabbed && not (is_grabbed u) && not o.linger

-- The signals of a turn up to the lines where the input given back asks for the end.
abbrev pub signals_until : Turn → State → ℕ
signals_until u m =
    u.signals_before + (if same (is_grabbed u) m.was_grabbed then 0 else u.signals_between)

-- Whether the end is asked for a second time by a signal.
abbrev pub is_insisted : Options → Turn → State → Bool
is_insisted o u m =
    ltb 1 (signals_until u m + u.signals_after) || (is_released o u m && ltb 0 u.signals_after)

-- The code with which the program ends.
abbrev pub code : Options → Turn → State → ℕ
code o u m = if is_insisted o u m then 1 else 0

abbrev HasCode : Options → Turn → State → ℕ → State → Type 0
HasCode o u m k m' = k ≡ code o u m

abbrev Was : State → State → Type 0
Was m m' = m'.was_grabbed ≡ m.was_grabbed

-- Up to the signals at the end of the turn.
abbrev Followed : Options → Turn → State → State → Type 0
Followed o u m =
    Asked (λ m'. signals_until u m ≤ 1) (if is_released o u m then 1 else signals_until u m)

hear-Asked :
    (o : Options) (u : Turn) (m : State)
    → m.should_exit ≡ false
    → (s : Sound) → Holds (Asked (Was m) 0) (HasCode o u m) Unit (hear s m)
hear-Asked o u m e none = tt
hear-Asked o u m e (some (p, r)) = (e, omega arith, refl)

follow_grab-Asked :
    (o : Options) (u : Turn) (m m' : State)
    → Asked (Was m) u.signals_before m'
    → Holds (Followed o u m) (HasCode o u m) Unit (follow_grab o u m')
follow_grab-Asked o u m m' a = elim (Bool-cases (same (is_grabbed u) m'.was_grabbed)) [
  | inl s ↦ rw s (ground (arith, a), ground (arith, a), ground (arith, a))
  | inr s ↦
      let until = u.signals_before + u.signals_between in
      rw s (
        Holds-bind (Asked (Was m) until) (Followed o u m) (HasCode o u m) Unit
          (update_display o u m' >>= take_signals u.signals_between) (settled o u)
          (Holds-bind (Asked (Was m) u.signals_before) (Asked (Was m) until) (HasCode o u m) Unit
            (update_display o u m') (take_signals u.signals_between)
            (update_display-Holds (Asked (Was m) u.signals_before) (HasCode o u m)
              (λ m2 d ok n v. v) o u m' a)
            λ m2 a2.
              take_signals-Asked (Was m) (HasCode o u m) (λ m3 v. v) until u.signals_between
                u.signals_before m2 refl (λ h m3. ground (arith, a, h)) a2)
          λ m2 a2. (ground (arith, a, a2), ground (arith, a, a2), ground (arith, a, a2)))
]

-- A turn in which the input is given back, if the program does not linger, or at least one signal comes, is the
-- last, unless it waits for ever: the program ends with 1, if two signals come in it, or the input is given
-- back so and a signal comes after the lines that then ask for the end; and else with 0. A signal between the
-- switch of the display and these lines counts only if the grab state has changed. PureSpice still runs, the
-- end was not asked for before, and no signal comes after the loop.
pub main_loop-EndsWith :
    (o : Options) (u : Turn) (us : List Turn) (m : State)
    → m.should_exit ≡ false
    → u.running ≡ true
    → is_released o u m || ltb 0 (signals_until u m + u.signals_after) ≡ true
    → EndsWith (code o u m) (main_loop o (u ∷ us) m)
unfolding main_loop main_round
main_loop-EndsWith o u us m e r h =
    let Q = HasCode o u m in
    let before = hear u.sound m >>= take_signals u.signals_before in
    let j = if is_released o u m then 1 else signals_until u m in
    let V = λ (m' : State). signals_until u m ≤ 1 in
    simp (e, r)
      (Holds-bind (Asked V (j + u.signals_after)) (λ m'. ⊥) Q Unit
        (before >>= follow_grab o u >>= take_signals u.signals_after) (main_loop o us)
        (Holds-bind (Followed o u m) (Asked V (j + u.signals_after)) Q Unit
          (before >>= follow_grab o u) (take_signals u.signals_after)
          (Holds-bind (Asked (Was m) u.signals_before) (Followed o u m) Q Unit before
            (follow_grab o u)
            (Holds-bind (Asked (Was m) 0) (Asked (Was m) u.signals_before) Q Unit (hear u.sound m)
              (take_signals u.signals_before) (hear-Asked o u m e u.sound)
              λ m' a.
                take_signals-Asked (Was m) Q (λ m2 v. v) u.signals_before u.signals_before 0 m'
                  (omega arith) (λ l m2. ground (arith, l)) a)
            (follow_grab-Asked o u m))
          λ m' a.
            take_signals-Asked V Q (λ m2 v. v) (j + u.signals_after) u.signals_after j m' refl
              (λ l m2. ground (arith, l, a)) a)
        λ m' a. ends m' a)
  where
    ends :
        (m' : State)
        → Asked
            (λ m2. signals_until u m ≤ 1)
            ((if is_released o u m then 1 else signals_until u m) + u.signals_after)
            m'
        → EndsWith (code o u m) (main_loop o us m')
    ends m' a =
        let c : code o u m ≡ 0 = ground (arith, a, h) in
        rw c (EndsWith-loop o us m' (ground (arith, a, h)))
