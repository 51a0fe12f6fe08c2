-- ===== src/Input/Races/Whole.antt =====
-- Rounds of src/input.c that race with each other, and whole rounds: the same grabs and slots.
use spicy_kvm.Prelude.{
  ℕ, ◌≡◌, refl, ap, Bool, true, false, Option, none, some, List, [], ◌∷◌, ◌++◌, Option-cases, inl,
  inr, arith,
}
use spicy_kvm.Input.Keys.{Key}
use spicy_kvm.Input.State.{Event, ev_key, Read, again, nodev, failed, success, sync, Input, Env}
use spicy_kvm.Input.Grab.{on_grab_key, claim_mouse, lose_device}
use spicy_kvm.Input.Report.{Thread}
use spicy_kvm.Input.Device.{forward, on_event, device_round}
use spicy_kvm.Input.Probe.{Probe, Action}
use spicy_kvm.Input.System.{System, after_round, after_added}
use spicy_kvm.Input.Run.{Move, runs, plugs, move, moves, moves-append}
use spicy_kvm.Input.Races.Core.{
  core, core_of_blind, on_grab_key-IsBlind, claim_mouse-IsBlind, lose_device-IsBlind, same_added,
}
use spicy_kvm.Input.Races.{
  Phase, idle, claimed, passed, begin_event, begin, Fine, FineMove, reads, checks, sends, adds,
  on_place, fine_move, fine_moves, at,
}

abbrev pub is_there {ℓ} : {A : Type ℓ} → Option A → Bool
is_there none = false
is_there (some a) = true

-- The same grabs and slots, and the same threads.
abbrev pub Matches : Fine → System → Type 0
Matches f s =
    (core f.input ≡ core s.input) × ((i : ℕ) → is_there (f.places i) ≡ is_there (s.threads i))

core-forward :
    (env : Env) (idx : ℕ) (ev : Event) (s : Input) (t : Thread)
    → let w = forward env idx ev s t in
      (core w.input ≡ core (claim_mouse env idx ev s)) × (w.running ≡ true)
unfolding forward
core-forward env idx ev s t = ground arith

module _ (env : Env) (idx : ℕ) (s s' : Input) (e : core s ≡ core s') where
  abbrev SameRound : Read → Thread → Thread → Type 0
  SameRound r t t' =
      let b = begin env idx r s t in
      let w = device_round env idx r s' t' in
      (core b.input ≡ core w.input) × (is_there b.place ≡ w.running)

  same_claim : (ev : Event) → core (claim_mouse env idx ev s) ≡ core (claim_mouse env idx ev s')
  same_claim ev = core_of_blind (claim_mouse env idx ev) s s' (claim_mouse-IsBlind env idx ev) e

  same_keys : (k : Key) → s.grab_key k ≡ s'.grab_key k
  same_keys k = ap (λ (c : Input). c.grab_key k) e

  same_event :
      (ev : Event) (t t' : Thread)
      → let b = begin_event env idx ev s t in
        let w = on_event env idx ev s' t' in
        (core b.input ≡ core w.input) × (is_there b.place ≡ w.running)
  unfolding begin_event on_event
  same_event (ev_key k value) t t' =
      let grabs =
        core_of_blind (on_grab_key env idx value) s s' (on_grab_key-IsBlind env idx value) e in
      let kept = core-forward env idx (ev_key k value) s' t' in
      ground (arith, same_keys k, grabs, same_claim (ev_key k value), kept)
  same_event ev t t' =
      let kept = core-forward env idx ev s' t' in ground (arith, same_claim ev, kept)

  same_round : (r : Read) (t t' : Thread) → SameRound r t t'
  unfolding begin device_round
  same_round again t t' = (e, refl)
  same_round nodev t t' =
      (core_of_blind (lose_device env idx) s s' (lose_device-IsBlind env idx) e, refl)
  same_round failed t t' =
      (core_of_blind (lose_device env idx) s s' (lose_device-IsBlind env idx) e, refl)
  same_round (success ev) t t' = same_event ev t t'
  same_round (sync ev) t t' = same_event ev _ _

-- The whole rounds of some moves: each round where it begins.
abbrev pub whole : FineMove → Fine → List Move
whole (reads env i r) f = elim (f.places i) [
  | none ↦ []
  | some p ↦ elim p.phase [ idle ↦ runs env i r ∷ [] | claimed ev ↦ [] | passed ev ↦ [] ]
]
whole (checks i) f = []
whole (sends i) f = []
whole (adds a p codes) f = plugs a p codes ∷ []

abbrev pub all_whole : List FineMove → Fine → List Move
all_whole [] f = []
all_whole (m ∷ ms) f = whole m f ++ all_whole ms (fine_move m f)

Matches-begins :
    (env : Env) (i : ℕ) (r : Read) (t : Thread) (ph : Phase) (f : Fine) (s : System)
    → f.places i ≡ at t ph
    → Matches f s
    → Matches (fine_move (reads env i r) f) (moves (whole (reads env i r) f) s)
unfolding after_round
Matches-begins env i r t idle f s e v = elim (Option-cases (s.threads i)) [
  | inl e' ↦ absurd (ground (arith, v.1 i, e, e'))
  | inr (t', e') ↦
      let w = same_round env i f.input s.input v.0 r t t' in
      rw (e, fine_move, on_place, whole, e', move) (w.0, λ j. ground (arith, w.1, v.1 j))
]
Matches-begins env i r t (claimed ev) f s e v = rw (e, fine_move, on_place, whole) v
Matches-begins env i r t (passed ev) f s e v = rw (e, fine_move, on_place, whole) v

Matches-check :
    (i : ℕ) (t : Thread) (ph : Phase) (f : Fine) (s : System)
    → f.places i ≡ at t ph
    → Matches f s
    → Matches (fine_move (checks i) f) s
Matches-check i t idle f s e v = rw (e, fine_move, on_place) v
Matches-check i t (claimed ev) f s e v =
    rw (e, fine_move, on_place) (v.0, λ j. ground (arith, v.1 j, v.1 i, e))
Matches-check i t (passed ev) f s e v = rw (e, fine_move, on_place) v

Matches-send :
    (i : ℕ) (t : Thread) (ph : Phase) (f : Fine) (s : System)
    → f.places i ≡ at t ph
    → Matches f s
    → Matches (fine_move (sends i) f) s
Matches-send i t idle f s e v = rw (e, fine_move, on_place) v
Matches-send i t (claimed ev) f s e v = rw (e, fine_move, on_place) v
Matches-send i t (passed ev) f s e v =
    rw (e, fine_move, on_place) (v.0, λ j. ground (arith, v.1 j, v.1 i, e))

Matches-adds :
    (a : Action) (p : Probe) (codes : List Key) (f : Fine) (s : System)
    → Matches f s
    → Matches (fine_move (adds a p codes) f) (move (plugs a p codes) s)
unfolding after_added
Matches-adds a p codes f s v =
    let w = same_added a p codes f.input s.input v.0 in (w.0, λ j. ground (arith, w.1, v.1 j))

Matches-fine_move :
    (m : FineMove) (f : Fine) (s : System)
    → Matches f s
    → Matches (fine_move m f) (moves (whole m f) s)
Matches-fine_move (reads env i r) f s v = elim (Option-cases (f.places i)) [
  | inl e ↦ rw (e, fine_move, on_place, whole) v
  | inr (p, e) ↦ Matches-begins env i r p.thread p.phase f s e v
]
Matches-fine_move (checks i) f s v = elim (Option-cases (f.places i)) [
  | inl e ↦ rw (e, fine_move, on_place) v
  | inr (p, e) ↦ Matches-check i p.thread p.phase f s e v
]
Matches-fine_move (sends i) f s v = elim (Option-cases (f.places i)) [
  | inl e ↦ rw (e, fine_move, on_place) v
  | inr (p, e) ↦ Matches-send i p.thread p.phase f s e v
]
Matches-fine_move (adds a p codes) f s v = Matches-adds a p codes f s v

-- Rounds whose parts come between those of others leave the same grabs, slots and threads as whole rounds,
-- one after the other, each where it begins; from any states that have the same. The calls differ.
pub Matches-fine_moves :
    (ms : List FineMove) (f : Fine) (s : System)
    → Matches f s
    → Matches (fine_moves ms f) (moves (all_whole ms f) s)
Matches-fine_moves [] f s v = v
Matches-fine_moves (m ∷ ms) f s v =
    rw (moves-append (whole m f) (all_whole ms (fine_move m f)) s)
      (Matches-fine_moves ms (fine_move m f) (moves (whole m f) s) (Matches-fine_move m f s v))
