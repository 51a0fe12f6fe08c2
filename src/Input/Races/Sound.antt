-- ===== src/Input/Races/Sound.antt =====
-- What survives of src/input.c where the rounds of its threads race with each other.
use spicy_kvm.Prelude.{ℕ, ◌≡◌, refl, ap, ◌∙◌, List, arith}
use spicy_kvm.Input.State.{Input}
use spicy_kvm.Input.Invariant.{Inv}
use spicy_kvm.Input.Sharing.{view}
use spicy_kvm.Input.Refines.{causes, after_all, view-moves}
use spicy_kvm.Input.System.{System}
use spicy_kvm.Input.Reachable.{IsSound}
use spicy_kvm.Input.Run.{moves, moves-IsSound}
use spicy_kvm.Input.Races.{Fine, FineMove, fine_moves, resting, place_of}
use spicy_kvm.Input.Races.Core.{core}
use spicy_kvm.Input.Races.Whole.{is_there, Matches, all_whole, Matches-fine_moves}

Matches-resting : (s : System) → Matches (resting s) s
Matches-resting s = (refl, λ i. there i)
  where
    there : (i : ℕ) → is_there (place_of (s.threads i)) ≡ is_there (s.threads i)
    there i = ground arith

-- The calls that were made do not matter to the invariant.
Inv-core : (s s' : Input) → core s ≡ core s' → Inv s' → Inv s
Inv-core s s' e v =
    let w : Inv (core s') = record {
      mouse_with_keyboard = v.mouse_with_keyboard;
      temp_with_mouse = v.temp_with_mouse;
      keyboard_tracked = v.keyboard_tracked;
      mouse_tracked = v.mouse_tracked;
    } in
    let u : Inv (core s) = rw e w in
    record {
      mouse_with_keyboard = u.mouse_with_keyboard;
      temp_with_mouse = u.temp_with_mouse;
      keyboard_tracked = u.keyboard_tracked;
      mouse_tracked = u.mouse_tracked;
    }

-- A state that is, but for the calls, one of whole rounds.
abbrev pub IsCovered : Fine → Type 0
IsCovered f = (s : System) × Matches f s × IsSound s

pub IsCovered-resting : (s : System) → IsSound s → IsCovered (resting s)
IsCovered-resting s v = (s, Matches-resting s, v)

pub IsCovered-fine_moves :
    (ms : List FineMove) (f : Fine) → IsCovered f → IsCovered (fine_moves ms f)
IsCovered-fine_moves ms f (s, m, v) =
    (moves (all_whole ms f) s, Matches-fine_moves ms f s m, moves-IsSound (all_whole ms f) s v)

pub Inv-IsCovered : (f : Fine) → IsCovered f → Inv f.input
Inv-IsCovered f (s, m, v) = Inv-core f.input s.input m.0 v.inv

-- Where the rounds of the threads are cut in their three parts, which run in any order, from a sound state
-- with no thread in a round: the state is, but for the calls, that of the whole rounds one after the other,
-- each where it begins; so what the guest has is what the specification says of these, and the invariant of
-- the grabs holds.
pub view-fine_moves :
    (ms : List FineMove) (s : System)
    → IsSound s
    → let f = fine_moves ms (resting s) in
      let whole = all_whole ms (resting s) in
      (core f.input ≡ core (moves whole s).input)
      × (view f.input ≡ after_all (causes whole s) (view s.input))
      × Inv f.input
view-fine_moves ms s v =
    let f = fine_moves ms (resting s) in
    let whole = all_whole ms (resting s) in
    let (e, _) = Matches-fine_moves ms (resting s) s (Matches-resting s) in
    (
      e,
      ap view e ∙ view-moves whole s v,
      Inv-core f.input (moves whole s).input e (moves-IsSound whole s v).inv,
    )
