-- ===== src/Input/Observer.antt =====
-- Something of the guest of src/input.c that is on or off, such as a key: by the calls that were made, and by
-- the events that the devices had.
use spicy_kvm.Prelude.{◌≡◌, refl, Bool, List, [], ◌∷◌, ◌++◌}
use spicy_kvm.Input.State.{Event, Call}
use spicy_kvm.Input.Report.{Thread, handle_event}
use spicy_kvm.Input.Heard.{sent}

-- It depends only on the calls that go to the server, and an event that is sent changes it in one way,
-- whatever is pending in the thread.
pub record Observer : Type 0 where
  pub sees : List Call → Bool
  pub becomes : Event → Bool → Bool
  pub sees-of_sent : (cs ds : List Call) → sent cs ≡ sent ds → sees cs ≡ sees ds
  pub sees-handle_event :
      (ev : Event) (t : Thread) (cs : List Call)
      → sees (handle_event ev t cs).1 ≡ becomes ev (sees cs)

-- After some events, in order.
abbrev pub becomes_all : (Event → Bool → Bool) → List Event → Bool → Bool
becomes_all f [] b = b
becomes_all f (ev ∷ evs) b = becomes_all f evs (f ev b)

pub becomes_all-append :
    (f : Event → Bool → Bool) (xs ys : List Event) (b : Bool)
    → becomes_all f (xs ++ ys) b ≡ becomes_all f ys (becomes_all f xs b)
becomes_all-append f [] ys b = refl
becomes_all-append f (x ∷ xs) ys b = becomes_all-append f xs ys (f x b)
