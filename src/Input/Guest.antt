-- ===== src/Input/Guest.antt =====
-- The keys that the guest of src/input.c takes to be pressed: by the calls that were made, and by the
-- events that the devices had.
use spicy_kvm.Prelude.{
  ℕ, zero, suc, ◌<◌, ◌≡◌, refl, ap, Bool, true, false, not, ◌&&◌, ◌||◌, List, [], ◌∷◌, ◌==◌,
  if◌then◌else◌, ℤ, pos, negsuc, is_num, arith,
}
use spicy_kvm.Input.Keys.{Key, Button, linux_to_ps2}
use spicy_kvm.Input.State.{
  Event, ev_key, ev_rel, ev_abs, ev_syn, ev_other, syn_report, syn_other, Call, grab, ungrab,
  open_device, close_device, mouse_press, mouse_release, key_down, key_up, mouse_motion,
}
use spicy_kvm.Input.Report.{
  Rel, FakeRel, Thread, send_key, send_button, turn_wheel, send_wheel, send_motion, report_rel,
  report_fake, handle_event,
}
use spicy_kvm.Input.Observer.{Observer, becomes_all}
use spicy_kvm.Input.Heard.{sent}

-- Whether the last call for a scancode pressed it.
abbrev pub has_key : ℕ → List Call → Bool
has_key c [] = false
has_key c (key_down d ∷ cs) = d == c || has_key c cs
has_key c (key_up d ∷ cs) = not (d == c) && has_key c cs
has_key c (grab i ok ∷ cs) = has_key c cs
has_key c (ungrab i ok ∷ cs) = has_key c cs
has_key c (open_device i ∷ cs) = has_key c cs
has_key c (close_device i ∷ cs) = has_key c cs
has_key c (mouse_press b ∷ cs) = has_key c cs
has_key c (mouse_release b ∷ cs) = has_key c cs
has_key c (mouse_motion dx dy ∷ cs) = has_key c cs

-- Whether the key of a scancode is down after an event of a keyboard.
abbrev pub key_after : ℕ → Event → Bool → Bool
key_after c (ev_key k value) b =
    if linux_to_ps2 k == c
    then (if is_num value 1 then true else if is_num value 0 then false else b)
    else b
key_after c ev b = b

-- After some events, in order.
abbrev pub keys_after : ℕ → List Event → Bool → Bool
keys_after c = becomes_all (key_after c)

pub has_key-sent : (c : ℕ) (cs : List Call) → has_key c (sent cs) ≡ has_key c cs
has_key-sent c [] = refl
has_key-sent c (key_down d ∷ cs) = ap (λ b. d == c || b) (has_key-sent c cs)
has_key-sent c (key_up d ∷ cs) = ap (λ b. not (d == c) && b) (has_key-sent c cs)
has_key-sent c (grab i ok ∷ cs) = has_key-sent c cs
has_key-sent c (ungrab i ok ∷ cs) = has_key-sent c cs
has_key-sent c (open_device i ∷ cs) = has_key-sent c cs
has_key-sent c (close_device i ∷ cs) = has_key-sent c cs
has_key-sent c (mouse_press b ∷ cs) = has_key-sent c cs
has_key-sent c (mouse_release b ∷ cs) = has_key-sent c cs
has_key-sent c (mouse_motion dx dy ∷ cs) = has_key-sent c cs

-- Calls of which the same ones go to the server.
pub has_key-of_sent : (c : ℕ) (cs ds : List Call) → sent cs ≡ sent ds → has_key c cs ≡ has_key c ds
has_key-of_sent c cs ds e = cc (has_key-sent c cs, has_key-sent c ds, ap (has_key c) e)

module _ (c : ℕ) where
  has_key-send_button :
      (k : Key) (value : ℤ) (cs : List Call) → has_key c (send_button k value cs) ≡ has_key c cs
  unfolding send_button
  has_key-send_button k value cs = ground arith

  has_key-turn_wheel :
      (n : ℕ) (b : Button) (cs : List Call) → has_key c (turn_wheel n b cs) ≡ has_key c cs
  unfolding turn_wheel
  has_key-turn_wheel zero b cs = refl
  has_key-turn_wheel (suc n) b cs = has_key-turn_wheel n b (mouse_release b ∷ mouse_press b ∷ cs)

  has_key-send_wheel : (w : ℤ) (cs : List Call) → has_key c (send_wheel w cs) ≡ has_key c cs
  unfolding send_wheel
  has_key-send_wheel (pos n) cs = has_key-turn_wheel n _ cs
  has_key-send_wheel (negsuc n) cs = has_key-turn_wheel (suc n) _ cs

  has_key-send_motion :
      (dx dy : ℤ) (cs : List Call) → has_key c (send_motion dx dy cs) ≡ has_key c cs
  unfolding send_motion
  has_key-send_motion dx dy cs = ground arith

  has_key-report :
      (r : Rel) (f : FakeRel) (cs : List Call)
      → has_key c (report_fake f (report_rel r cs)) ≡ has_key c cs
  unfolding report_fake report_rel
  has_key-report r f cs =
      let moved = send_motion r.dx r.dy cs in
      let turned = send_wheel r.wheel moved in
      ground (
        arith,
        has_key-send_motion r.dx r.dy cs,
        has_key-send_wheel r.wheel moved,
        has_key-send_motion f.dx f.dy turned,
        has_key-send_motion f.dx f.dy cs,
      )

  -- The scancode 0 is that of the keys that have none.
  module _ (h : 0 < c) where
    has_key-send_key :
        (k : Key) (value : ℤ) (cs : List Call)
        → has_key c (send_key k value cs) ≡ key_after c (ev_key k value) (has_key c cs)
    unfolding send_key
    has_key-send_key k value cs = ground arith

    pub has_key-handle_event :
        (ev : Event) (t : Thread) (cs : List Call)
        → has_key c (handle_event ev t cs).1 ≡ key_after c ev (has_key c cs)
    unfolding handle_event
    has_key-handle_event (ev_key k value) t cs =
        ground
          (arith, has_key-send_key k value (send_button k value cs), has_key-send_button k value cs)
    has_key-handle_event (ev_rel r value) t cs = refl
    has_key-handle_event (ev_abs a value) t cs = refl
    has_key-handle_event (ev_syn syn_report) t cs =
        has_key-report t.pending_rel t.pending_rel_fake cs
    has_key-handle_event (ev_syn syn_other) t cs = refl
    has_key-handle_event ev_other t cs = refl

    abbrev pub keys : Observer
    keys = record {
      sees = has_key c;
      becomes = key_after c;
      sees-of_sent = has_key-of_sent c;
      sees-handle_event = has_key-handle_event;
    }
