-- ===== src/Input/Buttons.antt =====
-- The mouse buttons that the guest of src/input.c takes to be pressed, but the two that are the wheel.
use spicy_kvm.Prelude.{
  ℕ, zero, suc, ◌≡◌, refl, ◌∙◌, ap, Bool, true, false, not, ◌&&◌, ◌||◌, Option, none, some, List,
  [], ◌∷◌, if◌then◌else◌, ℤ, pos, negsuc, is_num, arith,
}
use spicy_kvm.Input.Keys.{Key, Button, left, middle, right, up, down, side, extra, linux_to_spice}
use spicy_kvm.Input.State.{
  Event, ev_key, ev_rel, ev_abs, ev_syn, ev_other, syn_report, syn_other, Call, grab, ungrab,
  open_device, close_device, mouse_press, mouse_release, key_down, key_up, mouse_motion,
}
use spicy_kvm.Input.Report.{
  Rel, FakeRel, Thread, send_key, send_button, turn_wheel, send_wheel, send_motion, report_rel,
  report_fake, handle_event,
}
use spicy_kvm.Input.Heard.{sent}
use spicy_kvm.Input.Observer.{Observer}

abbrev pub same_button : Button → Button → Bool
same_button left left = true
same_button middle middle = true
same_button right right = true
same_button up up = true
same_button down down = true
same_button side side = true
same_button extra extra = true
same_button _ _ = false

abbrev pub is_wheel : Button → Bool
is_wheel up = true
is_wheel down = true
is_wheel _ = false

-- Whether the last call for a button pressed it.
abbrev pub has_button : Button → List Call → Bool
has_button b [] = false
has_button b (mouse_press d ∷ cs) = same_button d b || has_button b cs
has_button b (mouse_release d ∷ cs) = not (same_button d b) && has_button b cs
has_button b (grab i ok ∷ cs) = has_button b cs
has_button b (ungrab i ok ∷ cs) = has_button b cs
has_button b (open_device i ∷ cs) = has_button b cs
has_button b (close_device i ∷ cs) = has_button b cs
has_button b (key_down d ∷ cs) = has_button b cs
has_button b (key_up d ∷ cs) = has_button b cs
has_button b (mouse_motion dx dy ∷ cs) = has_button b cs

abbrev is_button : Button → Option Button → Bool
is_button b none = false
is_button b (some d) = same_button d b

-- Whether a button is down after an event of a mouse.
abbrev pub button_after : Button → Event → Bool → Bool
button_after b (ev_key k value) x =
    if is_button b (linux_to_spice k)
    then (if is_num value 1 then true else if is_num value 0 then false else x)
    else x
button_after b ev x = x

has_button-sent : (b : Button) (cs : List Call) → has_button b (sent cs) ≡ has_button b cs
has_button-sent b [] = refl
has_button-sent b (mouse_press d ∷ cs) = ap (λ x. same_button d b || x) (has_button-sent b cs)
has_button-sent b (mouse_release d ∷ cs) =
    ap (λ x. not (same_button d b) && x) (has_button-sent b cs)
has_button-sent b (grab i ok ∷ cs) = has_button-sent b cs
has_button-sent b (ungrab i ok ∷ cs) = has_button-sent b cs
has_button-sent b (open_device i ∷ cs) = has_button-sent b cs
has_button-sent b (close_device i ∷ cs) = has_button-sent b cs
has_button-sent b (key_down d ∷ cs) = has_button-sent b cs
has_button-sent b (key_up d ∷ cs) = has_button-sent b cs
has_button-sent b (mouse_motion dx dy ∷ cs) = has_button-sent b cs

-- Calls of which the same ones go to the server.
pub has_button-of_sent :
    (b : Button) (cs ds : List Call) → sent cs ≡ sent ds → has_button b cs ≡ has_button b ds
has_button-of_sent b cs ds e = cc (has_button-sent b cs, has_button-sent b ds, ap (has_button b) e)

module _ (b : Button) where
  has_button-send_button :
      (k : Key) (value : ℤ) (cs : List Call)
      → has_button b (send_button k value cs) ≡ button_after b (ev_key k value) (has_button b cs)
  unfolding send_button
  has_button-send_button k value cs = ground arith

  has_button-send_key :
      (k : Key) (value : ℤ) (cs : List Call) → has_button b (send_key k value cs) ≡ has_button b cs
  unfolding send_key
  has_button-send_key k value cs = ground arith

  has_button-send_motion :
      (dx dy : ℤ) (cs : List Call) → has_button b (send_motion dx dy cs) ≡ has_button b cs
  unfolding send_motion
  has_button-send_motion dx dy cs = ground arith

  has_button-turn_wheel :
      (n : ℕ) (w : Button) (cs : List Call)
      → same_button w b ≡ false
      → has_button b (turn_wheel n w cs) ≡ has_button b cs
  unfolding turn_wheel
  has_button-turn_wheel zero w cs h = refl
  has_button-turn_wheel (suc n) w cs h =
      has_button-turn_wheel n w (mouse_release w ∷ mouse_press w ∷ cs) h ∙ ground arith

  not_up : is_wheel b ≡ false → same_button up b ≡ false
  not_up h = ground arith

  not_down : is_wheel b ≡ false → same_button down b ≡ false
  not_down h = ground arith

  module _ (h : is_wheel b ≡ false) where
    has_button-send_wheel :
        (w : ℤ) (cs : List Call) → has_button b (send_wheel w cs) ≡ has_button b cs
    unfolding send_wheel
    has_button-send_wheel (pos n) cs = has_button-turn_wheel n up cs (not_up h)
    has_button-send_wheel (negsuc n) cs = has_button-turn_wheel (suc n) down cs (not_down h)

    has_button-report :
        (r : Rel) (f : FakeRel) (cs : List Call)
        → has_button b (report_fake f (report_rel r cs)) ≡ has_button b cs
    unfolding report_fake report_rel
    has_button-report r f cs =
        let moved = send_motion r.dx r.dy cs in
        let turned = send_wheel r.wheel moved in
        ground (
          arith,
          has_button-send_motion r.dx r.dy cs,
          has_button-send_wheel r.wheel moved,
          has_button-send_motion f.dx f.dy turned,
          has_button-send_motion f.dx f.dy cs,
        )

    pub has_button-handle_event :
        (ev : Event) (t : Thread) (cs : List Call)
        → has_button b (handle_event ev t cs).1 ≡ button_after b ev (has_button b cs)
    unfolding handle_event
    has_button-handle_event (ev_key k value) t cs =
        has_button-send_key k value (send_button k value cs) ∙ has_button-send_button k value cs
    has_button-handle_event (ev_rel r value) t cs = refl
    has_button-handle_event (ev_abs a value) t cs = refl
    has_button-handle_event (ev_syn syn_report) t cs =
        has_button-report t.pending_rel t.pending_rel_fake cs
    has_button-handle_event (ev_syn syn_other) t cs = refl
    has_button-handle_event ev_other t cs = refl

    abbrev pub buttons : Observer
    buttons = record {
      sees = has_button b;
      becomes = button_after b;
      sees-of_sent = has_button-of_sent b;
      sees-handle_event = has_button-handle_event;
    }
