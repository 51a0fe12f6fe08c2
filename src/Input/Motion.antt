-- ===== src/Input/Motion.antt =====
-- The pointer of src/input.c: what reports add up to.
use spicy_kvm.Prelude.{
  ℕ, zero, suc, ◌≡◌, refl, ap, ◌∙◌, Bool, true, false, List, [], ◌∷◌, ◌++◌, ℤ, pos, negsuc, ◌+ℤ◌,
  int_laws, if◌then◌else◌, arith,
}
use spicy_kvm.Input.Keys.{Button, up, down}
use spicy_kvm.Input.State.{
  RelCode, rel_x, rel_y, rel_wheel, rel_other, syn_report, Event, ev_rel, ev_syn, Call, mouse_press,
  mouse_release, mouse_motion,
}
use spicy_kvm.Input.Report.{
  Thread, rel_zero, on_rel, turn_wheel, send_wheel, send_motion, report_rel, report_fake,
  handle_event,
}

-- The events of a grabbed device, one after the other.
abbrev pub handle_events : List Event → Thread → List Call → Thread × List Call
handle_events [] t cs = (t, cs)
handle_events (ev ∷ evs) t cs = let (t', cs') = handle_event ev t cs in handle_events evs t' cs'

-- What some relative events add up to.
abbrev pub total : (RelCode → Bool) → List (RelCode × ℤ) → ℤ
total p [] = pos 0
total p ((c, value) ∷ es) = if p c then value +ℤ total p es else total p es

abbrev pub is_x : RelCode → Bool
is_x rel_x = true
is_x _ = false

abbrev pub is_y : RelCode → Bool
is_y rel_y = true
is_y _ = false

abbrev pub is_wheel : RelCode → Bool
is_wheel rel_wheel = true
is_wheel _ = false

abbrev pub rel_events : List (RelCode × ℤ) → List Event
rel_events [] = ev_syn syn_report ∷ []
rel_events ((c, value) ∷ es) = ev_rel c value ∷ rel_events es

+ℤ_assoc : (a b c : ℤ) → a +ℤ b +ℤ c ≡ a +ℤ (b +ℤ c)
+ℤ_assoc a b c = omega int_laws

zero-+ℤ : (a : ℤ) → pos 0 +ℤ a ≡ a
zero-+ℤ a = omega int_laws

+ℤ-zero : (a : ℤ) → a +ℤ pos 0 ≡ a
+ℤ-zero a = omega int_laws

abbrev after_rel : RelCode → ℤ → Thread → Thread
after_rel c value t = record t {
  pending_rel = on_rel c value t.pending_rel;
  pending_rel_fake = record t.pending_rel_fake { ignore = true };
}

rel_events_from :
    (es : List (RelCode × ℤ)) (t : Thread) (cs : List Call)
    → t.pending_rel.ok ≡ true
    → t.pending_rel_fake.ignore ≡ true
    → handle_events (rel_events es) t cs ≡ (
      record t { pending_rel = rel_zero },
      send_wheel
          (t.pending_rel.wheel +ℤ total is_wheel es)
          (send_motion (t.pending_rel.dx +ℤ total is_x es) (t.pending_rel.dy +ℤ total is_y es) cs),
    )
unfolding handle_event on_rel report_rel report_fake
rel_events_from [] t cs o i =
    ground (arith, +ℤ-zero t.pending_rel.wheel, +ℤ-zero t.pending_rel.dx, +ℤ-zero t.pending_rel.dy)
rel_events_from ((rel_x, value) ∷ es) t cs o i = ground (
  arith,
  rel_events_from es (after_rel rel_x value t) cs refl refl,
  +ℤ_assoc t.pending_rel.dx value (total is_x es),
)
rel_events_from ((rel_y, value) ∷ es) t cs o i = ground (
  arith,
  rel_events_from es (after_rel rel_y value t) cs refl refl,
  +ℤ_assoc t.pending_rel.dy value (total is_y es),
)
rel_events_from ((rel_wheel, value) ∷ es) t cs o i = ground (
  arith,
  rel_events_from es (after_rel rel_wheel value t) cs refl refl,
  +ℤ_assoc t.pending_rel.wheel value (total is_wheel es),
)
rel_events_from ((rel_other, value) ∷ es) t cs o i =
    ground (arith, rel_events_from es (after_rel rel_other value t) cs refl refl)

abbrev ready : Thread → Thread
ready t = record t {
  pending_rel = record rel_zero { ok = true };
  pending_rel_fake = record t.pending_rel_fake { ignore = true };
}

abbrev after_report : Thread → Thread
after_report t = record t {
  pending_rel = rel_zero;
  pending_rel_fake = record t.pending_rel_fake { ignore = true };
}

handled :
    (c : RelCode) (value : ℤ) (es : List (RelCode × ℤ)) (t : Thread) (cs : List Call)
    → t.pending_rel ≡ rel_zero
    → let all = (c, value) ∷ es in
      handle_events (rel_events all) t cs ≡ (
        record t {
          pending_rel = rel_zero;
          pending_rel_fake = record t.pending_rel_fake { ignore = true };
        },
        send_wheel (total is_wheel all) (send_motion (total is_x all) (total is_y all) cs),
      )
unfolding handle_event on_rel
handled c value es t cs z = ground (
  arith,
  rel_events_from ((c, value) ∷ es) (ready t) cs refl refl,
  zero-+ℤ (total is_wheel ((c, value) ∷ es)),
  zero-+ℤ (total is_x ((c, value) ∷ es)),
  zero-+ℤ (total is_y ((c, value) ∷ es)),
)

-- Some presses and releases of one button, newest first.
abbrev pub clicks : ℕ → Button → List Call
clicks zero b = []
clicks (suc n) b = mouse_release b ∷ mouse_press b ∷ clicks n b

clicks_last :
    (n : ℕ) (b : Button) (cs : List Call)
    → clicks n b ++ mouse_release b ∷ mouse_press b ∷ cs ≡ clicks (suc n) b ++ cs
clicks_last zero b cs = refl
clicks_last (suc n) b cs = ap (λ l. mouse_release b ∷ mouse_press b ∷ l) (clicks_last n b cs)

turn_wheel-clicks : (n : ℕ) (b : Button) (cs : List Call) → turn_wheel n b cs ≡ clicks n b ++ cs
unfolding turn_wheel
turn_wheel-clicks zero b cs = refl
turn_wheel-clicks (suc n) b cs = turn_wheel-clicks n b _ ∙ clicks_last n b cs

-- The wheel turned: a press and a release of the button `up` for each step of a positive sum, and of `down` for each
-- step of a negative one.
abbrev pub turns : ℤ → List Call
turns (pos n) = clicks n up
turns (negsuc n) = clicks (suc n) down

send_wheel-turns : (w : ℤ) (cs : List Call) → send_wheel w cs ≡ turns w ++ cs
unfolding send_wheel
send_wheel-turns (pos n) cs = turn_wheel-clicks n up cs
send_wheel-turns (negsuc n) cs = turn_wheel-clicks (suc n) down cs

-- The pointer moved: one motion, and none by zero along both axes.
abbrev pub moved : ℤ → ℤ → List Call
moved (pos zero) (pos zero) = []
moved dx dy = mouse_motion dx dy ∷ []

send_motion-moved : (dx dy : ℤ) (cs : List Call) → send_motion dx dy cs ≡ moved dx dy ++ cs
unfolding send_motion
send_motion-moved (pos zero) (pos zero) cs = refl
send_motion-moved (pos zero) (pos (suc n)) cs = ground arith
send_motion-moved (pos zero) (negsuc n) cs = refl
send_motion-moved (pos (suc n)) dy cs = ground arith
send_motion-moved (negsuc n) dy cs = refl

-- A report after one relative event or more, on a device with nothing pending, moves the pointer by the sums of the
-- movements along each axis, with one motion or, where both sums are zero, none; then it turns the wheel by the
-- sum of its events, with a press and a release of a button for each step: `up` for a positive sum, `down` for
-- a negative one. It leaves nothing pending, and from then on the device is no touch device.
pub handle_events-rel :
    (c : RelCode) (value : ℤ) (es : List (RelCode × ℤ)) (t : Thread) (cs : List Call)
    → t.pending_rel ≡ rel_zero
    → let all = (c, value) ∷ es in
      handle_events (rel_events all) t cs ≡ (
        record t {
          pending_rel = rel_zero;
          pending_rel_fake = record t.pending_rel_fake { ignore = true };
        },
        turns (total is_wheel all) ++ (moved (total is_x all) (total is_y all) ++ cs),
      )
handle_events-rel c value es t cs z =
    let all = (c, value) ∷ es in
    handled c value es t cs z
    ∙ ap (λ sent. (after_report t, sent))
        (send_wheel-turns (total is_wheel all) _
          ∙ ap (λ sent. turns (total is_wheel all) ++ sent)
              (send_motion-moved (total is_x all) (total is_y all) cs))
