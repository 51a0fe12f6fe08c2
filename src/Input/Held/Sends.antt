-- ===== src/Input/Held/Sends.antt =====
-- What src/input.c sends to the SPICE server grabs no device and lets none go.
use spicy_kvm.Prelude.{ℕ, zero, suc, ◌≡◌, refl, ◌∙◌, List, ℤ, pos, negsuc, arith}
use spicy_kvm.Input.Keys.{Key, Button, up, down}
use spicy_kvm.Input.State.{Event, ev_key, ev_syn, syn_report, Call}
use spicy_kvm.Input.Report.{
  Thread, Rel, FakeRel, turn_wheel, send_wheel, send_motion, send_button, send_key, report_rel,
  report_fake, handle_event,
}
use spicy_kvm.Input.Held.{is_held}

turn_wheel_held :
    (n : ℕ) (b : Button) (cs : List Call) (j : ℕ) → is_held (turn_wheel n b cs) j ≡ is_held cs j
unfolding turn_wheel
turn_wheel_held zero b cs j = refl
turn_wheel_held (suc n) b cs j = turn_wheel_held n b _ j

send_wheel_held : (w : ℤ) (cs : List Call) (j : ℕ) → is_held (send_wheel w cs) j ≡ is_held cs j
unfolding send_wheel
send_wheel_held (pos n) cs j = turn_wheel_held n up cs j
send_wheel_held (negsuc n) cs j = turn_wheel_held (suc n) down cs j

send_motion_held :
    (dx dy : ℤ) (cs : List Call) (j : ℕ) → is_held (send_motion dx dy cs) j ≡ is_held cs j
unfolding send_motion
send_motion_held dx dy cs j = ground arith

report_rel_held : (r : Rel) (cs : List Call) (j : ℕ) → is_held (report_rel r cs) j ≡ is_held cs j
unfolding report_rel
report_rel_held r cs j =
    ground
      (arith, send_wheel_held r.wheel (send_motion r.dx r.dy cs) j, send_motion_held r.dx r.dy cs j)

report_fake_held :
    (f : FakeRel) (cs : List Call) (j : ℕ) → is_held (report_fake f cs) j ≡ is_held cs j
unfolding report_fake
report_fake_held f cs j = ground (arith, send_motion_held f.dx f.dy cs j)

send_button_held :
    (k : Key) (value : ℤ) (cs : List Call) (j : ℕ)
    → is_held (send_button k value cs) j ≡ is_held cs j
unfolding send_button
send_button_held k value cs j = ground arith

send_key_held :
    (k : Key) (value : ℤ) (cs : List Call) (j : ℕ) → is_held (send_key k value cs) j ≡ is_held cs j
unfolding send_key
send_key_held k value cs j = ground arith

pub handle_event_held :
    (ev : Event) (t : Thread) (cs : List Call) (j : ℕ)
    → is_held (handle_event ev t cs).1 j ≡ is_held cs j
unfolding handle_event
handle_event_held (ev_key k value) t cs j =
    send_key_held k value (send_button k value cs) j ∙ send_button_held k value cs j
handle_event_held (ev_syn syn_report) t cs j =
    report_fake_held t.pending_rel_fake (report_rel t.pending_rel cs) j
    ∙ report_rel_held t.pending_rel cs j
handle_event_held _ t cs j = refl
