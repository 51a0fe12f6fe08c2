-- ===== src/Tests/Pointer.antt =====
-- Pointers of src/input.c.
use spicy_kvm.Prelude.{◌≡◌, refl, true, List, [], ◌∷◌, ◌++◌, ℤ, pos, negsuc, ◌+ℤ◌, ◌-ℤ◌, arith}
use spicy_kvm.Input.Keys.{Button, btn_touch, linux_to_ps2, linux_to_spice}
use spicy_kvm.Input.State.{
  RelCode, rel_x, rel_y, rel_wheel, abs_x, abs_y, syn_report, Event, ev_key, ev_abs, ev_syn,
  mouse_press, mouse_release, mouse_motion,
}
use spicy_kvm.Input.Report.{
  Thread, rel_zero, thread_start, on_rel, send_wheel, turn_wheel, send_motion, report_rel,
  report_fake, handle_event, on_abs, on_touch, send_key, send_button,
}
use spicy_kvm.Input.Motion.{
  handle_events, total, is_x, is_y, is_wheel, rel_events, turns, handle_events-rel,
}
use spicy_kvm.Input.Motion
use spicy_kvm.Input.Range.{IsPlaced, AllRanged, AllShort, handle_events-AllShort}
use spicy_kvm.Input.Strokes.{moved_x, moved_y, IsTouched, handle_events-strokes}

abbrev moves : List (RelCode × ℤ)
moves = (rel_y, negsuc 1) ∷ (rel_wheel, negsuc 1) ∷ (rel_x, pos 4) ∷ []

-- Right 7 and up 2, then two turns of the wheel.
moved :
    (handle_events (rel_events ((rel_x, pos 3) ∷ moves)) thread_start []).1
    ≡ mouse_release Button.down
      ∷ mouse_press Button.down
      ∷ mouse_release Button.down
      ∷ mouse_press Button.down
      ∷ mouse_motion (pos 7) (negsuc 1)
      ∷ []
unfolding handle_event on_rel report_rel report_fake send_wheel turn_wheel send_motion ◌+ℤ◌
moved = refl

handle_events-rel_example :
    let all = (rel_x, pos 3) ∷ moves in
    handle_events (rel_events all) thread_start [] ≡ (
      record thread_start {
        pending_rel = rel_zero;
        pending_rel_fake = record thread_start.pending_rel_fake { ignore = true };
      },
      turns (total is_wheel all) ++ (Motion.moved (total is_x all) (total is_y all) ++ []),
    )
handle_events-rel_example = handle_events-rel rel_x (pos 3) moves thread_start [] refl

-- A finger at (10, 20).
abbrev touched_at : Thread
touched_at = record thread_start {
  pending_rel_fake = record thread_start.pending_rel_fake {
    x = true;
    y = true;
    touch = true;
    cx = pos 10;
    cy = pos 20;
  };
}

touched_at-IsTouched : IsTouched touched_at
touched_at-IsTouched = record {
  no_rel = refl;
  heeded = refl;
  touched = refl;
  known_x = refl;
  known_y = refl;
}

abbrev stroke : List Event
stroke = ev_abs abs_x (pos 12) ∷ ev_syn syn_report ∷ ev_abs abs_y (pos 15) ∷ []

handle_events-strokes_example :
    let (t', cs') = handle_events (stroke ++ ev_syn syn_report ∷ []) touched_at [] in
    (moved_x cs' +ℤ pos 10 ≡ pos 0 +ℤ t'.pending_rel_fake.cx)
    × (moved_y cs' +ℤ pos 20 ≡ pos 0 +ℤ t'.pending_rel_fake.cy)
handle_events-strokes_example =
    handle_events-strokes stroke touched_at [] refl touched_at-IsTouched refl refl

-- A finger goes from one corner to near the other, and is reported there.
abbrev swipe : List Event
swipe =
    ev_key btn_touch (pos 1)
    ∷ ev_abs abs_x (pos 0)
    ∷ ev_abs abs_y (pos 0)
    ∷ ev_syn syn_report
    ∷ ev_abs abs_x (pos 900)
    ∷ ev_abs abs_y (pos 500)
    ∷ ev_syn syn_report
    ∷ []

swipe-AllRanged : AllRanged (pos 0) (pos 1000) (pos 0) (pos 600) swipe
swipe-AllRanged = ground arith

start-IsPlaced : IsPlaced (pos 0) (pos 1000) (pos 0) (pos 600) thread_start
start-IsPlaced = record {
  no_rel = refl;
  along_x = record { rests = λ h. refl; here = λ h. cc; from = λ h. cc };
  along_y = record { rests = λ h. refl; here = λ h. cc; from = λ h. cc };
}

swiped : (handle_events swipe thread_start []).1 ≡ mouse_motion (pos 900) (pos 500) ∷ []
unfolding handle_event on_abs on_touch report_rel report_fake send_motion send_key send_button
    linux_to_ps2 linux_to_spice ◌+ℤ◌ ◌-ℤ◌
swiped = refl

handle_events-AllShort_example :
    let (t', cs') = handle_events swipe thread_start [] in
    IsPlaced (pos 0) (pos 1000) (pos 0) (pos 600) t'
    × AllShort (pos 0) (pos 1000) (pos 0) (pos 600) cs'
handle_events-AllShort_example =
    handle_events-AllShort (pos 0) (pos 1000) (pos 0) (pos 600) (omega arith) (omega arith) swipe
      thread_start [] swipe-AllRanged start-IsPlaced tt
