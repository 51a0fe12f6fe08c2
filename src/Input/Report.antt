-- ===== src/Input/Report.antt =====
-- src/input.c, `input_device_thread`: the loop variables of a device thread, and what it sends to
-- the SPICE server for an event of a grabbed device. The counters are `int`; the model has no bound
-- on them.
use spicy_kvm.Prelude.{
  ℕ, zero, suc, Bool, true, false, not, ◌&&◌, Option, none, some, List, ◌∷◌, ◌==◌, ℤ, pos, negsuc,
  ◌+ℤ◌, ◌-ℤ◌, is_num, if◌then◌else◌,
}
use spicy_kvm.Input.Keys.{Key, btn_touch, Button, down, up, linux_to_ps2, linux_to_spice}
use spicy_kvm.Input.State.{
  RelCode, rel_x, rel_y, rel_wheel, rel_other, AbsCode, abs_x, abs_y, abs_other, syn_report, Event,
  ev_key, ev_rel, ev_abs, ev_syn, Call, mouse_press, mouse_release, key_down, key_up, mouse_motion,
}

-- `pending_rel`
pub record Rel : Type 0 where
  pub ok : Bool
  pub dx : ℤ
  pub dy : ℤ
  pub wheel : ℤ

-- `pending_rel_fake`
pub record FakeRel : Type 0 where
  pub ignore : Bool
  pub x : Bool
  pub y : Bool
  pub touch : Bool
  pub cx : ℤ
  pub cy : ℤ
  pub dx : ℤ
  pub dy : ℤ

-- The loop variables; -1 in `sync` is `none`.
pub record Thread : Type 0 where
  pub pending_rel : Rel
  pub pending_rel_fake : FakeRel
  pub sync : Option ℕ

abbrev pub rel_zero : Rel
rel_zero = record { ok = false; dx = pos 0; dy = pos 0; wheel = pos 0 }

abbrev pub fake_zero : FakeRel
fake_zero = record {
  ignore = false;
  x = false;
  y = false;
  touch = false;
  cx = pos 0;
  cy = pos 0;
  dx = pos 0;
  dy = pos 0;
}

abbrev pub thread_start : Thread
thread_start = record { pending_rel = rel_zero; pending_rel_fake = fake_zero; sync = none }

unfoldable pub send_button : Key → ℤ → List Call → List Call
send_button k value calls = elim (linux_to_spice k) [
  | none ↦ calls
  | some b ↦
      let pressed = if is_num value 1 then mouse_press b ∷ calls else calls in
      if is_num value 0 then mouse_release b ∷ pressed else pressed
]

unfoldable pub send_key : Key → ℤ → List Call → List Call
send_key k value calls =
    if linux_to_ps2 k == 0
    then calls
    else (let pressed = if is_num value 1 then key_down (linux_to_ps2 k) ∷ calls else calls in
        if is_num value 0 then key_up (linux_to_ps2 k) ∷ pressed else pressed)

-- `if (ev.code == BTN_TOUCH)`
unfoldable pub on_touch : Key → ℤ → FakeRel → FakeRel
on_touch btn_touch value f =
    let g = if is_num value 1 then record f { touch = true } else f in
    if is_num value 0
    then record g { touch = false; x = false; y = false; dx = pos 0; dy = pos 0 }
    else g
on_touch _ value f = f

unfoldable pub on_rel : RelCode → ℤ → Rel → Rel
on_rel rel_x value r = record r { ok = true; dx = r.dx +ℤ value }
on_rel rel_y value r = record r { ok = true; dy = r.dy +ℤ value }
on_rel rel_wheel value r = record r { ok = true; wheel = r.wheel +ℤ value }
on_rel rel_other value r = record r { ok = true }

unfoldable pub on_abs : AbsCode → ℤ → FakeRel → FakeRel
on_abs abs_x value f =
    if f.x
    then record f { dx = f.dx +ℤ (value -ℤ f.cx); cx = value }
    else record f { x = true; dx = pos 0; cx = value }
on_abs abs_y value f =
    if f.y
    then record f { dy = f.dy +ℤ (value -ℤ f.cy); cy = value }
    else record f { y = true; dy = pos 0; cy = value }
on_abs abs_other value f = f

-- `while (wheel++)` and `while (wheel--)`: the rounds left until the counter passes 0.
unfoldable pub turn_wheel : ℕ → Button → List Call → List Call
turn_wheel zero b calls = calls
turn_wheel (suc n) b calls = turn_wheel n b (mouse_release b ∷ mouse_press b ∷ calls)

unfoldable pub send_wheel : ℤ → List Call → List Call
send_wheel (negsuc n) calls = turn_wheel (suc n) down calls
send_wheel (pos n) calls = turn_wheel n up calls

-- `if (dx || dy) purespice_mouseMotion(dx, dy)`
unfoldable pub send_motion : ℤ → ℤ → List Call → List Call
send_motion dx dy calls = if is_num dx 0 && is_num dy 0 then calls else mouse_motion dx dy ∷ calls

-- A report of `pending_rel`.
unfoldable pub report_rel : Rel → List Call → List Call
report_rel r calls = if r.ok then send_wheel r.wheel (send_motion r.dx r.dy calls) else calls

-- A report of `pending_rel_fake`.
unfoldable pub report_fake : FakeRel → List Call → List Call
report_fake f calls = if not f.ignore && f.touch then send_motion f.dx f.dy calls else calls

-- The rest of the loop's body, for an event of a grabbed device.
unfoldable pub handle_event : Event → Thread → List Call → Thread × List Call
handle_event (ev_key k value) t calls = (
  record t { pending_rel_fake = on_touch k value t.pending_rel_fake },
  send_key k value (send_button k value calls),
)
handle_event (ev_rel c value) t calls = (
  record t {
    pending_rel = on_rel c value t.pending_rel;
    pending_rel_fake = record t.pending_rel_fake { ignore = true };
  },
  calls,
)
handle_event (ev_abs c value) t calls =
    (record t { pending_rel_fake = on_abs c value t.pending_rel_fake }, calls)
handle_event (ev_syn syn_report) t calls = (
  record t {
    pending_rel = if t.pending_rel.ok then rel_zero else t.pending_rel;
    pending_rel_fake =
        if not t.pending_rel_fake.ignore && t.pending_rel_fake.touch
        then record t.pending_rel_fake { dx = pos 0; dy = pos 0 }
        else t.pending_rel_fake;
  },
  report_fake t.pending_rel_fake (report_rel t.pending_rel calls),
)
handle_event _ t calls = (t, calls)
