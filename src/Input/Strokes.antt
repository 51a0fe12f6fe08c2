-- ===== src/Input/Strokes.antt =====
-- Touch devices of src/input.c, whose positions are turned into movements.
use spicy_kvm.Prelude.{
  ◌≡◌, refl, ap, Bool, true, false, ◌&&◌, List, [], ◌∷◌, ◌++◌, ℤ, pos, ◌+ℤ◌, ◌-ℤ◌, pos_part,
  neg_part, int_laws, arith,
}
use spicy_kvm.Input.State.{
  abs_x, abs_y, syn_report, Event, ev_key, ev_rel, ev_abs, ev_syn, Call, mouse_motion,
}
use spicy_kvm.Input.Motion.{handle_events}
use spicy_kvm.Input.Report.{
  FakeRel, Thread, on_abs, send_motion, report_rel, report_fake, handle_event,
}

-- How far the pointer of the guest was moved along each axis.
abbrev pub moved_x : List Call → ℤ
moved_x [] = pos 0
moved_x (mouse_motion dx dy ∷ cs) = moved_x cs +ℤ dx
moved_x (_ ∷ cs) = moved_x cs

abbrev pub moved_y : List Call → ℤ
moved_y [] = pos 0
moved_y (mouse_motion dx dy ∷ cs) = moved_y cs +ℤ dy
moved_y (_ ∷ cs) = moved_y cs

-- The events that a finger or a pen sends while it stays down.
abbrev pub is_stroke : Event → Bool
is_stroke (ev_abs c value) = true
is_stroke (ev_syn c) = true
is_stroke _ = false

abbrev pub are_strokes : List Event → Bool
are_strokes [] = true
are_strokes (ev ∷ evs) = is_stroke ev && are_strokes evs

-- A touch device that is touched, and whose first position along each axis is known.
pub record IsTouched (t : Thread) : Type 0 where
  pub no_rel : t.pending_rel.ok ≡ false
  pub heeded : t.pending_rel_fake.ignore ≡ false
  pub touched : t.pending_rel_fake.touch ≡ true
  pub known_x : t.pending_rel_fake.x ≡ true
  pub known_y : t.pending_rel_fake.y ≡ true

-- What was sent and what is pending make up the way to the current position.
abbrev Ahead :
    (FakeRel → ℤ)
    → (FakeRel → ℤ)
    → (List Call → ℤ)
    → Thread × List Call
    → Thread × List Call
    → Type 0
Ahead d c moved (t, cs) (t', cs') =
    moved cs' +ℤ d t'.pending_rel_fake +ℤ c t.pending_rel_fake
    ≡ moved cs +ℤ d t.pending_rel_fake +ℤ c t'.pending_rel_fake

+ℤ-zero : (a : ℤ) → a +ℤ pos 0 ≡ a
+ℤ-zero a = omega int_laws

stride : (m d v c : ℤ) → m +ℤ (d +ℤ (v -ℤ c)) +ℤ c ≡ m +ℤ d +ℤ v
stride m d v c = omega int_laws

stroke_step :
    (ev : Event) (t : Thread) (cs : List Call)
    → is_stroke ev ≡ true
    → IsTouched t
    → let (t', cs') = handle_event ev t cs in
      IsTouched t'
      × Ahead (λ f. f.dx) (λ f. f.cx) moved_x (t, cs) (t', cs')
      × Ahead (λ f. f.dy) (λ f. f.cy) moved_y (t, cs) (t', cs')
unfolding handle_event on_abs report_rel report_fake send_motion
stroke_step (ev_abs abs_x value) t cs s w =
    let f = t.pending_rel_fake in ground (arith, stride (moved_x cs) f.dx value f.cx)
stroke_step (ev_abs abs_y value) t cs s w =
    ground (arith, stride (moved_y cs) t.pending_rel_fake.dy value t.pending_rel_fake.cy)
stroke_step (ev_syn syn_report) t cs s w = ground (
  arith,
  +ℤ-zero (moved_x cs),
  +ℤ-zero (moved_y cs),
  +ℤ-zero (moved_x cs +ℤ t.pending_rel_fake.dx),
  +ℤ-zero (moved_y cs +ℤ t.pending_rel_fake.dy),
)
stroke_step (ev_key k value) t cs s w = cc
stroke_step (ev_rel c value) t cs s w = cc
stroke_step _ t cs s w = ground arith

chain_x :
    (m m' m'' d d' d'' c c' c'' : ℤ)
    → m' +ℤ d' +ℤ c ≡ m +ℤ d +ℤ c'
    → m'' +ℤ d'' +ℤ c' ≡ m' +ℤ d' +ℤ c''
    → m'' +ℤ d'' +ℤ c ≡ m +ℤ d +ℤ c''
chain_x m m' m'' d d' d'' c c' c'' p q =
    omega (int_laws, ap pos_part p, ap neg_part p, ap pos_part q, ap neg_part q)

strokes :
    (evs : List Event) (t : Thread) (cs : List Call)
    → are_strokes evs ≡ true
    → IsTouched t
    → let (t', cs') = handle_events evs t cs in
      IsTouched t'
      × Ahead (λ f. f.dx) (λ f. f.cx) moved_x (t, cs) (t', cs')
      × Ahead (λ f. f.dy) (λ f. f.cy) moved_y (t, cs) (t', cs')
strokes [] t cs s w = (w, refl, refl)
strokes (ev ∷ evs) t cs s w =
    let one = stroke_step ev t cs (ground arith) w in
    let (t', cs') = handle_event ev t cs in
    let rest = strokes evs t' cs' (ground arith) one.0 in
    let (t'', cs'') = handle_events evs t' cs' in
    (
      rest.0,
      chain_x (moved_x cs) (moved_x cs') (moved_x cs'') t.pending_rel_fake.dx t'.pending_rel_fake.dx
          t''.pending_rel_fake.dx t.pending_rel_fake.cx t'.pending_rel_fake.cx
          t''.pending_rel_fake.cx one.1 rest.1,
      chain_x (moved_y cs) (moved_y cs') (moved_y cs'') t.pending_rel_fake.dy t'.pending_rel_fake.dy
          t''.pending_rel_fake.dy t.pending_rel_fake.cy t'.pending_rel_fake.cy
          t''.pending_rel_fake.cy one.2 rest.2,
    )

are_strokes-append :
    (evs : List Event) → are_strokes evs ≡ true → are_strokes (evs ++ ev_syn syn_report ∷ []) ≡ true
are_strokes-append [] s = refl
are_strokes-append (ev ∷ evs) s = ground (arith, are_strokes-append evs)

report_settles :
    (t : Thread) (cs : List Call)
    → IsTouched t
    → let t' = (handle_event (ev_syn syn_report) t cs).0 in
      (t'.pending_rel_fake.dx ≡ pos 0) × (t'.pending_rel_fake.dy ≡ pos 0)
unfolding handle_event
report_settles t cs w = ground arith

reported :
    (evs : List Event) (t : Thread) (cs : List Call)
    → are_strokes evs ≡ true
    → IsTouched t
    → let t' = (handle_events (evs ++ ev_syn syn_report ∷ []) t cs).0 in
      (t'.pending_rel_fake.dx ≡ pos 0) × (t'.pending_rel_fake.dy ≡ pos 0)
reported [] t cs s w = report_settles t cs w
reported (ev ∷ evs) t cs s w =
    let (t', cs') = handle_event ev t cs in
    reported evs t' cs' (ground arith) (stroke_step ev t cs (ground arith) w).0

settle :
    (m m' d d' c c' : ℤ) → d ≡ pos 0 → d' ≡ pos 0 → m' +ℤ d' +ℤ c ≡ m +ℤ d +ℤ c' → m' +ℤ c ≡ m +ℤ c'
settle m m' d d' c c' z z' e =
    cc (ap (λ a. m +ℤ a) z, ap (λ a. m' +ℤ a) z', +ℤ-zero m, +ℤ-zero m', e)

-- While a touch device stays touched, the movements that its reports send add up to the way from
-- one position to the other along each axis: over any positions and reports, with a report last,
-- and nothing pending before them.
pub handle_events-strokes :
    (evs : List Event) (t : Thread) (cs : List Call)
    → are_strokes evs ≡ true
    → IsTouched t
    → t.pending_rel_fake.dx ≡ pos 0
    → t.pending_rel_fake.dy ≡ pos 0
    → let (t', cs') = handle_events (evs ++ ev_syn syn_report ∷ []) t cs in
      (moved_x cs' +ℤ t.pending_rel_fake.cx ≡ moved_x cs +ℤ t'.pending_rel_fake.cx)
      × (moved_y cs' +ℤ t.pending_rel_fake.cy ≡ moved_y cs +ℤ t'.pending_rel_fake.cy)
handle_events-strokes evs t cs s w zx zy =
    let all = strokes (evs ++ ev_syn syn_report ∷ []) t cs (are_strokes-append evs s) w in
    let (t', cs') = handle_events (evs ++ ev_syn syn_report ∷ []) t cs in
    let done = reported evs t cs s w in
    (
      settle (moved_x cs) (moved_x cs') _ _ t.pending_rel_fake.cx t'.pending_rel_fake.cx zx done.0
          all.1,
      settle (moved_y cs) (moved_y cs') _ _ t.pending_rel_fake.cy t'.pending_rel_fake.cy zy done.1
          all.2,
    )
