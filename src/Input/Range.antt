-- ===== src/Input/Range.antt =====
-- Touch devices of src/input.c: how far a movement that is sent can be.
use spicy_kvm.Prelude.{
  ◌+◌, ◌≤◌, ◌≡◌, refl, ap, Bool, true, false, not, ◌&&◌, List, [], ◌∷◌, ℤ, pos, ◌+ℤ◌, ◌-ℤ◌, is_num,
  pos_part, neg_part, int_laws, arith, inl, inr, Bool-cases,
}
use spicy_kvm.Input.Keys.{Key, btn_touch}
use spicy_kvm.Input.State.{
  abs_x, abs_y, abs_other, syn_report, syn_other, Event, ev_key, ev_rel, ev_abs, ev_syn, ev_other,
  Call, mouse_motion,
}
use spicy_kvm.Input.Motion.{handle_events}
use spicy_kvm.Input.Report.{
  FakeRel, Thread, send_key, send_button, on_touch, on_abs, send_motion, report_rel, report_fake,
  handle_event,
}

infix 50 ◌≤ℤ◌
abbrev pub ◌≤ℤ◌ : ℤ → ℤ → Type 0
a ≤ℤ b = pos_part a + neg_part b ≤ pos_part b + neg_part a

module _ (lo hi : ℤ) where
  abbrev pub Between : ℤ → Type 0
  Between v = (lo ≤ℤ v) × (v ≤ℤ hi)

  -- A movement from one position of the range to another.
  abbrev pub IsShort : ℤ → Type 0
  IsShort d = (lo -ℤ hi ≤ℤ d) × (d ≤ℤ hi -ℤ lo)

  -- An axis: nothing is pending while no position is known; else the position is in the range, and so is
  -- the one from which what is pending leads to it.
  pub record IsInside (known : Bool) (d c : ℤ) : Type 0 where
    pub rests : known ≡ false → d ≡ pos 0
    pub here : known ≡ true → Between c
    pub from : known ≡ true → Between (c -ℤ d)

  back : (d v c : ℤ) → v -ℤ (d +ℤ (v -ℤ c)) ≡ c -ℤ d
  back d v c = omega int_laws

  advance : (d v c : ℤ) → Between v → IsInside true d c → IsInside true (d +ℤ (v -ℤ c)) v
  advance d v c b w = record {
    rests = λ h. cc;
    here = λ _. b;
    from = λ _. rw (back d v c) (w.from refl);
  }

  at_once : (v : ℤ) → v -ℤ pos 0 ≡ v
  at_once v = omega int_laws

  appear : (v : ℤ) → Between v → IsInside true (pos 0) v
  appear v b = record { rests = λ _. refl; here = λ _. b; from = λ _. rw (at_once v) b }

  settle : (k : Bool) (d c : ℤ) → IsInside k d c → IsInside k (pos 0) c
  settle k d c w = record {
    rests = λ _. refl;
    here = w.here;
    from = λ h. rw (at_once c) (w.here h);
  }

  forget : (c : ℤ) → IsInside false (pos 0) c
  forget c = record { rests = λ _. refl; here = λ h. cc; from = λ h. cc }

  IsShort-IsInside : (k : Bool) (d c : ℤ) → lo ≤ℤ hi → IsInside k d c → IsShort d
  IsShort-IsInside true d c h w =
      let (above, below) = w.here refl in
      let (above', below') = w.from refl in
      (
        omega (int_laws, above, below, above', below'),
        omega (int_laws, above, below, above', below'),
      )
  IsShort-IsInside false d c h w =
      let zero_d = w.rests refl in
      (
        omega (int_laws, h, ap pos_part zero_d, ap neg_part zero_d),
        omega (int_laws, h, ap pos_part zero_d, ap neg_part zero_d),
      )

-- The ranges of the two axes.
module _ (lx hx ly hy : ℤ) where
  -- What is pending is inside the ranges, and there are no relative events.
  pub record IsPlaced (t : Thread) : Type 0 where
    pub no_rel : t.pending_rel.ok ≡ false
    pub along_x : IsInside lx hx t.pending_rel_fake.x t.pending_rel_fake.dx t.pending_rel_fake.cx
    pub along_y : IsInside ly hy t.pending_rel_fake.y t.pending_rel_fake.dy t.pending_rel_fake.cy

  -- An event of a device that has these ranges, and no relative axes.
  abbrev pub IsRanged : Event → Type 0
  IsRanged (ev_abs abs_x v) = Between lx hx v
  IsRanged (ev_abs abs_y v) = Between ly hy v
  IsRanged (ev_rel c v) = ⊥
  IsRanged ev = Unit

  abbrev pub AllRanged : List Event → Type 0
  AllRanged [] = Unit
  AllRanged (ev ∷ evs) = IsRanged ev × AllRanged evs

  -- No movement is further than from one end of a range to the other.
  abbrev pub AllShort : List Call → Type 0
  AllShort [] = Unit
  AllShort (mouse_motion dx dy ∷ cs) = IsShort lx hx dx × IsShort ly hy dy × AllShort cs
  AllShort (_ ∷ cs) = AllShort cs

  on_touch-IsInside :
      (k : Key) (value : ℤ) (f : FakeRel)
      → IsInside lx hx f.x f.dx f.cx
      → IsInside ly hy f.y f.dy f.cy
      → let g = on_touch k value f in IsInside lx hx g.x g.dx g.cx × IsInside ly hy g.y g.dy g.cy
  unfolding on_touch
  on_touch-IsInside btn_touch value f v w = elim (Bool-cases (is_num value 1)) [
    | inl p ↦ elim (Bool-cases (is_num value 0)) [
      | inl q ↦ rw (p, q) (forget lx hx f.cx, forget ly hy f.cy)
      | inr q ↦ rw (p, q) (v, w)
    ]
    | inr p ↦ elim (Bool-cases (is_num value 0)) [
      | inl q ↦ rw (p, q) (forget lx hx f.cx, forget ly hy f.cy)
      | inr q ↦ rw (p, q) (v, w)
    ]
  ]
  on_touch-IsInside k value f v w = (v, w)

  AllShort-send_keys :
      (k : Key) (value : ℤ) (cs : List Call)
      → AllShort cs
      → AllShort (send_key k value (send_button k value cs))
  unfolding send_key send_button
  AllShort-send_keys k value cs a = ground arith

  AllShort-send_motion :
      (dx dy : ℤ) (cs : List Call)
      → IsShort lx hx dx
      → IsShort ly hy dy
      → AllShort cs
      → AllShort (send_motion dx dy cs)
  unfolding send_motion
  AllShort-send_motion dx dy cs v w a = elim (Bool-cases (is_num dx 0 && is_num dy 0)) [
    | inl p ↦ rw p a
    | inr p ↦ rw p (v, w, a)
  ]

  module _ (ok_x : lx ≤ℤ hx) (ok_y : ly ≤ℤ hy) where
    handle_event-IsPlaced :
        (ev : Event) (t : Thread) (cs : List Call)
        → IsRanged ev
        → IsPlaced t
        → AllShort cs
        → let (t', cs') = handle_event ev t cs in IsPlaced t' × AllShort cs'
    unfolding handle_event on_abs report_rel report_fake
    handle_event-IsPlaced (ev_key k value) t cs r w a =
        let (x, y) = on_touch-IsInside k value t.pending_rel_fake w.along_x w.along_y in
        (record { no_rel = w.no_rel; along_x = x; along_y = y }, AllShort-send_keys k value cs a)
    handle_event-IsPlaced (ev_rel c value) t cs r w a = absurd r
    handle_event-IsPlaced (ev_abs abs_x v) t cs r w a =
        let f = t.pending_rel_fake in
        elim (Bool-cases f.x) [
          | inl e ↦
              let x : IsInside lx hx true f.dx f.cx = rw e at w.along_x in
              rw e (
                record {
                  no_rel = w.no_rel;
                  along_x = advance lx hx f.dx v f.cx r x;
                  along_y = w.along_y;
                },
                a,
              )
          | inr e ↦
              rw e
                (record { no_rel = w.no_rel; along_x = appear lx hx v r; along_y = w.along_y }, a)
        ]
    handle_event-IsPlaced (ev_abs abs_y v) t cs r w a =
        let f = t.pending_rel_fake in
        elim (Bool-cases f.y) [
          | inl e ↦
              let y : IsInside ly hy true f.dy f.cy = rw e at w.along_y in
              rw e (
                record {
                  no_rel = w.no_rel;
                  along_x = w.along_x;
                  along_y = advance ly hy f.dy v f.cy r y;
                },
                a,
              )
          | inr e ↦
              rw e
                (record { no_rel = w.no_rel; along_x = w.along_x; along_y = appear ly hy v r }, a)
        ]
    handle_event-IsPlaced (ev_abs abs_other v) t cs r w a =
        (record { no_rel = w.no_rel; along_x = w.along_x; along_y = w.along_y }, a)
    handle_event-IsPlaced (ev_syn syn_report) t cs r w a =
        let f = t.pending_rel_fake in
        elim (Bool-cases (not f.ignore && f.touch)) [
          | inl e ↦
              rw (w.no_rel, e)
                (
                  record {
                    no_rel = refl;
                    along_x = settle lx hx f.x f.dx f.cx w.along_x;
                    along_y = settle ly hy f.y f.dy f.cy w.along_y;
                  },
                  AllShort-send_motion f.dx f.dy cs
                      (IsShort-IsInside lx hx f.x f.dx f.cx ok_x w.along_x)
                      (IsShort-IsInside ly hy f.y f.dy f.cy ok_y w.along_y) a,
                )
          | inr e ↦
              rw (w.no_rel, e)
                (record { no_rel = refl; along_x = w.along_x; along_y = w.along_y }, a)
        ]
    handle_event-IsPlaced (ev_syn syn_other) t cs r w a = (w, a)
    handle_event-IsPlaced ev_other t cs r w a = (w, a)

    -- Over any events of a touch device, whose positions are in the ranges of its two axes, what is pending
    -- stays inside the ranges, and no movement that is sent is further than from one end of a range to the
    -- other; if that was so before, and there are no relative events.
    pub handle_events-AllShort :
        (evs : List Event) (t : Thread) (cs : List Call)
        → AllRanged evs
        → IsPlaced t
        → AllShort cs
        → let (t', cs') = handle_events evs t cs in IsPlaced t' × AllShort cs'
    handle_events-AllShort [] t cs r w a = (w, a)
    handle_events-AllShort (ev ∷ evs) t cs r w a =
        let (t', cs') = handle_event ev t cs in
        let (w', a') = handle_event-IsPlaced ev t cs r.0 w a in
        handle_events-AllShort evs t' cs' r.1 w' a'
