-- ===== src/Input/Races/Told.antt =====
-- What the guest of src/input.c takes to be pressed where the rounds of the threads race with each other.
use spicy_kvm.Prelude.{
  ℕ, ◌<◌, ◌≡◌, refl, ◌∙◌, ap, sym, false, Option, none, some, List, [], ◌∷◌, ◌++◌, arith, inl, inr,
  Option-cases,
}
use spicy_kvm.Input.Keys.{Button}
use spicy_kvm.Input.State.{Event, ev_key, Read, again, nodev, failed, success, sync, Input, Env}
use spicy_kvm.Input.Report.{Thread}
use spicy_kvm.Input.Heard.{sent, sent-on_grab_key, sent-claim_mouse, sent-lose_device}
use spicy_kvm.Input.Observer.{Observer, becomes_all, becomes_all-append}
use spicy_kvm.Input.Told.{sees-plug}
use spicy_kvm.Input.Guest.{has_key, keys_after, keys}
use spicy_kvm.Input.Buttons.{is_wheel, has_button, button_after, buttons}
use spicy_kvm.Input.Races.{
  Phase, idle, claimed, passed, Place, Fine, FineMove, reads, checks, sends, adds, begin,
  begin_event, begins, check, send, on_place, fine_move, fine_moves,
}

-- The event that a thread has still to send after its tests.
abbrev pub waiting : Phase → List Event
waiting (passed ev) = ev ∷ []
waiting _ = []

abbrev pub waiting_at : Option Place → List Event
waiting_at none = []
waiting_at (some p) = waiting p.phase

-- The events that are sent, in the order in which they are.
abbrev pub sent_by : FineMove → Fine → List Event
sent_by (sends i) f = waiting_at (f.places i)
sent_by _ f = []

abbrev pub all_sent : List FineMove → Fine → List Event
all_sent [] f = []
all_sent (m ∷ ms) f = sent_by m f ++ all_sent ms (fine_move m f)

module _ (env : Env) (i : ℕ) (s : Input) (t : Thread) where
  sent-begin_event : (ev : Event) → sent (begin_event env i ev s t).input.calls ≡ sent s.calls
  unfolding begin_event
  sent-begin_event (ev_key k value) =
      ground (arith, sent-on_grab_key env i value s, sent-claim_mouse env i s (ev_key k value))
  sent-begin_event ev = sent-claim_mouse env i s ev

sent-begin :
    (env : Env) (i : ℕ) (r : Read) (s : Input) (t : Thread)
    → sent (begin env i r s t).input.calls ≡ sent s.calls
unfolding begin
sent-begin env i again s t = refl
sent-begin env i nodev s t = sent-lose_device env i s
sent-begin env i failed s t = sent-lose_device env i s
sent-begin env i (success ev) s t = sent-begin_event env i s t ev
sent-begin env i (sync ev) s t = sent-begin_event env i s _ ev

sent-begins :
    (env : Env) (i : ℕ) (r : Read) (f : Fine) (p : Place)
    → sent (begins env i r f p).input.calls ≡ sent f.input.calls
sent-begins env i r f p = ground (arith, sent-begin env i r f.input p.thread)

calls-check : (i : ℕ) (f : Fine) (p : Place) → (check i f p).input.calls ≡ f.input.calls
calls-check i f p = ground arith

module _ (o : Observer) where
  sees-send :
      (i : ℕ) (f : Fine) (p : Place)
      → o.sees (send i f p).input.calls
        ≡ becomes_all o.becomes (waiting p.phase) (o.sees f.input.calls)
  sees-send i f p = at_phase p.phase refl
    where
      at_phase :
          (ph : Phase)
          → p.phase ≡ ph
          → o.sees (send i f p).input.calls
            ≡ becomes_all o.becomes (waiting p.phase) (o.sees f.input.calls)
      at_phase idle e = rw (e, send) refl
      at_phase (claimed ev) e = rw (e, send) refl
      at_phase (passed ev) e = rw (e, send) (o.sees-handle_event ev p.thread f.input.calls)

  sees-fine_move :
      (m : FineMove) (f : Fine)
      → o.sees (fine_move m f).input.calls
        ≡ becomes_all o.becomes (sent_by m f) (o.sees f.input.calls)
  sees-fine_move (reads env i r) f = elim (Option-cases (f.places i)) [
    | inl e ↦ rw (e, fine_move, on_place) refl
    | inr (p, e) ↦ rw (e, fine_move, on_place) (o.sees-of_sent _ _ (sent-begins env i r f p))
  ]
  sees-fine_move (checks i) f = elim (Option-cases (f.places i)) [
    | inl e ↦ rw (e, fine_move, on_place) refl
    | inr (p, e) ↦ rw (e, fine_move, on_place) (ap o.sees (calls-check i f p))
  ]
  sees-fine_move (sends i) f = elim (Option-cases (f.places i)) [
    | inl e ↦ rw (e, fine_move, on_place) refl
    | inr (p, e) ↦ rw (e, fine_move, on_place) (sees-send i f p)
  ]
  sees-fine_move (adds a p codes) f = sees-plug o a p codes f.input

  sees-fine_moves :
      (ms : List FineMove) (f : Fine)
      → o.sees (fine_moves ms f).input.calls
        ≡ becomes_all o.becomes (all_sent ms f) (o.sees f.input.calls)
  sees-fine_moves [] f = refl
  sees-fine_moves (m ∷ ms) f =
      sees-fine_moves ms (fine_move m f)
      ∙ ap (becomes_all o.becomes (all_sent ms (fine_move m f))) (sees-fine_move m f)
      ∙ sym (
          becomes_all-append o.becomes (sent_by m f) (all_sent ms (fine_move m f))
            (o.sees f.input.calls))

-- Over the parts of the rounds of all devices, and devices that appear, in any order, a key or a button is
-- pressed for the guest exactly if the last event of it that a thread sent pressed it; or if none was sent
-- and it was pressed before. Keys are told apart by their scancode, which is not 0, and the button is none of the two
-- that are the wheel.
pub has_key-fine_moves :
    (c : ℕ) (b : Button) (ms : List FineMove) (f : Fine)
    → 0 < c
    → is_wheel b ≡ false
    → let f' = fine_moves ms f in
      (has_key c f'.input.calls ≡ keys_after c (all_sent ms f) (has_key c f.input.calls))
      × (has_button b f'.input.calls
          ≡ becomes_all (button_after b) (all_sent ms f) (has_button b f.input.calls))
has_key-fine_moves c b ms f h w =
    (sees-fine_moves (keys c h) ms f, sees-fine_moves (buttons b w) ms f)
