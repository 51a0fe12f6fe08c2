-- ===== src/Input/Races/Plain.antt =====
-- The grab keys of src/input.c where the rounds of the threads race with each other.
use spicy_kvm.Prelude.{
  ℕ, ◌≡◌, refl, ◌∙◌, ap, Bool, true, not, ◌&&◌, Option, none, some, List, [], ◌∷◌, ◌++◌, arith, inl,
  inr, Option-cases, Bool-cases, ℤ,
}
use spicy_kvm.Input.Keys.{Key}
use spicy_kvm.Input.State.{Event, ev_key, Read, again, nodev, failed, success, sync, Input, Env}
use spicy_kvm.Input.Grab.{
  on_grab_key, claim_mouse, lose_device, grab_key_down, grab_key_up, toggle_grab, regrab_mouse,
  input_ungrab,
}
use spicy_kvm.Input.Report.{Thread}
use spicy_kvm.Input.Heard.{is_grab_event}
use spicy_kvm.Input.Probe.{
  Probe, Action, add_action, no_action, other_action, open_slot, input_udev_handler,
}
use spicy_kvm.Input.Slots.{add_cases}
use spicy_kvm.Input.Races.{
  Phase, idle, claimed, passed, Place, Fine, FineMove, reads, checks, sends, adds, begin,
  begin_event, begins, check, send, on_place, fine_move, set_place, Begun, resting,
}
use spicy_kvm.Input.Races.Told.{sent_by, all_sent}
use spicy_kvm.Input.System.{System}

-- No event that a thread has still to send is of a grab key.
abbrev is_clear : Input → Phase → Bool
is_clear s idle = true
is_clear s (claimed ev) = not (is_grab_event s ev)
is_clear s (passed ev) = not (is_grab_event s ev)

abbrev is_clear_at : Input → Option Place → Bool
is_clear_at s none = true
is_clear_at s (some p) = is_clear s p.phase

-- The grab keys are those of a state, and that holds of each thread.
record IsClear (s : Input) (f : Fine) : Type 0 where
  same : f.input.grab_key ≡ s.grab_key
  clear : (i : ℕ) → is_clear_at s (f.places i) ≡ true

module _ (env : Env) (i : ℕ) (s : Input) where
  keys-on_grab_key : (v : ℤ) → (on_grab_key env i v s).grab_key ≡ s.grab_key
  unfolding on_grab_key grab_key_down grab_key_up toggle_grab regrab_mouse input_ungrab
  keys-on_grab_key v = ground arith

  keys-claim_mouse : (ev : Event) → (claim_mouse env i ev s).grab_key ≡ s.grab_key
  unfolding claim_mouse
  keys-claim_mouse ev = ground arith

  keys-lose_device : (lose_device env i s).grab_key ≡ s.grab_key
  unfolding lose_device input_ungrab
  keys-lose_device = ground arith

-- After the first part of a round, on a state with the same grab keys.
module _ (z : Input) (env : Env) (i : ℕ) (s : Input) (h : s.grab_key ≡ z.grab_key) where
  abbrev Clears : Begun → Type 0
  Clears b = (b.input.grab_key ≡ z.grab_key) × (is_clear_at z b.place ≡ true)

  same_key : (k : Key) → s.grab_key k ≡ z.grab_key k
  same_key k = ap (λ (g : Key → Bool). g k) h

  begin_event-Clears : (ev : Event) (t : Thread) → Clears (begin_event env i ev s t)
  unfolding begin_event
  begin_event-Clears (ev_key k v) t = elim (Bool-cases (s.grab_key k)) [
    | inl e ↦ rw (e, begin_event) (keys-on_grab_key env i s v ∙ h, refl)
    | inr e ↦
        rw (e, begin_event)
          (keys-claim_mouse env i s (ev_key k v) ∙ h, ground (arith, same_key k, e))
  ]
  begin_event-Clears ev t = (keys-claim_mouse env i s ev ∙ h, refl)

  begin-Clears : (r : Read) (t : Thread) → Clears (begin env i r s t)
  unfolding begin
  begin-Clears again t = (h, refl)
  begin-Clears nodev t = (keys-lose_device env i s ∙ h, refl)
  begin-Clears failed t = (keys-lose_device env i s ∙ h, refl)
  begin-Clears (success ev) t = begin_event-Clears ev t
  begin-Clears (sync ev) t = begin_event-Clears ev _

keys-plug :
    (a : Action) (p : Probe) (codes : List Key) (s : Input)
    → (input_udev_handler a p codes s).input.grab_key ≡ s.grab_key
unfolding input_udev_handler open_slot
keys-plug add_action p codes s =
    add_cases (λ a. a.input.grab_key ≡ s.grab_key) p codes s (λ rc. refl) λ idx e. ground arith
keys-plug no_action p codes s = refl
keys-plug other_action p codes s = refl

module _ (z : Input) where
  set_place-IsClear :
      (f : Fine) (i : ℕ) (q : Option Place) (s : Input)
      → s.grab_key ≡ z.grab_key
      → is_clear_at z q ≡ true
      → IsClear z f
      → IsClear z (record { input = s; places = set_place f.places i q })
  set_place-IsClear f i q s h c v = record { same = h; clear = λ j. ground (arith, v.clear j, c) }

  begins-IsClear :
      (env : Env) (i : ℕ) (r : Read) (f : Fine) (p : Place) (ph : Phase)
      → p.phase ≡ ph
      → IsClear z f
      → IsClear z (begins env i r f p)
  begins-IsClear env i r f p idle e v =
      let (h, c) = begin-Clears z env i f.input v.same r p.thread in
      rw (e, begins) (set_place-IsClear f i _ _ h c v)
  begins-IsClear env i r f p (claimed ev) e v = rw (e, begins) v
  begins-IsClear env i r f p (passed ev) e v = rw (e, begins) v

  check-IsClear :
      (i : ℕ) (f : Fine) (p : Place) (ph : Phase)
      → p.phase ≡ ph
      → is_clear z p.phase ≡ true
      → IsClear z f
      → IsClear z (check i f p)
  check-IsClear i f p idle e c v = rw (e, check) v
  check-IsClear i f p (claimed ev) e c v =
      rw (e, check) (set_place-IsClear f i _ f.input v.same (ground (arith, e, c)) v)
  check-IsClear i f p (passed ev) e c v = rw (e, check) v

  send-IsClear :
      (i : ℕ) (f : Fine) (p : Place) (ph : Phase)
      → p.phase ≡ ph
      → IsClear z f
      → IsClear z (send i f p)
  send-IsClear i f p idle e v = rw (e, send) v
  send-IsClear i f p (claimed ev) e v = rw (e, send) v
  send-IsClear i f p (passed ev) e v = rw (e, send) (set_place-IsClear f i _ _ v.same refl v)

  on_place-IsClear :
      (g : Fine → Place → Fine) (i : ℕ) (f : Fine)
      → ((p : Place) → is_clear z p.phase ≡ true → IsClear z (g f p))
      → IsClear z f
      → IsClear z (on_place g i f)
  on_place-IsClear g i f k v = elim (Option-cases (f.places i)) [
    | inl e ↦ rw (e, on_place) v
    | inr (p, e) ↦ rw (e, on_place) (k p (rw e at (v.clear i)))
  ]

  fine_move-IsClear : (m : FineMove) (f : Fine) → IsClear z f → IsClear z (fine_move m f)
  fine_move-IsClear (reads env i r) f v =
      on_place-IsClear (begins env i r) i f (λ p c. begins-IsClear env i r f p p.phase refl v) v
  fine_move-IsClear (checks i) f v =
      on_place-IsClear (check i) i f (λ p c. check-IsClear i f p p.phase refl c v) v
  fine_move-IsClear (sends i) f v =
      on_place-IsClear (send i) i f (λ p c. send-IsClear i f p p.phase refl v) v
  fine_move-IsClear (adds a p codes) f v =
      let u = input_udev_handler a p codes f.input in
      let h = keys-plug a p codes f.input ∙ v.same in
      elim (Option-cases u.started) [
        | inl e ↦ rw (e, fine_move) (record { same = h; clear = v.clear })
        | inr (i, e) ↦ rw (e, fine_move) (set_place-IsClear f i _ _ h refl v)
      ]

  -- None of some events is of a grab key.
  abbrev pub are_plain : List Event → Bool
  are_plain [] = true
  are_plain (ev ∷ evs) = not (is_grab_event z ev) && are_plain evs

  sent_by-plain : (m : FineMove) (f : Fine) → IsClear z f → are_plain (sent_by m f) ≡ true
  sent_by-plain (reads env i r) f v = refl
  sent_by-plain (checks i) f v = refl
  sent_by-plain (sends i) f v = ground (arith, v.clear i)
  sent_by-plain (adds a p codes) f v = refl

  plain-append :
      (xs ys : List Event) → are_plain xs ≡ true → are_plain ys ≡ true → are_plain (xs ++ ys) ≡ true
  plain-append [] ys h k = k
  plain-append (x ∷ xs) ys h k = ground (arith, plain-append xs ys (ground arith) k)

  all_sent-plain : (ms : List FineMove) (f : Fine) → IsClear z f → are_plain (all_sent ms f) ≡ true
  all_sent-plain [] f v = refl
  all_sent-plain (m ∷ ms) f v =
      plain-append (sent_by m f) (all_sent ms (fine_move m f)) (sent_by-plain m f v)
        (all_sent-plain ms (fine_move m f) (fine_move-IsClear m f v))

-- Over the parts of the rounds of all devices, and devices that appear, in any order, from a state with no thread
-- in a round: no event of a grab key is sent.
pub fine_moves_plain :
    (ms : List FineMove) (s : System) → are_plain s.input (all_sent ms (resting s)) ≡ true
fine_moves_plain ms s =
    all_sent-plain s.input ms (resting s) (record { same = refl; clear = λ i. ground arith })
