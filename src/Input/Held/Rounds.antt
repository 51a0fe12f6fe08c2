-- ===== src/Input/Held/Rounds.antt =====
-- Every round of src/input.c leaves exactly the wanted devices grabbed, but for one case.
use spicy_kvm.Prelude.{ℕ, ◌≡◌, inl, inr, true, false, some, ℤ, is_num, Bool-cases, arith}
use spicy_kvm.Input.Keys.{Key}
use spicy_kvm.Input.State.{Event, ev_key, Read, again, nodev, failed, success, sync, Timeval, Input}
use spicy_kvm.Input.Grab.{regrab_mouse, grab_key_up, on_grab_key, claim_mouse}
use spicy_kvm.Input.Report.{Thread}
use spicy_kvm.Input.Device.{forward, on_event, device_round, is_withheld}
use spicy_kvm.Input.Invariant.{Inv}
use spicy_kvm.Input.Held.{
  is_held, is_wanted, obliging, abandons, Exact, down_held, up_held, claim_held, lose_held,
}
use spicy_kvm.Input.Held.Sends.{handle_event_held}

is_pressed : (value : ℤ) → is_num value 1 ≡ true → is_num value 0 ≡ false
is_pressed value h = ground arith

module _ (now : Timeval) (idx : ℕ) (s : Input) (live : s.libevdev idx ≡ true) (v : Inv s) (j : ℕ)
    (exact : Exact s j) where
  key_held :
      (k : Key) (value : ℤ)
      → s.grab_key k ≡ true
      → abandons (obliging now) idx (success (ev_key k value)) s ≡ false
      → Exact (on_grab_key (obliging now) idx value s) j
  unfolding on_grab_key
  key_held k value g h = elim (Bool-cases (is_num value 1)) [
    | inl p ↦ rw (p, is_pressed value p) (down_held now idx s live v j exact)
    | inr p ↦ elim (Bool-cases (is_num value 0)) [
      | inl q ↦ rw (p, q) (up_held now idx s live v j exact (ground arith))
      | inr q ↦ rw (p, q) exact
    ]
  ]

  forward_held : (ev : Event) (t : Thread) → Exact (forward (obliging now) idx ev s t).input j
  unfolding forward
  forward_held ev t =
      let claimed = claim_held now idx s live v j exact ev in
      ground (arith, claimed, handle_event_held ev t (claim_mouse (obliging now) idx ev s).calls j)

  event_held :
      (ev : Event) (t : Thread)
      → abandons (obliging now) idx (success ev) s ≡ false
      → Exact (on_event (obliging now) idx ev s t).input j
  unfolding on_event
  event_held (ev_key k value) t h = elim (Bool-cases (s.grab_key k)) [
    | inl p ↦ rw p (key_held k value p h)
    | inr p ↦ rw p (forward_held (ev_key k value) t)
  ]
  event_held ev t h = forward_held ev t

-- Where every grab succeeds, a round leaves a device grabbed exactly if it is the keyboard or the
-- mouse, and is not the mouse while the grab key is held: if that held before the round, and the
-- round is not the end of a long press on another device than the keyboard, during a press there.
pub device_round-Exact :
    (now : Timeval) (idx : ℕ) (r : Read) (s : Input) (t : Thread) (j : ℕ)
    → s.libevdev idx ≡ true
    → Inv s
    → abandons (obliging now) idx r s ≡ false
    → is_held s.calls j ≡ is_wanted s j
    → let s' = (device_round (obliging now) idx r s t).input in is_held s'.calls j ≡ is_wanted s' j
unfolding device_round
device_round-Exact now idx again s t j live v h exact = exact
device_round-Exact now idx nodev s t j live v h exact = lose_held now idx s live v j exact
device_round-Exact now idx failed s t j live v h exact = lose_held now idx s live v j exact
device_round-Exact now idx (success ev) s t j live v h exact =
    event_held now idx s live v j exact ev t h
device_round-Exact now idx (sync ev) s t j live v h exact =
    event_held now idx s live v j exact ev _ h

-- The end of a long press on another device than the keyboard, during a press there: the mouse that
-- is let go, if the grabs matched it before, stays the mouse, is not grabbed, and is no longer
-- withheld from the server.
pub device_round-abandons :
    (now : Timeval) (idx m : ℕ) (r : Read) (s : Input) (t : Thread)
    → Inv s
    → abandons (obliging now) idx r s ≡ true
    → s.grabbed_mouse ≡ some m
    → is_held s.calls m ≡ is_wanted s m
    → let s' = (device_round (obliging now) idx r s t).input in
      (s'.grabbed_mouse ≡ some m) × (is_held s'.calls m ≡ false) × (is_withheld m s' ≡ false)
unfolding device_round on_event on_grab_key grab_key_up regrab_mouse is_withheld
device_round-abandons now idx m (success (ev_key k value)) s t v h e exact = ground arith
device_round-abandons now idx m (sync (ev_key k value)) s t v h e exact = ground arith
device_round-abandons now idx m _ s t v h e exact = cc
