-- ===== src/Input/Races/Lost.antt =====
-- A device that the program of src/input.c has for itself and is neither the keyboard nor the mouse: the other threads
-- never let it go.
use spicy_kvm.Prelude.{
  ℕ, ◌≡◌, refl, Bool, true, false, not, ◌&&◌, ◌==◌, List, [], ◌∷◌, arith, inl, inr, Option-cases,
  Bool-cases, ℤ, is_num,
}
use spicy_kvm.Input.Keys.{Key}
use spicy_kvm.Input.State.{
  Event, ev_key, Read, again, nodev, failed, success, sync, Call, Input, Env, is_at, is_some,
}
use spicy_kvm.Input.Grab.{
  grab_keyboard, on_grab_key, claim_mouse, lose_device, grab_key_down, grab_key_up, toggle_grab,
  regrab_mouse, input_ungrab,
}
use spicy_kvm.Input.Report.{Thread}
use spicy_kvm.Input.Device.{forward, on_event, device_round}
use spicy_kvm.Input.Probe.{
  Probe, Action, add_action, no_action, other_action, open_slot, input_udev_handler,
}
use spicy_kvm.Input.Slots.{add_cases, free_slot-some}
use spicy_kvm.Input.Held.Sends.{handle_event_held}
use spicy_kvm.Input.Held.{is_held}
use spicy_kvm.Input.System.{System, after_round, after_added}
use spicy_kvm.Input.Run.{Move, runs, plugs, move, moves}

-- A device that the program has for itself, but does not know.
pub record IsLost (i : ℕ) (s : Input) : Type 0 where
  pub held : is_held s.calls i ≡ true
  pub no_keyboard : is_at s.grabbed_keyboard i ≡ false
  pub no_mouse : is_at s.grabbed_mouse i ≡ false
  pub live : s.libevdev i ≡ true

-- A round of another device.
module _ (env : Env) (i j : ℕ) (s : Input) (other : (j == i) ≡ false) (v : IsLost i s) where
  grab_key_down-IsLost : IsLost i (grab_key_down env j s)
  unfolding grab_key_down
  grab_key_down-IsLost = record {
    held = ground arith;
    no_keyboard = ground arith;
    no_mouse = ground arith;
    live = ground arith;
  }

  input_ungrab-IsLost : IsLost i (input_ungrab env s)
  unfolding input_ungrab
  input_ungrab-IsLost = record {
    held = ground arith;
    no_keyboard = ground arith;
    no_mouse = ground arith;
    live = ground arith;
  }

  regrab_mouse-IsLost : IsLost i (regrab_mouse env j s)
  unfolding regrab_mouse
  regrab_mouse-IsLost = record {
    held = ground arith;
    no_keyboard = ground arith;
    no_mouse = ground arith;
    live = ground arith;
  }

module _ (env : Env) (i j : ℕ) (other : (j == i) ≡ false) where
  grab_keyboard-IsLost : (s : Input) → IsLost i s → IsLost i (grab_keyboard env j s)
  unfolding grab_keyboard
  grab_keyboard-IsLost s v =
      let t = record s { calls = Call.grab j true ∷ s.calls } in
      let w : IsLost i t = record {
        held = ground arith;
        no_keyboard = v.no_keyboard;
        no_mouse = v.no_mouse;
        live = v.live;
      } in
      let u = input_ungrab-IsLost env i j t other w in
      record {
        held = ground (arith, u.held);
        no_keyboard = ground arith;
        no_mouse = ground (arith, u.no_mouse);
        live = ground (arith, u.live);
      }

  toggle_grab-IsLost : (s : Input) → IsLost i s → IsLost i (toggle_grab env j s)
  unfolding toggle_grab
  toggle_grab-IsLost s v =
      let u = input_ungrab-IsLost env i j s other v in
      elim (Bool-cases (is_some s.grabbed_keyboard)) [
        | inl e ↦ elim (Bool-cases (is_at s.grabbed_keyboard j)) [
          | inl mine ↦ rw (e, mine) u
          | inr theirs ↦ rw (e, theirs) (grab_keyboard-IsLost (input_ungrab env s) u)
        ]
        | inr e ↦ elim (Bool-cases (is_at s.grabbed_keyboard j)) [
          | inl mine ↦ rw (e, mine) v
          | inr theirs ↦ rw (e, theirs) (grab_keyboard-IsLost s v)
        ]
      ]

  grab_key_up-IsLost : (s : Input) → IsLost i s → IsLost i (grab_key_up env j s)
  unfolding grab_key_up
  grab_key_up-IsLost s v =
      let a = toggle_grab-IsLost s v in
      let b = regrab_mouse-IsLost env i j s other v in
      record {
        held = ground (arith, a.held, b.held);
        no_keyboard = ground (arith, a.no_keyboard, b.no_keyboard);
        no_mouse = ground (arith, a.no_mouse, b.no_mouse);
        live = ground (arith, a.live, b.live);
      }

  on_grab_key-IsLost : (value : ℤ) (s : Input) → IsLost i s → IsLost i (on_grab_key env j value s)
  unfolding on_grab_key
  on_grab_key-IsLost value s v =
      let down = grab_key_down-IsLost env i j s other v in
      elim (Bool-cases (is_num value 1)) [
        | inl p ↦ elim (Bool-cases (is_num value 0)) [
          | inl r ↦ rw (p, r) (grab_key_up-IsLost (grab_key_down env j s) down)
          | inr r ↦ rw (p, r) down
        ]
        | inr p ↦ elim (Bool-cases (is_num value 0)) [
          | inl r ↦ rw (p, r) (grab_key_up-IsLost s v)
          | inr r ↦ rw (p, r) v
        ]
      ]

module _ (env : Env) (i j : ℕ) (s : Input) (other : (j == i) ≡ false) (v : IsLost i s) where
  claim_mouse-IsLost : (ev : Event) → IsLost i (claim_mouse env j ev s)
  unfolding claim_mouse
  claim_mouse-IsLost ev = record {
    held = ground arith;
    no_keyboard = ground arith;
    no_mouse = ground arith;
    live = ground arith;
  }

  lose_device-IsLost : IsLost i (lose_device env j s)
  unfolding lose_device input_ungrab
  lose_device-IsLost = record {
    held = ground arith;
    no_keyboard = ground arith;
    no_mouse = ground arith;
    live = ground arith;
  }

module _ (env : Env) (i j : ℕ) (other : (j == i) ≡ false) where
  forward-IsLost :
      (ev : Event) (s : Input) (t : Thread) → IsLost i s → IsLost i (forward env j ev s t).input
  unfolding forward
  forward-IsLost ev s t v =
      let c = claim_mouse-IsLost env i j s other v ev in
      let sent = handle_event_held ev t (claim_mouse env j ev s).calls i in
      record {
        held = ground (arith, c.held, sent);
        no_keyboard = ground (arith, c.no_keyboard);
        no_mouse = ground (arith, c.no_mouse);
        live = ground (arith, c.live);
      }

  on_event-IsLost :
      (ev : Event) (s : Input) (t : Thread) → IsLost i s → IsLost i (on_event env j ev s t).input
  unfolding on_event
  on_event-IsLost (ev_key k value) s t v = elim (Bool-cases (s.grab_key k)) [
    | inl e ↦ rw e (on_grab_key-IsLost env i j other value s v)
    | inr e ↦ rw e (forward-IsLost (ev_key k value) s t v)
  ]
  on_event-IsLost ev s t v = forward-IsLost ev s t v

  round-IsLost :
      (r : Read) (s : Input) (t : Thread) → IsLost i s → IsLost i (device_round env j r s t).input
  unfolding device_round
  round-IsLost again s t v = v
  round-IsLost nodev s t v = lose_device-IsLost env i j s other v
  round-IsLost failed s t v = lose_device-IsLost env i j s other v
  round-IsLost (success ev) s t v = on_event-IsLost ev s t v
  round-IsLost (sync ev) s t v = on_event-IsLost ev s _ v

open_slot-IsLost :
    (p : Probe) (codes : List Key) (idx i : ℕ) (s : Input)
    → s.libevdev idx ≡ false
    → IsLost i s
    → IsLost i (open_slot p codes idx s).input
unfolding open_slot
open_slot-IsLost p codes idx i s free v = record {
  held = ground arith;
  no_keyboard = ground arith;
  no_mouse = ground arith;
  live = ground arith;
}

plug-IsLost :
    (a : Action) (p : Probe) (codes : List Key) (i : ℕ) (s : Input)
    → IsLost i s
    → IsLost i (input_udev_handler a p codes s).input
unfolding input_udev_handler
plug-IsLost add_action p codes i s v =
    add_cases (λ a. IsLost i a.input) p codes s (λ rc. v)
      λ idx f.
        open_slot-IsLost p codes idx i s (free_slot-some s.libevdev 64 0 64 idx refl f).free v
plug-IsLost no_action p codes i s v = v
plug-IsLost other_action p codes i s v = v

-- No round is of a device.
abbrev spares : ℕ → Move → Bool
spares i (runs env j r) = not (j == i)
spares i (plugs a p codes) = true

abbrev pub all_spare : ℕ → List Move → Bool
all_spare i [] = true
all_spare i (m ∷ ms) = spares i m && all_spare i ms

move-IsLost :
    (i : ℕ) (m : Move) (s : System)
    → spares i m ≡ true
    → IsLost i s.input
    → IsLost i (move m s).input
unfolding after_round after_added
move-IsLost i (runs env j r) s h v = elim (Option-cases (s.threads j)) [
  | inl e ↦ rw (e, move) v
  | inr (t, e) ↦ rw (e, move) (round-IsLost env i j (ground arith) r s.input t v)
]
move-IsLost i (plugs a p codes) s h v = plug-IsLost a p codes i s.input v

pub moves-IsLost :
    (i : ℕ) (ms : List Move) (s : System)
    → all_spare i ms ≡ true
    → IsLost i s.input
    → IsLost i (moves ms s).input
moves-IsLost i [] s h v = v
moves-IsLost i (m ∷ ms) s h v =
    moves-IsLost i ms (move m s) (ground arith) (move-IsLost i m s (ground arith) v)
