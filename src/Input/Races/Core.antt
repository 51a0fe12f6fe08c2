-- ===== src/Input/Races/Core.antt =====
-- The state of src/input.c without the calls made: no function of it looks at them.
use spicy_kvm.Prelude.{ℕ, ◌≡◌, refl, ap, sym, ◌∙◌, true, List, [], ◌∷◌, ℤ, arith}
use spicy_kvm.Input.Keys.{Key}
use spicy_kvm.Input.State.{Event, Call, Input, Env}
use spicy_kvm.Input.Grab.{
  input_ungrab, grab_key_down, is_short, grab_keyboard, toggle_grab, regrab_mouse, grab_key_up,
  on_grab_key, claim_mouse, lose_device,
}
use spicy_kvm.Input.Probe.{
  Probe, Action, add_action, no_action, other_action, open_slot, input_add_device,
  input_udev_handler,
}

abbrev pub core : Input → Input
core s = record s { calls = [] }

-- A function whose result does not depend on the calls made, apart from them.
abbrev pub IsBlind : (Input → Input) → Type 0
IsBlind f = (s : Input) → core (f s) ≡ core (f (core s))

-- Such a function takes states that differ in the calls to such states.
pub core_of_blind :
    (f : Input → Input) (s s' : Input) → IsBlind f → core s ≡ core s' → core (f s) ≡ core (f s')
core_of_blind f s s' blind e = blind s ∙ ap (λ c. core (f c)) e ∙ sym (blind s')

module _ (env : Env) (idx : ℕ) where
  grab_key_down-IsBlind : IsBlind (grab_key_down env idx)
  unfolding grab_key_down
  grab_key_down-IsBlind s = ground arith

  input_ungrab-IsBlind : IsBlind (input_ungrab env)
  unfolding input_ungrab
  input_ungrab-IsBlind s = ground arith

  let_go :
      (s s' : Input) → core s ≡ core s' → core (input_ungrab env s) ≡ core (input_ungrab env s')
  let_go s s' = core_of_blind (input_ungrab env) s s' input_ungrab-IsBlind

  grab_keyboard-IsBlind : IsBlind (grab_keyboard env idx)
  unfolding grab_keyboard
  grab_keyboard-IsBlind s =
      let grabbed = record s { calls = Call.grab idx true ∷ s.calls } in
      let grabbed_core = record s { calls = Call.grab idx true ∷ [] } in
      ground (arith, let_go grabbed grabbed_core refl)

  toggle_grab-IsBlind : IsBlind (toggle_grab env idx)
  unfolding toggle_grab
  toggle_grab-IsBlind s =
      let ungrabbed = let_go s (core s) refl in
      ground (
        arith,
        ungrabbed,
        grab_keyboard-IsBlind s,
        core_of_blind (grab_keyboard env idx) (input_ungrab env s) (input_ungrab env (core s))
            grab_keyboard-IsBlind ungrabbed,
      )

  regrab_mouse-IsBlind : IsBlind (regrab_mouse env idx)
  unfolding regrab_mouse
  regrab_mouse-IsBlind s = ground arith

  grab_key_up-IsBlind : IsBlind (grab_key_up env idx)
  unfolding grab_key_up is_short
  grab_key_up-IsBlind s = ground (arith, toggle_grab-IsBlind s, regrab_mouse-IsBlind s)

  pub on_grab_key-IsBlind : (value : ℤ) → IsBlind (on_grab_key env idx value)
  unfolding on_grab_key
  on_grab_key-IsBlind value s =
      let down = grab_key_down-IsBlind s in
      ground (
        arith,
        down,
        grab_key_up-IsBlind s,
        core_of_blind (grab_key_up env idx) (grab_key_down env idx s)
            (grab_key_down env idx (core s)) grab_key_up-IsBlind down,
      )

  pub claim_mouse-IsBlind : (ev : Event) → IsBlind (claim_mouse env idx ev)
  unfolding claim_mouse
  claim_mouse-IsBlind ev s = ground arith

  pub lose_device-IsBlind : IsBlind (lose_device env idx)
  unfolding lose_device
  lose_device-IsBlind s = ground arith

open_slot-IsBlind :
    (p : Probe) (codes : List Key) (idx : ℕ) (s : Input)
    → let a = open_slot p codes idx s in
      let b = open_slot p codes idx (core s) in
      (core a.input ≡ core b.input) × (a.started ≡ b.started)
unfolding open_slot
open_slot-IsBlind p codes idx s = ground arith

input_add_device-IsBlind :
    (p : Probe) (codes : List Key) (s : Input)
    → let a = input_add_device p codes s in
      let b = input_add_device p codes (core s) in
      (core a.input ≡ core b.input) × (a.started ≡ b.started)
unfolding input_add_device
input_add_device-IsBlind p codes s = grind (arith, open_slot-IsBlind)

input_udev_handler-IsBlind :
    (a : Action) (p : Probe) (codes : List Key) (s : Input)
    → let x = input_udev_handler a p codes s in
      let y = input_udev_handler a p codes (core s) in
      (core x.input ≡ core y.input) × (x.started ≡ y.started)
unfolding input_udev_handler
input_udev_handler-IsBlind add_action p codes s = input_add_device-IsBlind p codes s
input_udev_handler-IsBlind no_action p codes s = (refl, refl)
input_udev_handler-IsBlind other_action p codes s = (refl, refl)

pub same_added :
    (a : Action) (p : Probe) (codes : List Key) (s s' : Input)
    → core s ≡ core s'
    → let x = input_udev_handler a p codes s in
      let y = input_udev_handler a p codes s' in
      (core x.input ≡ core y.input) × (x.started ≡ y.started)
same_added a p codes s s' e =
    let (c, st) = input_udev_handler-IsBlind a p codes s in
    let (c', st') = input_udev_handler-IsBlind a p codes s' in
    (
      c ∙ ap (λ (i : Input). core (input_udev_handler a p codes i).input) e ∙ sym c',
      st ∙ ap (λ (i : Input). (input_udev_handler a p codes i).started) e ∙ sym st',
    )
