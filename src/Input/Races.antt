-- ===== src/Input/Races.antt =====
-- src/input.c: a round of input_device_thread in three parts, between which other threads run: the event is
-- read, and a grab key is handled or a mouse is claimed; the tests that keep the event from the server are
-- done; the event is sent. The parts themselves are still whole.
use spicy_kvm.Prelude.{ℕ, Bool, true, false, Option, none, some, List, [], ◌∷◌, if◌then◌else◌, ◌==◌}
use spicy_kvm.Input.Keys.{Key}
use spicy_kvm.Input.State.{Event, ev_key, Read, again, nodev, failed, success, sync, Input, Env}
use spicy_kvm.Input.Grab.{on_grab_key, claim_mouse, lose_device}
use spicy_kvm.Input.Report.{Thread, thread_start, handle_event}
use spicy_kvm.Input.Device.{is_withheld, count_sync}
use spicy_kvm.Input.Probe.{Probe, Action, input_udev_handler}
use spicy_kvm.Input.System.{System}
pub mod Core
pub mod Whole
pub mod Sound
pub mod Told
pub mod Plain
pub mod Lost
pub mod Claim

-- Where a thread is in its round.
pub data Phase : Type 0 where
  idle : Phase
  claimed : Event → Phase
  passed : Event → Phase

-- A thread with its place; `none` after the end of its loop.
pub record Place : Type 0 where
  pub thread : Thread
  pub phase : Phase

-- What the first part leaves.
pub record Begun : Type 0 where
  pub input : Input
  pub place : Option Place

abbrev pub at : Thread → Phase → Option Place
at t p = some (record { thread = t; phase = p })

unfoldable pub begin_event : Env → ℕ → Event → Input → Thread → Begun
begin_event env idx (ev_key k value) s t =
    if s.grab_key k
    then record { input = on_grab_key env idx value s; place = at t idle }
    else record {
      input = claim_mouse env idx (ev_key k value) s;
      place = at t (claimed (ev_key k value));
    }
begin_event env idx ev s t = record { input = claim_mouse env idx ev s; place = at t (claimed ev) }

unfoldable pub begin : Env → ℕ → Read → Input → Thread → Begun
begin env idx again s t = record { input = s; place = at (record t { sync = none }) idle }
begin env idx nodev s t = record { input = lose_device env idx s; place = none }
begin env idx failed s t = record { input = lose_device env idx s; place = none }
begin env idx (success ev) s t = begin_event env idx ev s t
begin env idx (sync ev) s t = begin_event env idx ev s (record t { sync = count_sync t.sync })

-- The state, and where each thread is.
pub record Fine : Type 0 where
  pub input : Input
  pub places : ℕ → Option Place

abbrev pub set_place : (ℕ → Option Place) → ℕ → Option Place → ℕ → Option Place
set_place places i p j = if j == i then p else places j

-- A part of a round, of a thread that is at it; and a device that appears.
pub data FineMove : Type 0 where
  reads : Env → ℕ → Read → FineMove
  checks : ℕ → FineMove
  sends : ℕ → FineMove
  adds : Action → Probe → List Key → FineMove

abbrev pub begins : Env → ℕ → Read → Fine → Place → Fine
begins env i r f p = elim p.phase [
  | idle ↦
      let b = begin env i r f.input p.thread in
      record { input = b.input; places = set_place f.places i b.place }
  | claimed ev ↦ f
  | passed ev ↦ f
]

abbrev pub check : ℕ → Fine → Place → Fine
check i f p = elim p.phase [
  | idle ↦ f
  | claimed ev ↦ record f {
    places = set_place f.places i (at p.thread (if is_withheld i f.input then idle else passed ev));
  }
  | passed ev ↦ f
]

abbrev pub send : ℕ → Fine → Place → Fine
send i f p = elim p.phase [
  | idle ↦ f
  | claimed ev ↦ f
  | passed ev ↦
      let (t, calls) = handle_event ev p.thread f.input.calls in
      record { input = record f.input { calls = calls }; places = set_place f.places i (at t idle) }
]

abbrev pub on_place : (Fine → Place → Fine) → ℕ → Fine → Fine
on_place g i f = elim (f.places i) [ none ↦ f | some p ↦ g f p ]

abbrev pub fine_move : FineMove → Fine → Fine
fine_move (reads env i r) f = on_place (begins env i r) i f
fine_move (checks i) f = on_place (check i) i f
fine_move (sends i) f = on_place (send i) i f
fine_move (adds a p codes) f =
    let added = input_udev_handler a p codes f.input in
    record {
      input = added.input;
      places = elim added.started [
        | none ↦ f.places
        | some i ↦ set_place f.places i (at thread_start idle)
      ];
    }

abbrev pub fine_moves : List FineMove → Fine → Fine
fine_moves [] f = f
fine_moves (m ∷ ms) f = fine_moves ms (fine_move m f)

abbrev pub place_of : Option Thread → Option Place
place_of none = none
place_of (some t) = at t idle

-- A system in which no thread is in a round.
abbrev pub resting : System → Fine
resting s = record { input = s.input; places = λ i. place_of (s.threads i) }
