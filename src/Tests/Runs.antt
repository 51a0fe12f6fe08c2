-- ===== src/Tests/Runs.antt =====
-- The threads of all devices together, at concrete inputs.
use spicy_kvm.Prelude.{
  ◌≡◌, refl, true, false, none, some, List, [], ◌∷◌, ltb, pos, ℤ, Bool, if◌then◌else◌, arith,
}
use spicy_kvm.Input.Keys.{btn_left, left, key_a, key_rightctrl}
use spicy_kvm.Input.State.{
  ev_key, is_at, ev_rel, rel_x, rel_y, Read, Timeval, Call, input_is_grabbed, tv_ms_diff,
}
use spicy_kvm.Input.Grab.{
  is_short, on_grab_key, grab_key_down, toggle_grab, claim_mouse, grab_key_up,
}
use spicy_kvm.Input.Report.{thread_start}
use spicy_kvm.Input.Device.{device_round, on_event, forward}
use spicy_kvm.Input.Invariant.{Inv}
use spicy_kvm.Input.Held.{is_held, is_wanted}
use spicy_kvm.Input.System.{System, after_round}
use spicy_kvm.Input.Reachable.{IsSound}
use spicy_kvm.Input.Run.{Move, runs, moves}
use spicy_kvm.Input.Guest.{has_key, keys_after}
use spicy_kvm.Input.Told.{all_told, has_key-moves, has_button-moves}
use spicy_kvm.Input.Observer.{becomes_all}
use spicy_kvm.Input.Buttons.{has_button, button_after}
use spicy_kvm.Input.Release.{press}
use spicy_kvm.Input.Stuck.{has_key-released}
use spicy_kvm.Input.Host.{AllFair, moves-Exact}
use spicy_kvm.Input.Sharing.{view, shares}
use spicy_kvm.Input.Refines.{causes, after_all, view-moves}
use spicy_kvm.Input.Races.{FineMove, reads, checks, sends, fine_moves, resting, begin, begin_event}
use spicy_kvm.Input.Races.Told.{all_sent, has_key-fine_moves}
use spicy_kvm.Input.Races.Plain.{are_plain, fine_moves_plain}
use spicy_kvm.Input.Races.Claim.{wants_mouse, take_mouse, take_mouse_twice}
use spicy_kvm.Input.Races.Core.{core}
use spicy_kvm.Input.Races.Whole.{all_whole}
use spicy_kvm.Input.Races.Sound.{view-fine_moves}
use spicy_kvm.Input.Keys.{linux_to_ps2, linux_to_spice}
use spicy_kvm.Input.Grab.{grab_keyboard, input_ungrab}
use spicy_kvm.Input.Device.{is_withheld}
use spicy_kvm.Input.Report.{handle_event, send_key, send_button}
use spicy_kvm.Main.Loop.{options, main_start}
use spicy_kvm.Main.After.{After}
use spicy_kvm.Main.Shows.{Shows}
use spicy_kvm.Main.Sound.{plays, record_starts}
use spicy_kvm.Main.Clean.{IsClean, program-IsClean}
use spicy_kvm.Audio.Session.{Use}
use spicy_kvm.Tests.Sound.{pipewire}
use spicy_kvm.Tests.Stream.{whole, counter}
use spicy_kvm.Main.Program.{Interval, program, input_after, input_start_of, looked, program-Shows}
use spicy_kvm.Tests.Keyboard.{holding, holding-Inv, soon, ctrl_up, a_down, codes, setup}
use spicy_kvm.Tests.Display.{set_up, turn, expirations}

-- The threads of three devices.
abbrev three : System
three = record { input = holding; threads = λ i. if ltb i 3 then some thread_start else none }

three-IsSound : IsSound three
three-IsSound = record { inv = holding-Inv; live = λ i h. ground arith }

abbrev a_up : Read
a_up = Read.success (ev_key key_a (pos 0))

-- The key goes down and up on the keyboard, and down on a device that the guest does not have.
abbrev typing : List Move
typing = runs soon 0 a_down ∷ runs soon 0 a_up ∷ runs soon 2 a_down ∷ []

-- The grab key is released, by which the guest has nothing.
abbrev released : List Move
released = runs soon 0 a_down ∷ runs soon 0 ctrl_up ∷ runs soon 0 a_up ∷ []

has_key-moves_example :
    has_key 30 (moves typing three).input.calls
    ≡ keys_after 30 (all_told typing three) (has_key 30 holding.calls)
has_key-moves_example = has_key-moves 30 typing three (omega arith)

-- The left button goes down on the keyboard, and up on a device that the guest does not have.
abbrev clicking : List Move
clicking =
    runs soon 0 (Read.success (ev_key btn_left (pos 1)))
    ∷ runs soon 2 (Read.success (ev_key btn_left (pos 0)))
    ∷ []

has_button-moves_example :
    has_button left (moves clicking three).input.calls
    ≡ becomes_all (button_after left) (all_told clicking three) (has_button left holding.calls)
has_button-moves_example = has_button-moves left clicking three refl

view-moves_example :
    view (moves released three).input ≡ after_all (causes released three) (view holding)
view-moves_example = view-moves released three three-IsSound

released-AllFair : AllFair released three
unfolding is_short tv_ms_diff device_round on_event on_grab_key grab_key_up after_round forward
    claim_mouse
released-AllFair = ground arith

moves-Exact_example :
    let s' = moves released three in is_held s'.input.calls 1 ≡ is_wanted s'.input 1
moves-Exact_example = moves-Exact released three 1 three-IsSound released-AllFair refl

-- A key goes down on the keyboard, and before it is sent a short press on another device takes the guest
-- from it.
abbrev late : List FineMove
late = reads soon 0 a_down ∷ checks 0 ∷ reads soon 2 ctrl_up ∷ sends 0 ∷ []

view-fine_moves_example :
    let f = fine_moves late (resting three) in
    let whole = all_whole late (resting three) in
    (core f.input ≡ core (moves whole three).input)
    × (view f.input ≡ after_all (causes whole three) (view holding))
    × Inv f.input
view-fine_moves_example = view-fine_moves late three three-IsSound

has_key-fine_moves_example :
    let f = fine_moves late (resting three) in
    let told = all_sent late (resting three) in
    (has_key 30 f.input.calls ≡ keys_after 30 told (has_key 30 holding.calls))
    × (has_button left f.input.calls
        ≡ becomes_all (button_after left) told (has_button left holding.calls))
has_key-fine_moves_example = has_key-fine_moves 30 left late (resting three) (omega arith) refl

fine_moves_plain_example : are_plain holding (all_sent late (resting three)) ≡ true
fine_moves_plain_example = fine_moves_plain late three

-- The key is sent all the same.
sent_late :
    let s = (fine_moves late (resting three)).input in
    (view s ≡ shares 2 none) × (has_key 30 s.calls ≡ true)
unfolding is_short tv_ms_diff begin begin_event on_grab_key grab_key_up toggle_grab claim_mouse
    is_withheld handle_event send_key send_button linux_to_ps2 linux_to_spice grab_keyboard
    input_ungrab
sent_late = (refl, refl)

-- Devices 1 and 2 move at the same time.
abbrev mouseless : System
mouseless = record three { input = record holding { grabbed_mouse = none; calls = [] } }

take_mouse_twice_example :
    let taken = record mouseless {
      input = take_mouse soon 2 (take_mouse soon 1 mouseless.input);
    } in
    let s' = (moves released taken).input in
    (is_held s'.calls 1 ≡ true)
    × (is_at s'.grabbed_keyboard 1 ≡ false)
    × (is_at s'.grabbed_mouse 1 ≡ false)
unfolding wants_mouse
take_mouse_twice_example =
    take_mouse_twice soon soon 1 2 (ev_rel rel_x (pos 1)) (ev_rel rel_y (pos 1)) released mouseless
      refl refl refl refl refl refl refl refl refl

abbrev at_100 : Timeval
at_100 = record { tv_sec = 100; tv_usec = 0 }

abbrev at_100_2 : Timeval
at_100_2 = record { tv_sec = 100; tv_usec = 200000 }

-- The grab key is pressed while `a` is down.
abbrev busy : System
busy = record three { input = record holding { calls = Call.key_down 30 ∷ holding.calls } }

busy-Inv : Inv busy.input
busy-Inv = ground arith

abbrev given_back : System
given_back = record three { input = press key_rightctrl 0 at_100 at_100_2 thread_start busy.input }

has_key-released_example : has_key 30 (moves (runs soon 0 a_up ∷ []) given_back).input.calls ≡ true
unfolding tv_ms_diff device_round on_event on_grab_key grab_key_down grab_key_up is_short
    toggle_grab
has_key-released_example =
    has_key-released 30 key_rightctrl 0 at_100 at_100_2 thread_start busy given_back
      (runs soon 0 a_up ∷ []) (omega arith) refl refl busy-Inv (omega arith) refl refl

-- The keyboard of the set-up is used between two turns, and sound is played from 2 channels.
abbrev round : Bool → Interval ℤ
round signalled = record {
  happened = reads soon 0 a_down ∷ checks 0 ∷ [];
  heeded = plays (Use.start pipewire true 256 2 48000) ∷ record_starts true 2 48000 ∷ [];
  turn = turn false signalled;
  meanwhile = sends 0 ∷ [];
}

program-Shows_example :
    let f = input_after (round false ∷ []) (input_start_of options setup codes) in
    let s = (looked (round false) f).input in
    Inv s
    × After (Shows options (input_is_grabbed s)) (
        program ℤ options set_up setup codes []
          (round false ∷ round false ∷ [])
          (main_start expirations))
program-Shows_example =
    program-Shows ℤ expirations options set_up setup codes [] (round false ∷ []) (round false)

program-IsClean_example :
    IsClean (program ℤ options set_up setup codes [] (round true ∷ []) (main_start expirations))
program-IsClean_example =
    program-IsClean ℤ expirations options set_up setup codes [] (round true ∷ []) refl
