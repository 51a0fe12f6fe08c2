-- ===== src/Main/Loop.antt =====
-- src/main.c: `main` from its variables on, and its loop. Each round has what the
-- outside gives it: whether PureSpice runs, the state that the threads of the input have come to,
-- the signals that come, and the kernel's answers for the display.
use spicy_kvm.Prelude.{
  ℕ, Bool, true, false, not, ◌&&◌, ◌||◌, Option, none, some, List, [], ◌∷◌, if◌then◌else◌, ℤ, zero,
  suc, ◌+◌,
}
use spicy_kvm.Audiodev.Backend.{Answers}
use spicy_kvm.Audio.Playback.{Playback}
use spicy_kvm.Audio.Recording.{Recording}
use spicy_kvm.Audio.Shutdown.{Audio, audio_start, audio_init, audio_free}
use spicy_kvm.Input.State.{Input, input_is_grabbed}
use spicy_kvm.Ddc.Find.{Listing, Found, ddcci_find_i2c}
use spicy_kvm.Ddc.Bus.{Rc, success, Tick, Ddcci, Kernel, ddcci_open, ddcci_vcp_set, ddcci_close}

-- What `config` enables, `struct ddc_opts` without the name of the connector, and `linger`.
pub record Options : Type 0 where
  pub inputs_enable : Bool
  pub playback_enable : Bool
  pub record_enable : Bool
  pub enable : Bool
  pub output_self : ℕ
  pub output_other : ℕ
  pub linger : Bool

-- The values that `main` has.
abbrev pub options : Options
options = record {
  inputs_enable = true;
  playback_enable = true;
  record_enable = true;
  enable = true;
  output_self = 0x11;
  output_other = 0x12;
  linger = true;
}

-- `atoi`, and the numbers ENOENT and ENODEV.
pub record Libc : Type 0 where
  pub atoi : List ℕ → ℤ
  pub enoent : ℕ
  pub enodev : ℕ

-- `ddcci_find_i2c`, for what the two directories hold.
abbrev pub find_i2c : Libc → Listing → Listing → Found
find_i2c c drm ddc = ddcci_find_i2c c.atoi c.enoent c.enodev drm ddc

-- The playback and the recording, as the calls of PureSpice and PipeWire have left them; none if a call
-- does not return.
abbrev pub Sound : Type 0
Sound = Option (Playback × Recording)

-- What the outside gives in one round: what the sound is by now, and the state of input.c, which
-- `update_title` looks at again; the signals that come before the grab state is compared, between the switch of
-- the display and the lines after it, and after these; `drm` and `ddc` are the two directories of the display.
pub record Turn : Type 0 where
  pub running : Bool
  pub sound : Sound
  pub input : Input
  pub title_input : Input
  pub signals_before : ℕ
  pub signals_between : ℕ
  pub signals_after : ℕ
  pub libc : Libc
  pub drm : Listing
  pub ddc : Listing
  pub open_kernel : Kernel
  pub set_kernel : Kernel

-- `bool is_grabbed = input_is_grabbed()`
abbrev pub is_grabbed : Turn → Bool
is_grabbed u = input_is_grabbed u.input

-- The variables of `main`, and the sound; the titles that its loop printed at the call of `update_title`, newest
-- first, by whether they have the mark of a grab; the directory streams that `ddcci_find_i2c` has left open; and
-- whether PureSpice was disconnected.
pub record State : Type 0 where
  pub ddcci : Ddcci
  pub ddcci_ok : Bool
  pub was_grabbed : Bool
  pub should_exit : Bool
  pub audio : Audio
  pub titles : List Bool
  pub streams : ℕ
  pub disconnected : Bool

-- What comes of a part of `main`: it goes on, it returns an exit code, or it waits for ever.
pub data Outcome : Type 0 where
  goes_on : State → Outcome
  exits : ℕ → State → Outcome
  hangs : Outcome

abbrev pub is_success : Rc → Bool
is_success success = true
is_success _ = false

-- The bus that `ddcci_find_i2c` found is only printed: the bus that is opened is number 6.
unfoldable pub init_ddc : Found → Kernel → State → Outcome
init_ddc found k m =
    if is_success found.rc
    then (elim (ddcci_open k 6 m.ddcci) [
      | none ↦ hangs
      | some (rc, d) ↦ goes_on (record m {
        ddcci = d;
        ddcci_ok = is_success rc || m.ddcci_ok;
        streams = m.streams + found.streams;
      })
    ])
    else goes_on m

-- The value that is written to the VCP 0x60, the input source.
abbrev pub output_for : Options → Bool → ℕ
output_for o grabbed = if grabbed then o.output_other else o.output_self

unfoldable pub switch_output : Options → Kernel → Bool → State → Outcome
switch_output o k grabbed m = elim (ddcci_vcp_set k 0x60 (output_for o grabbed) m.ddcci) [
  | none ↦ hangs
  | some (rc, d) ↦
      if is_success rc
      then goes_on (record m { ddcci = d })
      else goes_on (record m { ddcci = ddcci_close d; ddcci_ok = false })
]

infixl 5 ◌>>=◌
abbrev pub ◌>>=◌ : Outcome → (State → Outcome) → Outcome
goes_on m >>= f = f m
exits n m >>= f = exits n m
hangs >>= f = hangs

abbrev pub retry_ddc : Turn → State → Outcome
retry_ddc u m =
    if m.ddcci_ok then goes_on m else init_ddc (find_i2c u.libc u.drm u.ddc) u.open_kernel m

abbrev pub switch_if_ok : Options → Turn → State → Outcome
switch_if_ok o u m = if m.ddcci_ok then switch_output o u.set_kernel (is_grabbed u) m else goes_on m

-- The display, when the grab state has changed.
unfoldable pub update_display : Options → Turn → State → Outcome
update_display o u m = if o.enable then (retry_ddc u m >>= switch_if_ok o u) else goes_on m

-- `if (was_grabbed && !is_grabbed)` and what follows, with `update_title`.
abbrev pub settle : Options → Turn → State → State
settle o u m = record m {
  should_exit = m.should_exit || (m.was_grabbed && not (is_grabbed u) && not o.linger);
  was_grabbed = is_grabbed u;
  titles = input_is_grabbed u.title_input ∷ m.titles;
}

abbrev pub same : Bool → Bool → Bool
same true b = b
same false b = not b

-- `sighandler`: the first signal asks for the end, a second one exits at once.
unfoldable pub sighandler : State → Outcome
sighandler m = if m.should_exit then exits 1 m else goes_on (record m { should_exit = true })

-- Some signals, one after the other.
unfoldable pub take_signals : ℕ → State → Outcome
take_signals zero m = goes_on m
take_signals (suc n) m = sighandler m >>= take_signals n

abbrev pub settled : Options → Turn → State → Outcome
settled o u m = goes_on (settle o u m)

abbrev pub follow_grab : Options → Turn → State → Outcome
follow_grab o u m =
    if same (is_grabbed u) m.was_grabbed
    then goes_on m
    else (update_display o u m >>= take_signals u.signals_between >>= settled o u)

-- `purespice_process` makes the calls for the sound.
abbrev pub hear : Sound → State → Outcome
hear none m = hangs
hear (some (p, r)) m = goes_on (record m { audio = record m.audio { playback = p; recording = r } })

-- The body of the loop.
unfoldable pub main_round : Options → Turn → State → Outcome
main_round o u m =
    if u.running
    then (hear u.sound m
        >>= take_signals u.signals_before
        >>= follow_grab o u
        >>= take_signals u.signals_after)
    else exits 1 m

-- After the loop.
abbrev pub close_display : State → State
close_display m =
    if m.ddcci_ok then record m { ddcci = ddcci_close m.ddcci; ddcci_ok = false } else m

abbrev pub clean_up : State → Outcome
clean_up m =
    let c = close_display m in
    exits 0 (record c { disconnected = true; audio = audio_free c.audio })

-- The loop, over what the rounds are given.
unfoldable pub main_loop : Options → List Turn → State → Outcome
main_loop o [] m = if m.should_exit then clean_up m else goes_on m
main_loop o (u ∷ us) m = if m.should_exit then clean_up m else (main_round o u m >>= main_loop o us)

-- What the outside gives: the answers of PipeWire; whether the input, the connection and the mouse
-- mode are set up; the answers for the display; for each call of `purespice_process` before the loop
-- whether it runs and whether `on_connection_ready` was called by then; and what the sound is after them.
pub record Boot : Type 0 where
  pub pw : Answers
  pub input_ok : Bool
  pub connected : Bool
  pub mouse_ok : Bool
  pub libc : Libc
  pub drm : Listing
  pub ddc : Listing
  pub open_kernel : Kernel
  pub process : List (Bool × Bool)
  pub sound : Sound

-- The loop that waits for the connection.
unfoldable pub wait_ready : List (Bool × Bool) → State → Outcome
wait_ready [] m = hangs
wait_ready ((running, ready) ∷ ps) m = elim running [
  | false ↦ exits 1 m
  | true ↦ elim ready [ true ↦ goes_on m | false ↦ wait_ready ps m ]
]

abbrev pub require : Bool → State → Outcome
require ok m = if ok then goes_on m else exits 1 m

abbrev pub init_audio : Options → Boot → State → Outcome
init_audio o b m =
    if o.playback_enable || o.record_enable
    then (let (a, ok) = audio_init b.pw m.audio in require ok (record m { audio = a }))
    else goes_on m

-- What is done only with the input.
abbrev pub require_input : Options → Bool → State → Outcome
require_input o ok m = if o.inputs_enable then require ok m else goes_on m

abbrev pub setup_ddc : Options → Boot → State → Outcome
setup_ddc o b m =
    if o.enable then init_ddc (find_i2c b.libc b.drm b.ddc) b.open_kernel m else goes_on m

-- `main` up to its loop.
unfoldable pub boot : Options → Boot → State → Outcome
boot o b m =
    init_audio o b m
    >>= require_input o b.input_ok
    >>= setup_ddc o b
    >>= require b.connected
    >>= wait_ready b.process
    >>= hear b.sound
    >>= require_input o b.mouse_ok

unfoldable pub main : Options → Boot → List Turn → State → Outcome
main o b us m = boot o b m >>= main_loop o us

-- The variables at the start of `main`, and what the reads of the timer will give.
abbrev pub main_start : List Tick → State
main_start reads = record {
  ddcci = record { fd = none; tfd = none; reads = reads; calls = [] };
  ddcci_ok = false;
  was_grabbed = false;
  should_exit = false;
  audio = audio_start;
  titles = [];
  streams = 0;
  disconnected = false;
}
