-- ===== src/Tests/Display.antt =====
-- The display of src/ddcci.c and src/main.c.
use spicy_kvm.Prelude.{
  ℕ, ◌≡◌, if◌then◌else◌, ◌≢◌, refl, ◌⊎◌, Bool, true, false, Option, none, some, List, [], ◌∷◌, ◌++◌,
  length, replicate, ◌-◌, ◌*◌, ◌<◌, ℤ, pos, arith,
}
use spicy_kvm.Ddc.Packet.{
  i2c_addr_ddc_ci, buf_size, is_too_long, checksum, body, packet, vcp_command,
}
use spicy_kvm.Ddc.Bus.{
  success, Call, sets_timer, expired, writes, Tick, ticks, interrupted, Ddcci, Kernel, wait_loop,
  ddcci_wait, ddcci_wait_set, ddcci_close, ddcci_open, send, ddcci_tx, ddcci_vcp_set,
}
use spicy_kvm.Ddc.Integrity.{packet_detects, packet_overflows, read_vcp, read_vcp-packet}
use spicy_kvm.Ddc.Pace.{Use, open_bus, set_vcp, close_bus, use_all}
use spicy_kvm.Ddc.Find.{
  cut_prefix, i2c_prefix, Listing, entries, first_i2c, ddcci_find_i2c, Listed, ddcci_find_i2c_lem,
}
use spicy_kvm.Main.Lasts.{main_returns}
use spicy_kvm.Main.Loop.{hangs}
use spicy_kvm.Audiodev.Backend.{audiodev_init}
use spicy_kvm.Audio.Shutdown.{audio_start, audio_init}
use spicy_kvm.Input.State.{input_is_grabbed}
use spicy_kvm.Input.System.{input_start}
use spicy_kvm.Main.Loop.{
  options, Libc, Turn, Boot, Outcome, init_ddc, switch_output, update_display, main_round,
  main_loop, sighandler, take_signals, wait_ready, boot, main, main_start,
}
use spicy_kvm.Ddc.Written.{last_write}
use spicy_kvm.Main.After.{After}
use spicy_kvm.Main.Titled.{after_turns, Titled, main-Titled}
use spicy_kvm.Main.Writes.{Paces, main-Paces}
use spicy_kvm.Main.Closed.{End, main-End}

abbrev select : List ℕ
select = vcp_command 0x60 0x12

packet-select : packet select ≡ 0x51 ∷ 0x84 ∷ 0x03 ∷ 0x60 ∷ 0x00 ∷ 0x12 ∷ 0xCA ∷ []
unfolding packet body checksum vcp_command
packet-select = refl

packet_detects_example :
    checksum (i2c_addr_ddc_ci * 2) ((0x51 ∷ 0x84 ∷ []) ++ 0x04 ∷ 0x60 ∷ 0x00 ∷ 0x12 ∷ 0xCA ∷ []) ≢ 0
packet_detects_example =
    packet_detects select (0x51 ∷ 0x84 ∷ []) (0x60 ∷ 0x00 ∷ 0x12 ∷ 0xCA ∷ []) 0x03 0x04
      packet-select (λ h. absurd (omega arith))

abbrev too_long : List ℕ
too_long = replicate 254 0

packet_overflows_example : (is_too_long too_long ≡ false) × (buf_size < length (packet too_long))
packet_overflows_example = packet_overflows too_long (omega arith) (omega arith)

read_vcp-packet_example : read_vcp (packet select) ≡ some (0x60, 0x12)
read_vcp-packet_example = read_vcp-packet 0x60 0x12 (omega arith)

abbrev kernel : Kernel
kernel = record {
  open_fd = some 5;
  ioctl_errno = none;
  timer_fd = some 6;
  set_errno = none;
  write_errno = none;
  last_errno = 0;
}

abbrev no_timer : Kernel
no_timer = record kernel { timer_fd = none; last_errno = 24 }

abbrev waiting : Ddcci
waiting = record {
  fd = some 5;
  tfd = some 6;
  reads = interrupted ∷ ticks ∷ ticks ∷ ticks ∷ [];
  calls = [];
}

abbrev uses : List Use
uses = open_bus kernel 6 ∷ set_vcp kernel 0x60 0x12 ∷ set_vcp kernel 0x60 0x11 ∷ close_bus ∷ []

-- The calls of an open, two writes and a close.
uses_calls :
    use_all uses waiting
    ≡ some (record {
      fd = some 0;
      tfd = some 0;
      reads = [];
      calls =
          Call.closes 6
          ∷ Call.closes 5
          ∷ sets_timer 0 50000000
          ∷ writes 5 (packet (vcp_command 0x60 0x11))
          ∷ expired
          ∷ sets_timer 0 50000000
          ∷ writes 5 (packet select)
          ∷ expired
          ∷ expired
          ∷ sets_timer 0 1000000
          ∷ Call.creates_timer
          ∷ Call.set_slave 0x37
          ∷ Call.opens 6
          ∷ [];
    })
unfolding ddcci_open ddcci_close ddcci_vcp_set ddcci_tx ddcci_wait ddcci_wait_set wait_loop send
    vcp_command
uses_calls = refl

abbrev i2c_7 : List ℕ
i2c_7 = i2c_prefix ++ b'7' ∷ []

abbrev drm : Listing
drm = entries ((b'.' ∷ []) ∷ (b'i' ∷ b'2' ∷ []) ∷ [])

abbrev ddc : Listing
ddc = entries ((b'.' ∷ []) ∷ i2c_7 ∷ [])

-- One digit.
abbrev digit : List ℕ → ℤ
digit (c ∷ []) = pos (c - b'0')
digit _ = pos 0

found_7 : (ddcci_find_i2c digit 2 19 drm ddc).i2c ≡ some (pos 7)
unfolding ddcci_find_i2c first_i2c cut_prefix
found_7 = refl

ddcci_find_i2c_lem_example :
    let f = ddcci_find_i2c digit 2 19 drm ddc in
    ((f.rc ≡ success)
      × (f.streams ≡ 1)
      × ((s : List ℕ) × (f.i2c ≡ some (digit s)) × Listed (i2c_prefix ++ s) drm ddc))
    ⊎ ((f.rc ≢ success) × (f.streams ≡ 0) × (f.i2c ≡ none))
ddcci_find_i2c_lem_example = ddcci_find_i2c_lem digit 2 19 drm ddc

abbrev libc : Libc
libc = record { atoi = digit; enoent = 2; enodev = 19 }

abbrev pub set_up : Boot
set_up = record {
  pw = record { context_ok = true; connect_ok = true; thread_ok = true };
  input_ok = true;
  connected = true;
  mouse_ok = true;
  libc = libc;
  drm = drm;
  ddc = ddc;
  open_kernel = kernel;
  process = (true, false) ∷ (true, true) ∷ [];
  sound = some (audio_start.playback, audio_start.recording);
}

abbrev pub turn : Bool → Bool → Turn
turn grabbed signalled = record {
  running = true;
  sound = some (audio_start.playback, audio_start.recording);
  input = record (input_start (λ k. false)) { grabbed_keyboard = if grabbed then some 0 else none };
  title_input = record (input_start (λ k. false)) {
    grabbed_keyboard = if grabbed then some 0 else none;
  };
  signals_before = 0;
  signals_between = 0;
  signals_after = if signalled then 1 else 0;
  libc = libc;
  drm = drm;
  ddc = ddc;
  open_kernel = kernel;
  set_kernel = kernel;
}

abbrev pub expirations : List Tick
expirations = ticks ∷ interrupted ∷ ticks ∷ ticks ∷ []

abbrev pub turns : List Turn
turns = turn false false ∷ turn true false ∷ turn true false ∷ []

abbrev ended : Outcome → Option ℕ
ended (Outcome.exits n m) = some n
ended _ = none

ends_well :
    ended (main options set_up (turns ++ turn false true ∷ []) (main_start expirations)) ≡ some 0
unfolding main boot main_loop main_round update_display init_ddc switch_output sighandler
    take_signals wait_ready ddcci_open ddcci_close ddcci_vcp_set ddcci_tx ddcci_wait ddcci_wait_set
    wait_loop send vcp_command ddcci_find_i2c first_i2c cut_prefix audio_init audiodev_init
    input_is_grabbed
ends_well = refl

abbrev written : Outcome → Option (List ℕ)
written (Outcome.goes_on m) = last_write m.ddcci.calls
written _ = none

selects : written (main options set_up turns (main_start expirations)) ≡ some (packet select)
unfolding main boot main_loop main_round update_display init_ddc switch_output sighandler
    take_signals wait_ready ddcci_open ddcci_close ddcci_vcp_set ddcci_tx ddcci_wait ddcci_wait_set
    wait_loop send vcp_command ddcci_find_i2c first_i2c cut_prefix audio_init audiodev_init
    input_is_grabbed
selects = refl

main-End_example :
    End (main options set_up (turns ++ turn false true ∷ []) (main_start expirations))
main-End_example = main-End expirations options set_up (turns ++ turn false true ∷ [])

main-Paces_example :
    Paces options (main options set_up (turns ++ turn false true ∷ []) (main_start expirations))
main-Paces_example = main-Paces expirations options set_up (turns ++ turn false true ∷ [])

-- The input is grabbed and given back while the display is switched: the title says that it is not grabbed, and so it
-- does after the next turn, in which it is grabbed again.
abbrev flickers : List Turn
flickers =
    record (turn true false) { title_input = (turn false false).input } ∷ turn true false ∷ []

flickers_lem : after_turns flickers (false, []) ≡ (true, false ∷ [])
unfolding input_is_grabbed
flickers_lem = refl

main-Titled_example :
    After
      (Titled (after_turns flickers (false, [])))
      (main options set_up flickers (main_start expirations))
main-Titled_example = main-Titled expirations options set_up flickers

main_returns_example :
    main options set_up
      (turns ++ turn false true ∷ [])
      (main_start (expirations ++ expirations ++ expirations))
    ≢ hangs
main_returns_example =
    main_returns (expirations ++ expirations ++ expirations) options set_up
      (turns ++ turn false true ∷ []) refl refl refl (omega arith)
