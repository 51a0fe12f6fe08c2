-- ===== src/Lib.antt =====
-- A model of spicy-kvm: a program that shares keyboard and mouse with a virtual machine over SPICE,
-- and switches the input of the display with them.
--
-- The parts, and the files that model them:
--   src/input.c   reads the input devices, grabs them when a grab key is pressed, and forwards their
--                 events. One thread for each device, and one for the devices that appear.
--     Input.Keys      the tables linux_to_ps2 and linux_to_spice, with the keys that they name
--     Input.State     the global `input`, events, and the calls that are made; tv_ms_diff
--     Input.Grab      input_ungrab, and of input_device_thread what changes the grabs
--     Input.Report    of input_device_thread what is sent for an event, and its loop variables
--     Input.Device    a round of input_device_thread, from one libevdev_next_event to the next
--     Input.Probe     input_add_device and input_udev_handler
--     Input.Init      input_init
--     Input.System    the threads together, as a step relation
--     Input.Run       the same as a function
--     Input.Observer  what is on or off of the guest, by the calls and by the events; Input.Guest and
--                     Input.Buttons have its keys and its mouse buttons
--     Input.Races     a round in three parts, which race with those of other threads; Input.Races.Claim
--                     has the choice of a mouse in two
--     Input.Sharing   an abstract machine of who has the keyboard and the mouse, and its refinement
--     Input.Release   the way out: a short press on the keyboard
--     Input.Invariant, Input.Held, Input.Toggle, Input.Heard, Input.Motion, Input.Strokes, Input.Range,
--     Input.Slots, Input.Scancodes, Input.Reachable, Input.Told, Input.Stuck, Input.Host,
--     Input.Refines, and the other modules under Input.Races, proofs
--   src/ddcci.c   writes to the display over i2c.
--     Ddc.Packet      the bytes that ddcci_tx builds
--     Ddc.Bus         ddcci_open, ddcci_wait, ddcci_wait_set, ddcci_tx, ddcci_vcp_set, ddcci_close
--     Ddc.Find        cut_prefix and ddcci_find_i2c, with their proofs
--     Ddc.Messages    ddcci_strerror
--     Ddc.Integrity, Ddc.Descriptors, Ddc.Pace, Ddc.Waits, Ddc.Timed, Ddc.Kept,
--     Ddc.Written    proofs
--   src/main.c    sets up the others and runs the loop.
--     Main.Loop       main, from its variables on, and sighandler
--     Main.Title      update_title and on_audio_latency
--     Main.Sound      the functions of audio.c that main gives to PureSpice, in any order
--     Main.Program    the program: main with input_init, the threads of input.c with their races,
--                     and the sound
--     Main.After, Main.Blind, Main.Display, Main.Shows, Main.Closed, Main.Freed, Main.Clean, Main.Lasts,
--     Main.Reads, Main.Leaving, Main.Writes, Main.Titled    proofs
--   src/audio.c   plays and records sound, as PureSpice asks.
--     Audio.Playback  playback_stop, audio_playback_start, audio_playback_stop, audio_playback_volume
--                     and audio_playback_mute; of audio_playback_data the two arrays
--     Audio.Recording the functions audio_record_*, and audio_push
--     Audio.Outside   what they use: `double`, the unbounded ring buffer, the resampler
--     Audio.Live      the state of the playback with the fields of the two clocks
--     Audio.Pull      audio_pull
--     Audio.Clock     compute_device_position, and the clocks of audio_playback_data
--     Audio.Packet    audio_playback_data
--     Audio.Shutdown  audio_init and audio_free
--     Audio.Session   the calls of PureSpice and of PipeWire on a playback, in any order
--     Audio.Balance, Audio.Endless, Audio.Positions, Audio.Stored, Audio.Quiet, Audio.Silence,
--     Audio.Rest, Audio.Informed, Audio.Carried, Audio.Known,
--     Audio.Timing, Audio.Unstarted, Audio.Failing    proofs
--   src/audiodev.c  has the two PipeWire streams.
--     Audiodev.Stream what is asked of a stream, and what it does by then
--     Audiodev.Player the functions audiodev_playback_* and their callbacks
--     Audiodev.Recorder  the functions audiodev_record_*
--     Audiodev.Latency   audiodev_playback_latency
--     Audiodev.Process   the callbacks for a buffer, over audio_pull and audio_push
--     Audiodev.Backend   audiodev_init and audiodev_free
--     Audiodev.Agree  proofs
--   Prelude           what the files share
--   Tests             runs at concrete inputs
--
-- The state is passed on explicitly. Calls that have an effect outside of the program are recorded in
-- a list, newest first; what the kernel, libevdev, libsystemd and PureSpice answer is a parameter of
-- each function. An index or a descriptor of -1 is `none`. The rounds of the device threads interleave
-- as wholes, except in Input.Races, which cuts a round where the event is read and handled as a grab key
-- or a claim, where it is tested, and where it is sent. The code has no lock. Of the races inside of
-- such a part one is modelled: Input.Races.Claim cuts the choice of a mouse in its tests and the grab.
--
-- Loops run over what the outside gives them (the reads of a timer, the devices, the turns of the loop
-- of main), or over a number that falls (the wheel, the slots left), so no fuel is needed. A wait that
-- is not over when what is given ends is `none` in Ddc.Bus and `hangs` in Main.Loop; so is one for a timer
-- that was not set, which never expires. The loop of the
-- resampler runs on fuel: as much as the packet has frames is enough, if each call of the resampler uses
-- a frame (`Progresses`). In Main.Program a call for the sound that does not return is the last thing main
-- does.
--
-- Of audio.c, `double` is a type with operations and no laws, so what is proved of the clocks holds for
-- any rounding. The unbounded ring buffer of lib/LookingGlass is a type whose count moves by what is
-- appended and consumed (`IsUnbounded`). The bounded ring buffer of the ticks is a function from the
-- ticks that were pushed to those that it delivers. The calls of the two threads interleave as wholes.
--
-- Numbers: a byte is a number below 256. tv_ms_diff wraps at 2^64. The counters of a device thread are
-- `int` in the code and have no bound in the model; Input.Range bounds those of a touch device.
--
-- Signals come at three places of a turn of the loop of main, any number at each: before the grab state is
-- compared, between the switch of the display and the lines after it, and after these. Those that come before
-- or after the loop are not modelled.
--
-- The descriptors that are counted are those of the bus and of the timer; the directory streams that
-- ddcci_find_i2c leaves open are a number of their own (`streams` in Main.Loop).
--
-- Not modelled: messages and the title's text; the titles that on_audio_latency prints are apart from
-- those of the loop of main, in Main.Title; the samples themselves, of which the model has the counts;
-- the bounds of `int` and `int64_t` in audio.c and audiodev.c. main does not use the bus that
-- ddcci_find_i2c finds. PureSpice, PipeWire, libsamplerate and the copied Looking Glass library under
-- lib/ are not part of the program's own code.
pub mod Audio
pub mod Audiodev
pub mod Ddc
pub mod Input
pub mod Main
pub mod Prelude
pub mod Tests
