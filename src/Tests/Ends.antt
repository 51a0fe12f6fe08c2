-- ===== src/Tests/Ends.antt =====
-- The presses, the buffers and the latency, at concrete inputs.
use spicy_kvm.Prelude.{◌≡◌, refl, true, false, none, [], ◌∷◌, pos, ◌-ℤ◌, arith}
use spicy_kvm.Input.Keys.{key_rightctrl}
use spicy_kvm.Input.State.{Timeval, input_is_grabbed}
use spicy_kvm.Input.Report.{thread_start}
use spicy_kvm.Input.Held.{is_held}
use spicy_kvm.Input.Release.{press, press_lem}
use spicy_kvm.Input.State.{tv_ms_diff}
use spicy_kvm.Main.Loop.{Options, options, main_start, main_loop}
use spicy_kvm.Main.Leaving.{EndsWith, main_loop-EndsWith}
use spicy_kvm.Audiodev.Latency.{
  Time, audiodev_playback_latency, audiodev_playback_latency-zero, elapsed_frames,
}
use spicy_kvm.Audiodev.Process.{buffer, Fits, audiodev_on_playback_process, process-Fits}
use spicy_kvm.Tests.Keyboard.{holding, holding-Inv}
use spicy_kvm.Tests.Display.{turn, expirations}
use spicy_kvm.Tests.Stream.{whole, counter, waiting}

abbrev at_100 : Timeval
at_100 = record { tv_sec = 100; tv_usec = 0 }

abbrev at_100_2 : Timeval
at_100_2 = record { tv_sec = 100; tv_usec = 200000 }

press_lem_example :
    let s' = press key_rightctrl 0 at_100 at_100_2 thread_start holding in
    (s'.grabbed_keyboard ≡ none) × (s'.grabbed_mouse ≡ none) × (is_held s'.calls 0 ≡ false)
unfolding tv_ms_diff
press_lem_example =
    press_lem key_rightctrl 0 at_100 at_100_2 thread_start holding 0 refl refl holding-Inv
      (omega arith) refl

abbrev leaves : Options
leaves = record options { linger = false }

main_loop-EndsWith_example : EndsWith 1 (
    main_loop leaves
      (turn false true ∷ [])
      (record (main_start expirations) { was_grabbed = true }))
unfolding input_is_grabbed
main_loop-EndsWith_example =
    main_loop-EndsWith leaves (turn false true) []
      (record (main_start expirations) { was_grabbed = true }) refl refl refl

-- A delay of 1024 frames of which 48 have passed, with much in the queue.
abbrev early : Time
early = record {
  now = pos 1000000000;
  rate_num = 1;
  rate_denom = 48000;
  delay = pos 1024;
  queued = 4800;
  buffered = 4800;
}

audiodev_playback_latency-zero_example : audiodev_playback_latency (pos 1001000000) 48000 early ≡ 0
unfolding elapsed_frames ◌-ℤ◌
audiodev_playback_latency-zero_example =
    audiodev_playback_latency-zero (pos 1001000000) 48000 early refl

process-Fits_example : Fits 4096 (audiodev_on_playback_process (pos 0) (buffer 4096) waiting).1
process-Fits_example = process-Fits (pos 0) 4096 waiting
