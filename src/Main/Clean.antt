-- ===== src/Main/Clean.antt =====
-- The clean end of src/main.c: what the program leaves behind.
use spicy_kvm.Prelude.{◌≡◌, true, false, zero, suc, some, List, ◌||◌, arith}
use spicy_kvm.Ddc.Bus.{Tick}
use spicy_kvm.Ddc.Descriptors.{opened, closed}
use spicy_kvm.Audiodev.Backend.{Part, made, ended}
use spicy_kvm.Audio.Outside.{Double, RingBuffer}
use spicy_kvm.Audio.Playback.{Resource, is_stopped}
use spicy_kvm.Audio.Balance.{freed, made as made_of}
use spicy_kvm.Audio.Shutdown.{audio_start, audio_free_lem}
use spicy_kvm.Audio.Quiet.{IsQuiet}
use spicy_kvm.Input.Keys.{Key}
use spicy_kvm.Input.Init.{Setup}
use spicy_kvm.Main.Loop.{Options, Outcome, goes_on, exits, hangs, Boot, main, main_start}
use spicy_kvm.Main.Closed.{End, main-End}
use spicy_kvm.Main.Freed.{IsFreed, main-IsFreed}
use spicy_kvm.Main.Sound.{Heed, live_zero, sound_of, Quiet-heed_all, Heard-sound_of}
use spicy_kvm.Main.Program.{
  Interval, input_ready, input_start_of, sound_ready, turns_of, AllHeard-turns_of, program,
}

-- Where the program returns 0: each part of PipeWire that was made is ended; the playback is stopped, and
-- each of its resources that was made is freed; neither stream is there; and as many descriptors of the
-- display's bus and timer were closed as were opened.
abbrev pub IsClean : Outcome → Type 0
IsClean (exits zero m) =
    ((x : Part) → made x m.audio.turns ≡ ended x m.audio.turns)
    × (is_stopped m.audio.playback.state ≡ true)
    × ((x : Resource) → made_of x m.audio.playback.changes ≡ freed x m.audio.playback.changes)
    × (m.audio.playback.player.stream ≡ false)
    × (m.audio.recording.recorder.stream ≡ false)
    × (opened m.ddcci.calls ≡ closed m.ddcci.calls)
IsClean _ = Unit

IsClean-IsFreed : (r : Outcome) → IsFreed IsQuiet r → End r → IsClean r
IsClean-IsFreed (goes_on m) f c = tt
IsClean-IsFreed (exits zero m) (parts, (a, q, e)) c =
    let (stopped, player, recorder, all) = audio_free_lem a Resource.src q.balanced in
    (
      parts,
      rw e stopped,
      λ x. rw e (audio_free_lem a x q.balanced).3,
      rw e player,
      rw e recorder,
      c,
    )
IsClean-IsFreed (exits (suc n) m) f c = tt
IsClean-IsFreed hangs f c = tt

start-IsQuiet : IsQuiet audio_start.playback
start-IsQuiet = record { balanced = ground arith; quiet = ground arith }

module _ {ℓ κ} {F : Type ℓ} (B : Type κ) ⦃d : Double F⦄ ⦃rb : RingBuffer B⦄ where
  -- Whatever the devices, PureSpice and PipeWire did: where the program returns 0, with the sound enabled,
  -- each part of PipeWire that was made is ended, the playback is stopped with all of its resources freed,
  -- neither stream is there, and as many descriptors of the display's bus and its timer are closed as were opened.
  -- The directory streams that `ddcci_find_i2c` leaves open are not among them.
  pub program-IsClean :
      (reads : List Tick) (o : Options) (b : Boot) (u : Setup) (codes : List Key)
      (hs : List (Heed F)) (rs : List (Interval F))
      → o.playback_enable || o.record_enable ≡ true
      → IsClean (program B o b u codes hs rs (main_start reads))
  unfolding program
  program-IsClean reads o b u codes hs rs on =
      let f = input_start_of o u codes in
      let x = sound_ready B hs in
      let b' = record b { input_ok = (input_ready o u codes).1; sound = sound_of x } in
      let us = turns_of rs f x in
      let quiet = Quiet-heed_all hs (some (live_zero, audio_start.recording)) start-IsQuiet in
      IsClean-IsFreed (main o b' us (main_start reads))
        (main-IsFreed IsQuiet reads o b' us on start-IsQuiet (Heard-sound_of x quiet)
          (AllHeard-turns_of rs f x quiet))
        (main-End reads o b' us)
