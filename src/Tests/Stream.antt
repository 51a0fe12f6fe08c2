-- ===== src/Tests/Stream.antt =====
-- The sound of src/audio.c over whole numbers, which stand for `double`.
use spicy_kvm.Prelude.{
  ℕ, zero, suc, ◌+◌, ◌-◌, ◌*◌, ◌/◌, ◌<◌, ◌≤◌, ◌≡◌, refl, sym, ◌++◌, true, not, List, [], ◌∷◌, ℤ,
  pos, negsuc, ◌+ℤ◌, ◌-ℤ◌, is_negative, is_num, arith, if◌then◌else◌,
}
use spicy_kvm.Audio.Outside.{Double, RingBuffer, IsUnbounded, Resampler, resampled, Progresses}
use spicy_kvm.Audio.Playback.{setup_device, keep_alive, run, clocks_start, is_stopped}
use spicy_kvm.Audio.Live.{Live, DeviceTick}
use spicy_kvm.Audio.Pull.{
  begin_run, play, close_if_silent, follow_device, measure_device, audio_pull,
}
use spicy_kvm.Audio.Packet.{Surroundings}
use spicy_kvm.Audio.Positions.{Tracks}
use spicy_kvm.Audio.Stored.{Returns}
use spicy_kvm.Audio.Session.{AllProgress, Use, use_all, use_all-Tracks}
use spicy_kvm.Audio.Session
use spicy_kvm.Audio.Informed.{DeliversNewest, known_position, Informed}
use spicy_kvm.Audio.Known.{use_all-Informed}
use spicy_kvm.Audio.Quiet.{IsQuiet}
use spicy_kvm.Audio.Rest.{use_all-IsQuiet}
use spicy_kvm.Audio.Timing.{padded, pull_all, audio_pull_first, pull_all_stops}
use spicy_kvm.Tests.Sound.{pipewire, silence, silence-Balanced}

abbrev negated : ℤ → ℤ
negated (pos zero) = pos 0
negated (pos (suc n)) = negsuc n
negated (negsuc n) = pos (suc n)

-- By a function on the sizes.
abbrev by_size : (ℕ → ℕ → ℕ) → ℤ → ℤ → ℤ
by_size f (pos a) (pos b) = pos (f a b)
by_size f (pos a) (negsuc b) = negated (pos (f a (suc b)))
by_size f (negsuc a) (pos b) = negated (pos (f (suc a) b))
by_size f (negsuc a) (negsuc b) = pos (f (suc a) (suc b))

abbrev power : ℕ → ℕ
power zero = 1
power (suc k) = 10 * power k

-- A constant is rounded up.
instance abbrev pub whole : Double ℤ
whole = record {
  dec = λ n k. pos ((n + power k - 1) / power k);
  pi = pos 3;
  sqrt2 = pos 1;
  dbl_min = pos 0;
  of_int = λ x. x;
  add = λ x y. x +ℤ y;
  sub = λ x y. x -ℤ y;
  mul = by_size (λ a b. a * b);
  div = by_size (λ a b. a / b);
  neg = negated;
  fabs = λ x. if is_negative x then negated x else x;
  ge = λ x y. not (is_negative (x -ℤ y));
  eq = λ x y. is_num (x -ℤ y) 0;
  llrint = λ x. x;
  round = λ x. x;
  to_float = λ x. x;
}

-- A ring buffer is the count of its frames.
instance abbrev pub counter : RingBuffer ℤ
counter = record {
  new_unbounded = pos 0;
  count = λ b. b;
  append = λ n b. b +ℤ n;
  consume = λ n b. b -ℤ n;
}

pub counter-IsUnbounded : IsUnbounded ℤ
counter-IsUnbounded = record {
  count-new_unbounded = refl;
  count-append = λ n b. refl;
  count-consume = λ n b. refl;
}

-- Half of the frames that are given, rounded up, are used, and one more is made.
abbrev halves : Resampler ℤ
halves i n ratio room = resampled ((n + 1) / 2) ((n + 1) / 2 + 1)

half : (n : ℕ) → 0 < n → (0 < (n + 1) / 2) × ((n + 1) / 2 ≤ n)
half n h = omega arith

resampled-injective : (a b c d : ℕ) → resampled a b ≡ resampled c d → a ≡ c
resampled-injective a b c d h = cc

pub halves-Progresses : Progresses halves
halves-Progresses = record {
  uses = λ i n ratio room used made h e.
      let (some_frames, no_more) = half n h in
      let same = resampled-injective ((n + 1) / 2) ((n + 1) / 2 + 1) used made e in omega arith;
}

abbrev pub live_silence : Live ℤ ℤ
live_silence = record {
  playback = silence;
  buffer = pos 0;
  target_start_frames = 0;
  device = record { period_sec = pos 0; next_time = pos 0; b = pos 0; c = pos 0 };
  spice = record {
    frames_out_size = pos 0;
    period_sec = pos 0;
    next_time = pos 0;
    b = pos 0;
    c = pos 0;
    dev_last_position = pos 0;
    dev_next_position = pos 0;
    offset_error = pos 0;
    offset_error_integral = pos 0;
    ratio_integral = pos 0;
  };
  ticks = [];
  timings = [];
  reports = [];
}

-- The oldest first.
abbrev onto : List DeviceTick → List DeviceTick → List DeviceTick
onto [] us = us
onto (t ∷ ts) us = onto ts (t ∷ us)

onto_append : (ts us vs : List DeviceTick) → onto ts us ++ vs ≡ onto ts (us ++ vs)
onto_append [] us vs = refl
onto_append (t ∷ ts) us vs = onto_append ts (t ∷ us) vs

onto-DeliversNewest : DeliversNewest (λ ts. onto ts [])
onto-DeliversNewest = record {
  no_tick = refl;
  newest = λ t ts. (onto ts [], sym (onto_append ts [] (t ∷ [])));
}

abbrev pub arrives : Surroundings ℤ
arrives = record {
  now = pos 1000000;
  in_ok = true;
  out_ok = true;
  delivers = λ ts. onto ts [];
  process = halves;
  clock = pos 1000000;
  clock_again = pos 1000000;
  time = record {
    now = pos 0;
    rate_num = 1;
    rate_denom = 48000;
    delay = pos 256;
    queued = 0;
    buffered = 0;
  };
  has_callback = true;
  buffer_latency = pos 12;
}

-- Two packets and what the device takes of them; then the playback is kept alive.
abbrev playing : List (Use ℤ)
playing =
    Session.start pipewire true 256 2 48000
    ∷ Session.packet arrives 1920
    ∷ Session.pull (pos 2000000) 256
    ∷ Session.pull (pos 7000000) 256
    ∷ Session.packet (record arrives { now = pos 11000000 }) 1920
    ∷ Session.stop true
    ∷ Session.pull (pos 12000000) 256
    ∷ []

playing-AllProgress : AllProgress playing
playing-AllProgress = (tt, (halves-Progresses, (tt, (tt, (halves-Progresses, (tt, (tt, tt)))))))

use_all-Informed_example : Returns Informed (use_all playing live_silence)
unfolding ◌+ℤ◌ known_position
use_all-Informed_example =
    use_all-Informed counter-IsUnbounded playing live_silence playing-AllProgress
      (tt, (onto-DeliversNewest, (tt, (tt, (onto-DeliversNewest, (tt, (tt, tt))))))) refl refl

use_all-Tracks_example : Returns Tracks (use_all playing live_silence)
unfolding ◌+ℤ◌
use_all-Tracks_example =
    use_all-Tracks counter-IsUnbounded playing live_silence playing-AllProgress refl

use_all-IsQuiet_example : Returns (λ l. IsQuiet l.playback) (use_all playing live_silence)
unfolding ◌+ℤ◌
use_all-IsQuiet_example =
    use_all-IsQuiet counter-IsUnbounded playing live_silence playing-AllProgress refl
      (record { balanced = silence-Balanced; quiet = refl })

-- A device that was just started, with fewer frames than the target.
abbrev pub waiting : Live ℤ ℤ
waiting = record live_silence {
  playback = record silence { state = setup_device; sample_rate = 48000 };
  buffer = pos 480;
  target_start_frames = 1500;
}

audio_pull_first_example :
    let (l', given) = audio_pull (pos 0) 256 waiting in
    (given ≡ 256) × (l'.playback.state ≡ run) × (l'.buffer ≡ padded (pos 480) 1500 -ℤ pos 256)
audio_pull_first_example =
    audio_pull_first counter-IsUnbounded (pos 0) 256 waiting refl refl (omega arith)

-- Kept alive with 100 frames left and a period of 256 at one frame a second.
abbrev alive : Live ℤ ℤ
alive = record live_silence {
  playback = record silence {
    state = keep_alive;
    sample_rate = 1;
    clocks = record clocks_start { device_period_frames = 64 };
  };
  buffer = pos 100;
  device = record { period_sec = pos 0; next_time = pos 0; b = pos 0; c = pos 0 };
}

pull_all_stops_example :
    is_stopped (pull_all ((pos 0, 64) ∷ (pos 0, 64) ∷ (pos 0, 64) ∷ []) alive).playback.state ≡ true
unfolding audio_pull measure_device follow_device begin_run play close_if_silent ◌+ℤ◌ ◌-ℤ◌
pull_all_stops_example =
    pull_all_stops counter-IsUnbounded ((pos 0, 64) ∷ (pos 0, 64) ∷ (pos 0, 64) ∷ []) alive refl
      refl refl refl
