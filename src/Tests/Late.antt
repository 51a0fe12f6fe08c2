-- ===== src/Tests/Late.antt =====
-- The first packet of src/audio.c where the resampler fails, at concrete inputs.
use spicy_kvm.Prelude.{◌≡◌, refl, Option, none, some, [], ◌∷◌, ℤ, pos, ◌+ℤ◌, ◌-ℤ◌, arith}
use spicy_kvm.Audio.Outside.{failed}
use spicy_kvm.Audio.Playback.{setup_spice, run, resize_frames, make_frames}
use spicy_kvm.Audio.Live.{Live}
use spicy_kvm.Audio.Packet.{
  Surroundings, audio_playback_data, size_frames, store_packet, resample, start_device,
  report_latency,
}
use spicy_kvm.Audio.Clock.{
  receive_ticks, target_latency, measure_spice, new_spice_period, slew_spice, follow_spice,
  measure_offset, resample_ratio,
}
use spicy_kvm.Audio.Stored.{Returns}
use spicy_kvm.Audio.Session.{use_live, use_all}
use spicy_kvm.Audio.Session
use spicy_kvm.Audio.Unstarted.{starts}
use spicy_kvm.Audio.Failing.{late_packet_runs}
use spicy_kvm.Tests.Sound.{silence}
use spicy_kvm.Tests.Stream.{
  whole, counter, counter-IsUnbounded, halves-Progresses, live_silence, arrives,
}

-- The stream waits for its first packet, which the resampler refuses; the next one comes five seconds later.
abbrev ready : Live ℤ ℤ
ready = record live_silence {
  playback = record silence { state = setup_spice; channels = 2; sample_rate = 48000 };
}

abbrev refused : Surroundings ℤ
refused = record arrives { process = λ i n ratio room. failed }

abbrev comes_late : Surroundings ℤ
comes_late = record arrives { now = pos 5001000000 }

abbrev or_else : Option (Live ℤ ℤ) → Live ℤ ℤ → Live ℤ ℤ
or_else none l = l
or_else (some l') l = l'

abbrev after_refusal : Live ℤ ℤ
after_refusal = or_else (use_live (Session.packet refused 1920) ready) ready

late_packet_runs_example :
    let x = use_live (Session.packet comes_late 1920) after_refusal in
    let y =
      use_all
        (Session.packet comes_late 1920 ∷ Session.packet comes_late 1920 ∷ [])
        after_refusal in
    Returns (λ l. l.playback.state ≡ run) x × Returns (λ l. starts l.playback ≡ starts silence) y
unfolding audio_playback_data size_frames resize_frames make_frames store_packet receive_ticks
    target_latency measure_spice new_spice_period slew_spice follow_spice measure_offset
    resample_ratio resample start_device report_latency ◌+ℤ◌ ◌-ℤ◌
late_packet_runs_example =
    late_packet_runs counter-IsUnbounded refused comes_late 1920
      (Session.packet comes_late 1920 ∷ []) ready after_refusal refl refl refl (omega arith) refl
      refl (λ i n ratio room. refl) refl refl halves-Progresses (halves-Progresses, tt) refl
