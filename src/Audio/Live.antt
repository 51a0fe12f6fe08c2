-- ===== src/Audio/Live.antt =====
-- src/audio.c: the fields of `audio.playback` that the two data functions use, and the control
-- functions on all fields.
use spicy_kvm.Prelude.{ℕ, Bool, true, false, List, [], if◌then◌else◌, ℤ}
use spicy_kvm.Audiodev.Player.{Pw}
use spicy_kvm.Audio.Outside.{Double, RingBuffer}
use spicy_kvm.Audio.Playback.{
  StreamState, Playback, Clocks, audio_playback_start, audio_playback_stop, audio_playback_volume,
  audio_playback_mute,
}

-- `PlaybackDeviceTick`
pub record DeviceTick : Type 0 where
  pub period_frames : ℕ
  pub next_time : ℤ
  pub next_position : ℤ

-- The fields of `PlaybackDeviceData` that are not in `Clocks`.
pub record DeviceClock {ℓ} (F : Type ℓ) : Type ℓ where
  pub period_sec : F
  pub next_time : ℤ
  pub b : F
  pub c : F

-- The fields of `PlaybackSpiceData` that are not in `Clocks`, without the pointers.
pub record SpiceClock {ℓ} (F : Type ℓ) : Type ℓ where
  pub frames_out_size : ℤ
  pub period_sec : F
  pub next_time : ℤ
  pub b : F
  pub c : F
  pub dev_last_position : ℤ
  pub dev_next_position : ℤ
  pub offset_error : F
  pub offset_error_integral : F
  pub ratio_integral : F

-- `audio.playback`, with what was pushed to `deviceTiming` since it was last read and to `timings`, and
-- what `latency_cb` was called with, newest first. The ring buffer `buffer` is not null exactly if the state is not STOP.
pub record Live {ℓ κ} (F : Type ℓ) (B : Type κ) : Type (ℓ ⊔ κ) where
  pub playback : Playback
  pub buffer : B
  pub target_start_frames : ℕ
  pub device : DeviceClock F
  pub spice : SpiceClock F
  pub ticks : List DeviceTick
  pub timings : List F
  pub reports : List (F × F × F)

abbrev pub with_clocks {ℓ κ} : {F : Type ℓ} {B : Type κ} → Live F B → Clocks → Live F B
with_clocks l c = record l { playback = record l.playback { clocks = c } }

abbrev pub with_state {ℓ κ} : {F : Type ℓ} {B : Type κ} → Live F B → StreamState → Live F B
with_state l s = record l { playback = record l.playback { state = s } }

abbrev pub with_playback {ℓ κ} : {F : Type ℓ} {B : Type κ} → Live F B → Playback → Live F B
with_playback l p = record l { playback = p }

abbrev pub is_setup_spice : StreamState → Bool
is_setup_spice StreamState.setup_spice = true
is_setup_spice _ = false

module _ {ℓ κ} {F : Type ℓ} {B : Type κ} ⦃d : Double F⦄ ⦃rb : RingBuffer B⦄ where
  -- The other fields that `audio_playback_start` sets, where it comes to set the state to SETUP_SPICE.
  abbrev reset_live : Live F B → Live F B
  reset_live l = record l {
    buffer = rb.new_unbounded;
    ticks = [];
    timings = [];
    spice = record l.spice {
      offset_error = d.dec 0 0;
      offset_error_integral = d.dec 0 0;
      ratio_integral = d.dec 0 0;
    };
  }

  -- `audio_playback_start` returns at once for the format that is kept alive.
  unfoldable pub live_start : Pw → Bool → ℕ → ℕ → ℕ → Live F B → Live F B
  live_start w src_ok requested channels sample_rate l =
      let p = audio_playback_start w src_ok requested channels sample_rate l.playback in
      if is_setup_spice p.state then with_playback (reset_live l) p else with_playback l p

module _ {ℓ κ} {F : Type ℓ} {B : Type κ} where
  unfoldable pub live_stop : Bool → Live F B → Live F B
  live_stop reset_ok l = with_playback l (audio_playback_stop reset_ok l.playback)

  unfoldable pub live_volume : List ℕ → Live F B → Live F B
  live_volume vs l = with_playback l (audio_playback_volume vs l.playback)

  unfoldable pub live_mute : Bool → Live F B → Live F B
  live_mute mute l = with_playback l (audio_playback_mute mute l.playback)
