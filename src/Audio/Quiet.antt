-- ===== src/Audio/Quiet.antt =====
-- A playback of src/audio.c: what it made is freed, and the device is quiet while nothing is played.
use spicy_kvm.Prelude.{ℕ, ◌≡◌, Bool, true, false, ◌&&◌, arith, inl, inr, Bool-cases}
use spicy_kvm.Audiodev.Stream.{Flow, active}
use spicy_kvm.Audiodev.Player.{
  Pw, audiodev_playback_setup, audiodev_playback_stop_stream, audiodev_playback_stop,
  audiodev_playback_volume, audiodev_playback_mute,
}
use spicy_kvm.Audio.Playback.{
  StreamState, state_stop, setup_spice, Playback, is_stopped, playback_stop, set_up_playback,
  audio_playback_start, audio_playback_stop, audio_playback_volume, audio_playback_mute,
  make_frames, resize_frames,
}
use spicy_kvm.Audio.Balance.{
  Balanced, stop-Balanced, is_stopped-playback_stop, start-Balanced, resize-Balanced, Use,
  use_playback, use_playback-Balanced,
}
use spicy_kvm.Audio.Balance

-- The states in which the device has not been started.
abbrev pub is_off : StreamState → Bool
is_off state_stop = true
is_off setup_spice = true
is_off _ = false

abbrev pub is_active : Flow → Bool
is_active active = true
is_active _ = false

pub record IsQuiet (p : Playback) : Type 0 where
  pub balanced : Balanced p
  pub quiet : is_off p.state && is_active p.player.state ≡ false

-- What changes neither the resources nor the stream, and does not stop.
pub record Same (p q : Playback) : Type 0 where
  pub changes : q.changes ≡ p.changes
  pub frames : q.has_frames ≡ p.has_frames
  pub out : q.has_out ≡ p.has_out
  pub timings : q.has_timings ≡ p.has_timings
  pub stopped : is_stopped q.state ≡ is_stopped p.state
  pub off : is_off q.state ≡ true → is_off p.state ≡ true
  pub player : q.player ≡ p.player

pub Same-refl : (p : Playback) → Same p p
Same-refl p = ground arith

pub Same-trans : {p q r : Playback} → Same p q → Same q r → Same p r
Same-trans s t = ground arith

pub Same-IsQuiet : (p q : Playback) → Same p q → IsQuiet p → IsQuiet q
Same-IsQuiet p q s v = ground arith

is_off-playback_stop : (p : Playback) → is_off (playback_stop p).state ≡ true
unfolding playback_stop
is_off-playback_stop p = ground arith

pub playback_stop-IsQuiet : (p : Playback) → IsQuiet p → IsQuiet (playback_stop p)
unfolding playback_stop audiodev_playback_stop
playback_stop-IsQuiet p v = record { balanced = stop-Balanced p v.balanced; quiet = ground arith }

pub resize_quiet :
    (in_ok out_ok : Bool) (frames : ℕ) (p : Playback)
    → is_stopped p.state ≡ false
    → IsQuiet p
    → let q = (resize_frames in_ok out_ok frames p).0 in
      is_off q.state && is_active q.player.state ≡ false
unfolding resize_frames make_frames playback_stop audiodev_playback_stop
resize_quiet false out_ok frames p live v = ground arith
resize_quiet true false frames p live v = ground arith
resize_quiet true true frames p live v = ground arith

pub resize_goes_on :
    (in_ok out_ok : Bool) (frames : ℕ) (p : Playback)
    → (resize_frames in_ok out_ok frames p).1 ≡ true
    → is_stopped (resize_frames in_ok out_ok frames p).0.state ≡ is_stopped p.state
unfolding resize_frames make_frames
resize_goes_on false out_ok frames p h = ground arith
resize_goes_on true false frames p h = ground arith
resize_goes_on true true frames p h = ground arith

set_up_quiet :
    (w : Pw) (requested channels sample_rate : ℕ) (p : Playback)
    → is_active p.player.state ≡ false
    → is_active (set_up_playback w requested channels sample_rate p).player.state ≡ false
unfolding set_up_playback audiodev_playback_setup audiodev_playback_stop_stream
    audiodev_playback_volume audiodev_playback_mute
set_up_quiet w requested channels sample_rate p h = ground arith

pub start-IsQuiet :
    (w : Pw) (src_ok : Bool) (requested channels sample_rate : ℕ) (p : Playback)
    → IsQuiet p
    → IsQuiet (audio_playback_start w src_ok requested channels sample_rate p)
unfolding audio_playback_start
start-IsQuiet w src_ok requested channels sample_rate p v =
    let q = playback_stop p in
    let stopped = playback_stop-IsQuiet p v in
    let off : is_active q.player.state ≡ false = ground (arith, stopped, is_off-playback_stop p) in
    record {
      balanced = start-Balanced w src_ok requested channels sample_rate p v.balanced;
      quiet = ground (arith, stopped, off, set_up_quiet w requested channels sample_rate q off);
    }

pub control-IsQuiet : (u : Balance.Use) (p : Playback) → IsQuiet p → IsQuiet (use_playback u p)
unfolding audio_playback_stop playback_stop audiodev_playback_stop audio_playback_volume
    audio_playback_mute audiodev_playback_volume audiodev_playback_mute
control-IsQuiet (Balance.start w src_ok requested channels sample_rate) p v =
    start-IsQuiet w src_ok requested channels sample_rate p v
control-IsQuiet (Balance.stop reset_ok) p v = record {
  balanced = use_playback-Balanced (Balance.stop reset_ok) p v.balanced;
  quiet = ground arith;
}
control-IsQuiet (Balance.volume vs) p v = record {
  balanced = use_playback-Balanced (Balance.volume vs) p v.balanced;
  quiet = ground arith;
}
control-IsQuiet (Balance.mute m) p v = record {
  balanced = use_playback-Balanced (Balance.mute m) p v.balanced;
  quiet = ground arith;
}
control-IsQuiet (Balance.resize in_ok out_ok frames) p v = elim (Bool-cases (is_stopped p.state)) [
  | inl s ↦ rw s v
  | inr s ↦ rw s (record {
    balanced = resize-Balanced in_ok out_ok frames p v.balanced s;
    quiet = resize_quiet in_ok out_ok frames p s v;
  })
]
