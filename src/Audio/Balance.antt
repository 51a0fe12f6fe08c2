-- ===== src/Audio/Balance.antt =====
-- What the playback of src/audio.c makes is freed.
use spicy_kvm.Prelude.{
  ℕ, ◌+◌, ◌≡◌, ◌∙◌, inl, inr, Bool-cases, ◌==◌, Bool, true, false, List, [], ◌∷◌, if◌then◌else◌,
  arith,
}
use spicy_kvm.Audiodev.Player.{Pw}
use spicy_kvm.Audio.Playback.{
  Resource, src, buffer, device_timing, timings, frames_in, frames_out, Change, makes, frees,
  Playback, is_stopped, playback_stop, set_up_playback, audio_playback_start, audio_playback_stop,
  audio_playback_volume, audio_playback_mute, make_frames, drop_frames, resize_frames,
}

abbrev pub same : Resource → Resource → Bool
same src src = true
same buffer buffer = true
same device_timing device_timing = true
same timings timings = true
same frames_in frames_in = true
same frames_out frames_out = true
same _ _ = false

abbrev pub made : Resource → List Change → ℕ
made x [] = 0
made x (makes y ∷ cs) = if same y x then made x cs + 1 else made x cs
made x (frees y ∷ cs) = made x cs

abbrev pub freed : Resource → List Change → ℕ
freed x [] = 0
freed x (makes y ∷ cs) = freed x cs
freed x (frees y ∷ cs) = if same y x then freed x cs + 1 else freed x cs

abbrev bit : Bool → ℕ
bit true = 1
bit false = 0

-- How many of a resource there are in a state.
abbrev pub wanted : Resource → Playback → ℕ
wanted frames_in p = bit p.has_frames
wanted frames_out p = bit p.has_out
wanted timings p = bit p.has_timings
wanted src p = if is_stopped p.state then 0 else 1
wanted buffer p = if is_stopped p.state then 0 else 1
wanted device_timing p = if is_stopped p.state then 0 else 1

pub record Balanced (p : Playback) : Type 0 where
  pub src_balance : made src p.changes ≡ freed src p.changes + wanted src p
  pub buffer_balance : made buffer p.changes ≡ freed buffer p.changes + wanted buffer p
  pub timing_balance :
      made device_timing p.changes ≡ freed device_timing p.changes + wanted device_timing p
  pub timings_balance : made timings p.changes ≡ freed timings p.changes + wanted timings p
  pub in_balance : made frames_in p.changes ≡ freed frames_in p.changes + wanted frames_in p
  pub out_balance : made frames_out p.changes ≡ freed frames_out p.changes + wanted frames_out p
  pub no_frames : is_stopped p.state ≡ true → p.has_frames ≡ false
  pub in_with_out : p.has_out ≡ true → p.has_frames ≡ true
  pub no_timings : is_stopped p.state ≡ true → p.has_timings ≡ false

-- The uses of the playback that start, stop and set it, or size its arrays.
pub data Use : Type 0 where
  start : Pw → Bool → ℕ → ℕ → ℕ → Use
  stop : Bool → Use
  volume : List ℕ → Use
  mute : Bool → Use
  resize : Bool → Bool → ℕ → Use

-- A packet is looked at only while the playback is not stopped.
abbrev pub use_playback : Use → Playback → Playback
use_playback (start w src_ok requested channels sample_rate) p =
    audio_playback_start w src_ok requested channels sample_rate p
use_playback (stop reset_ok) p = audio_playback_stop reset_ok p
use_playback (volume vs) p = audio_playback_volume vs p
use_playback (mute m) p = audio_playback_mute m p
use_playback (resize in_ok out_ok frames) p =
    if is_stopped p.state then p else (resize_frames in_ok out_ok frames p).0

abbrev pub use_all : List Use → Playback → Playback
use_all [] p = p
use_all (u ∷ us) p = use_all us (use_playback u p)

pub stop-Balanced : (p : Playback) → Balanced p → Balanced (playback_stop p)
unfolding playback_stop
stop-Balanced p v = ground arith

set_up-Balanced :
    (w : Pw) (requested channels sample_rate : ℕ) (p : Playback)
    → is_stopped p.state ≡ true
    → Balanced p
    → Balanced (set_up_playback w requested channels sample_rate p)
unfolding set_up_playback
set_up-Balanced w requested channels sample_rate p s v = ground arith

pub is_stopped-playback_stop : (p : Playback) → is_stopped (playback_stop p).state ≡ true
unfolding playback_stop
is_stopped-playback_stop p = ground arith

if-Balanced : (b : Bool) (x y : Playback) → Balanced x → Balanced y → Balanced (if b then x else y)
if-Balanced true x y v w = v
if-Balanced false x y v w = w

pub start-Balanced :
    (w : Pw) (src_ok : Bool) (requested channels sample_rate : ℕ) (p : Playback)
    → Balanced p
    → Balanced (audio_playback_start w src_ok requested channels sample_rate p)
unfolding audio_playback_start
start-Balanced w src_ok requested channels sample_rate p v =
    let stopped = stop-Balanced p v in
    if-Balanced _ p _ v (
      if-Balanced src_ok _ (playback_stop p)
        (set_up-Balanced w requested channels sample_rate (playback_stop p)
          (is_stopped-playback_stop p) stopped)
        stopped)

drop-Balanced :
    (frames : ℕ) (p : Playback)
    → Balanced p
    → Balanced (drop_frames frames p)
      × ((drop_frames frames p).has_frames ≡ false)
      × ((drop_frames frames p).has_out ≡ false)
      × (is_stopped (drop_frames frames p).state ≡ is_stopped p.state)
drop-Balanced frames p v = ground arith

make-Balanced :
    (in_ok out_ok : Bool) (p : Playback)
    → is_stopped p.state ≡ false
    → p.has_frames ≡ false
    → p.has_out ≡ false
    → Balanced p
    → Balanced (make_frames in_ok out_ok p).0
unfolding make_frames playback_stop
make-Balanced false out_ok p s f o v = ground arith
make-Balanced true false p s f o v = ground arith
make-Balanced true true p s f o v = ground arith

pub resize-Balanced :
    (in_ok out_ok : Bool) (frames : ℕ) (p : Playback)
    → Balanced p
    → is_stopped p.state ≡ false
    → Balanced (resize_frames in_ok out_ok frames p).0
unfolding resize_frames
resize-Balanced in_ok out_ok frames p v s =
    let (dropped, f, o, same_state) = drop-Balanced frames p v in
    elim (Bool-cases (frames == p.clocks.spice_period_frames)) [
      | inl e ↦ rw e v
      | inr e ↦
          rw e (make-Balanced in_ok out_ok (drop_frames frames p) (same_state ∙ s) f o dropped)
    ]

pub use_playback-Balanced : (u : Use) (p : Playback) → Balanced p → Balanced (use_playback u p)
unfolding playback_stop audio_playback_stop audio_playback_volume audio_playback_mute
use_playback-Balanced (start w src_ok requested channels sample_rate) p v =
    start-Balanced w src_ok requested channels sample_rate p v
use_playback-Balanced (stop reset_ok) p v = ground arith
use_playback-Balanced (volume vs) p v = ground arith
use_playback-Balanced (mute m) p v = ground arith
use_playback-Balanced (resize in_ok out_ok frames) p v = elim (Bool-cases (is_stopped p.state)) [
  | inl s ↦ rw s v
  | inr s ↦ rw s (resize-Balanced in_ok out_ok frames p v s)
]

-- However the playback is started, stopped, set and given packets, and whatever fails, a resource is
-- there once while it is in use and not otherwise: what was made and is not in use has been freed once.
use_all-Balanced : (us : List Use) (p : Playback) → Balanced p → Balanced (use_all us p)
use_all-Balanced [] p v = v
use_all-Balanced (u ∷ us) p v = use_all-Balanced us (use_playback u p) (use_playback-Balanced u p v)
