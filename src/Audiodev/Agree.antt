-- ===== src/Audiodev/Agree.antt =====
-- The state of src/audiodev.c and what its streams do.
use spicy_kvm.Prelude.{
  ℕ, suc, ◌≡◌, refl, Bool, true, false, ◌&&◌, ◌||◌, Option, List, [], ◌∷◌, if◌then◌else◌, arith,
}
use spicy_kvm.Audiodev.Stream.{Flow, inactive, draining, Op, set_active, flow_of}
use spicy_kvm.Audiodev.Player.{
  Player, Pw, has_format, audiodev_on_playback_io_changed, audiodev_on_playback_drained,
  audiodev_playback_stop_stream, audiodev_playback_setup, audiodev_playback_start,
  audiodev_playback_stop, audiodev_playback_volume, audiodev_playback_mute,
}

-- The uses of the playback stream; `drained` is the event that PipeWire sends at the end of a drain.
pub data Use : Type 0 where
  set_up : Pw → ℕ → ℕ → ℕ → Use
  start stop drained : Use
  volume : List ℕ → Use
  mute : Bool → Use
  io_changed : Option ℕ → Use

abbrev pub is_draining : Flow → Bool
is_draining draining = true
is_draining _ = false

abbrev pub is_idle : Flow → Bool
is_idle inactive = true
is_idle _ = false

-- A stream that does not drain sends no end of a drain.
abbrev pub use_player : Use → Player → Player
use_player (set_up w channels sample_rate requested) p =
    audiodev_playback_setup w channels sample_rate requested p
use_player start p = audiodev_playback_start p
use_player stop p = audiodev_playback_stop p
use_player drained p = if is_draining (flow_of p.ops) then audiodev_on_playback_drained p else p
use_player (volume vs) p = audiodev_playback_volume vs p
use_player (mute m) p = audiodev_playback_mute m p
use_player (io_changed size) p = audiodev_on_playback_io_changed size p

abbrev pub use_all : List Use → Player → Player
use_all [] p = p
use_all (u ∷ us) p = use_all us (use_player u p)

-- A set-up of another format comes only while the state is INACTIVE.
abbrev pub is_calm : Use → Player → Bool
is_calm (set_up w channels sample_rate requested) p =
    has_format channels sample_rate p || is_idle p.state
is_calm _ p = true

abbrev pub are_calm : List Use → Player → Bool
are_calm [] p = true
are_calm (u ∷ us) p = is_calm u p && are_calm us (use_player u p)

use_player_agrees :
    (u : Use) (p : Player)
    → is_calm u p ≡ true
    → flow_of p.ops ≡ p.state
    → flow_of (use_player u p).ops ≡ (use_player u p).state
unfolding audiodev_playback_setup audiodev_playback_stop_stream audiodev_playback_start
    audiodev_playback_stop audiodev_on_playback_drained audiodev_playback_volume
    audiodev_playback_mute audiodev_on_playback_io_changed
use_player_agrees (set_up w channels sample_rate requested) p c e = ground arith
use_player_agrees start p c e = ground arith
use_player_agrees stop p c e = ground arith
use_player_agrees drained p c e = ground arith
use_player_agrees (volume vs) p c e = ground arith
use_player_agrees (mute m) p c e = ground arith
use_player_agrees (io_changed size) p c e = e

-- The state is what the stream does, after any uses of it in which the format changes only while the
-- state is INACTIVE, if it was before them.
pub use_all_agrees :
    (us : List Use) (p : Player)
    → are_calm us p ≡ true
    → flow_of p.ops ≡ p.state
    → let p' = use_all us p in flow_of p'.ops ≡ p'.state
use_all_agrees [] p c e = e
use_all_agrees (u ∷ us) p c e =
    use_all_agrees us (use_player u p) (ground arith) (use_player_agrees u p (ground arith) e)

-- How often the stream was activated.
abbrev pub activations : List Op → ℕ
activations [] = 0
activations (set_active true ∷ ops) = suc (activations ops)
activations (_ ∷ ops) = activations ops

-- The state is DRAINING, but the stream does not drain.
abbrev pub IsStuck : Player → Type 0
IsStuck p = (p.state ≡ draining) × (flow_of p.ops ≡ inactive)

use_player-IsStuck :
    (u : Use) (p : Player)
    → IsStuck p
    → IsStuck (use_player u p) × (activations (use_player u p).ops ≡ activations p.ops)
unfolding audiodev_playback_setup audiodev_playback_stop_stream audiodev_playback_start
    audiodev_playback_stop audiodev_on_playback_drained audiodev_playback_volume
    audiodev_playback_mute audiodev_on_playback_io_changed
use_player-IsStuck (set_up w channels sample_rate requested) p h = ground arith
use_player-IsStuck start p h = ground arith
use_player-IsStuck stop p h = ground arith
use_player-IsStuck drained p h = ground arith
use_player-IsStuck (volume vs) p h = ground arith
use_player-IsStuck (mute m) p h = ground arith
use_player-IsStuck (io_changed size) p h = ground arith

stays_stuck :
    (us : List Use) (p : Player) → IsStuck p → activations (use_all us p).ops ≡ activations p.ops
stays_stuck [] p h = refl
stays_stuck (u ∷ us) p h =
    let (h', e) = use_player-IsStuck u p h in ground (arith, stays_stuck us (use_player u p) h')

-- After a set-up of another format in the state DRAINING, with a stream there, no use of the stream
-- activates it again.
pub setup_stuck :
    (w : Pw) (channels sample_rate requested : ℕ) (us : List Use) (p : Player)
    → p.state ≡ draining
    → p.stream ≡ true
    → has_format channels sample_rate p ≡ false
    → let p' = audiodev_playback_setup w channels sample_rate requested p in
      activations (use_all us p').ops ≡ activations p.ops
unfolding audiodev_playback_setup audiodev_playback_stop_stream
setup_stuck w channels sample_rate requested us p d s f =
    let p' = audiodev_playback_setup w channels sample_rate requested p in
    let stuck : IsStuck p' = ground arith in
    let same : activations p'.ops ≡ activations p.ops = ground arith in
    ground (arith, stays_stuck us p' stuck)
