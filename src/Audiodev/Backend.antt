-- ===== src/Audiodev/Backend.antt =====
-- src/audiodev.c, `audiodev_init` and `audiodev_free`: what is made for PipeWire, and destroyed.
use spicy_kvm.Prelude.{ℕ, ◌+◌, ◌≡◌, refl, Bool, true, false, List, [], ◌∷◌, if◌then◌else◌, arith}
use spicy_kvm.Audiodev.Player.{Player, audiodev_playback_stop_stream}
use spicy_kvm.Audiodev.Recorder.{Recorder, audiodev_record_stop_stream}

-- The library itself (`pw_init`, `pw_deinit`), the loop, the context, the thread loop, and the thread
-- that runs it (`pw_thread_loop_start`, `pw_thread_loop_stop`).
pub data Part : Type 0 where
  library loop context thread running : Part

-- The calls that make a part and those that end it, newest first. The connection of the context is
-- destroyed with the context.
pub data Turn : Type 0 where
  makes ends : Part → Turn

-- `pw`, with the calls made so far.
pub record Backend : Type 0 where
  pub player : Player
  pub recorder : Recorder
  pub turns : List Turn

-- Whether the context, the connection and the thread loop are made.
pub record Answers : Type 0 where
  pub context_ok : Bool
  pub connect_ok : Bool
  pub thread_ok : Bool

abbrev does : List Turn → Backend → Backend
does ts b = record b { turns = ts }

-- `err:`
abbrev fail : Backend → Backend × Bool
fail b = (does (ends library ∷ ends loop ∷ b.turns) b, false)

-- `err_context:`
abbrev fail_context : Backend → Backend × Bool
fail_context b = fail (does (ends context ∷ b.turns) b)

unfoldable pub audiodev_init : Answers → Backend → Backend × Bool
audiodev_init a b =
    let l = does (makes loop ∷ makes library ∷ b.turns) b in
    let c = does (makes context ∷ l.turns) l in
    if a.context_ok
    then (if a.connect_ok
        then (if a.thread_ok
            then (does (makes running ∷ makes thread ∷ c.turns) c, true)
            else fail_context c)
        else fail_context c)
    else fail l

unfoldable pub audiodev_free : Backend → Backend
audiodev_free b = record b {
  player = audiodev_playback_stop_stream b.player;
  recorder = audiodev_record_stop_stream b.recorder;
  turns = ends library ∷ ends loop ∷ ends context ∷ ends thread ∷ ends running ∷ b.turns;
}

abbrev pub same : Part → Part → Bool
same library library = true
same loop loop = true
same context context = true
same thread thread = true
same running running = true
same _ _ = false

abbrev pub made : Part → List Turn → ℕ
made x [] = 0
made x (makes y ∷ ts) = if same y x then made x ts + 1 else made x ts
made x (ends y ∷ ts) = made x ts

abbrev pub ended : Part → List Turn → ℕ
ended x [] = 0
ended x (makes y ∷ ts) = ended x ts
ended x (ends y ∷ ts) = if same y x then ended x ts + 1 else ended x ts

-- `audiodev_init` makes each part once and ends none, if it succeeds; if it fails, it has ended what it
-- made.
pub audiodev_init_lem :
    (a : Answers) (b : Backend) (x : Part)
    → let (b', ok) = audiodev_init a b in
      made x b'.turns + ended x b.turns ≡ made x b.turns + ended x b'.turns + (if ok then 1 else 0)
unfolding audiodev_init
audiodev_init_lem a b library = ground arith
audiodev_init_lem a b loop = ground arith
audiodev_init_lem a b context = ground arith
audiodev_init_lem a b thread = ground arith
audiodev_init_lem a b running = ground arith

pub audiodev_free_lem :
    (b : Backend) (x : Part)
    → (made x (audiodev_free b).turns ≡ made x b.turns)
      × (ended x (audiodev_free b).turns ≡ ended x b.turns + 1)
unfolding audiodev_free
audiodev_free_lem b library = (refl, refl)
audiodev_free_lem b loop = (refl, refl)
audiodev_free_lem b context = (refl, refl)
audiodev_free_lem b thread = (refl, refl)
audiodev_free_lem b running = (refl, refl)
