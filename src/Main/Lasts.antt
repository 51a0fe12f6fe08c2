-- ===== src/Main/Lasts.antt =====
-- How long src/main.c waits: with enough reads of the timer, it does not wait for ever.
use spicy_kvm.Prelude.{
  ℕ, ◌+◌, ◌*◌, ◌≤◌, ◌≡◌, ◌≢◌, refl, Bool, true, false, ◌||◌, ◌&&◌, not, none, some, List, [], ◌∷◌,
  length, arith,
}
use spicy_kvm.Ddc.Waits.{waits}
use spicy_kvm.Ddc.Bus.{Tick}
use spicy_kvm.Audio.Shutdown.{audio_init}
use spicy_kvm.Main.After.{Holds, AnyEnd, Holds-bind, Holds-if, main_round-Holds, true≢false}
use spicy_kvm.Main.Loop.{
  Options, Turn, State, Outcome, goes_on, exits, hangs, find_i2c, Boot, wait_ready, Sound, hear,
  require, require_input, init_audio, setup_ddc, boot, main, main_start, main_round, clean_up,
  main_loop,
}
use spicy_kvm.Main.Reads.{
  HasReads, Lasts, Lasts-bind, Lasts-if, fewer, init_ddc-Lasts, follow_grab-Lasts,
}

-- The calls for the sound return.
abbrev pub is_heard : Sound → Bool
is_heard none = false
is_heard (some a) = true

abbrev pub all_heard : List Turn → Bool
all_heard [] = true
all_heard (u ∷ us) = is_heard u.sound && all_heard us

hear-Lasts : (n : ℕ) (s : Sound) (m : State) → is_heard s ≡ true → HasReads n m → Lasts n (hear s m)
hear-Lasts n none m e h = cc
hear-Lasts n (some (p, r)) m e h = h

main_round-Lasts :
    (n : ℕ) (o : Options) (u : Turn) (m : State)
    → is_heard u.sound ≡ true
    → HasReads (n + 2) m
    → Lasts n (main_round o u m)
main_round-Lasts n o u m e h =
    main_round-Holds (HasReads (n + 2)) (HasReads n) AnyEnd ⊥ (λ m' h'. h') (λ m' h'. h')
      (λ m' h'. tt) (λ m' h'. tt) o u m tt (hear-Lasts (n + 2) u.sound m e h)
      (follow_grab-Lasts n o u)

clean_up-Lasts : (n : ℕ) (m : State) → Lasts n (clean_up m)
clean_up-Lasts n m = tt

main_loop-Lasts :
    (o : Options) (us : List Turn) (m : State)
    → all_heard us ≡ true
    → HasReads (length us * 2) m
    → Lasts 0 (main_loop o us m)
unfolding main_loop
main_loop-Lasts o [] m e h = Lasts-if 0 m.should_exit _ _ (λ _. tt) λ _. (omega arith, h.1)
main_loop-Lasts o (u ∷ us) m e h =
    Lasts-if 0 m.should_exit _ _ (λ _. tt)
      (λ _.
        Lasts-bind (length us * 2) 0 (main_round o u m) (main_loop o us)
          (main_round-Lasts (length us * 2) o u m (ground arith)
            (fewer (length us * 2 + 2) (length (u ∷ us) * 2) m (omega arith) h))
          λ m' h'. main_loop-Lasts o us m' (ground arith) h')

-- The wait for the connection ends.
abbrev pub is_answered : List (Bool × Bool) → Bool
is_answered [] = false
is_answered ((running, ready) ∷ ps) = not running || ready || is_answered ps

-- Parts of the start of `main` that do not wait for ever, and keep a fact about the display.
module _ (P : State → Type 0) where
  wait_ready-keeps :
      (ps : List (Bool × Bool)) (m : State)
      → is_answered ps ≡ true
      → P m
      → Holds P AnyEnd ⊥ (wait_ready ps m)
  unfolding wait_ready
  wait_ready-keeps [] m e h = cc
  wait_ready-keeps ((true, true) ∷ ps) m e h = h
  wait_ready-keeps ((true, false) ∷ ps) m e h = wait_ready-keeps ps m e h
  wait_ready-keeps ((false, r) ∷ ps) m e h = tt

  require-keeps : (ok : Bool) (m : State) → P m → Holds P AnyEnd ⊥ (require ok m)
  require-keeps ok m h = Holds-if P AnyEnd ⊥ ok _ _ (λ _. h) λ _. tt

  require_input-keeps :
      (o : Options) (ok : Bool) (m : State) → P m → Holds P AnyEnd ⊥ (require_input o ok m)
  require_input-keeps o ok m h =
      Holds-if P AnyEnd ⊥ o.inputs_enable _ _ (λ _. require-keeps ok m h) λ _. h

-- The display was not set up, and there are reads for some waits.
abbrev IsNew : ℕ → State → Type 0
IsNew n m = (m.ddcci_ok ≡ false) × (n ≤ waits m.ddcci.reads)

init_audio-IsNew :
    (n : ℕ) (o : Options) (b : Boot) (m : State)
    → IsNew n m
    → Holds (IsNew n) AnyEnd ⊥ (init_audio o b m)
init_audio-IsNew n o b m h =
    Holds-if (IsNew n) AnyEnd ⊥ (o.playback_enable || o.record_enable) _ _
      (λ _.
        require-keeps (IsNew n) (audio_init b.pw m.audio).1
          (record m { audio = (audio_init b.pw m.audio).0 }) h)
      λ _. h

boot-Lasts :
    (n : ℕ) (o : Options) (b : Boot) (m : State)
    → is_answered b.process ≡ true
    → is_heard b.sound ≡ true
    → IsNew (n + 1) m
    → Lasts n (boot o b m)
unfolding boot
boot-Lasts n o b m answered heard h =
    let chain = Lasts-bind n n in
    chain _ (require_input o b.mouse_ok)
      (chain _ (hear b.sound)
        (chain _ (wait_ready b.process)
          (chain _ (require b.connected)
            (Holds-bind (IsNew (n + 1)) (HasReads n) AnyEnd ⊥ _ (setup_ddc o b)
              (Holds-bind (IsNew (n + 1)) (IsNew (n + 1)) AnyEnd ⊥ (init_audio o b m)
                (require_input o b.input_ok) (init_audio-IsNew (n + 1) o b m h)
                (require_input-keeps (IsNew (n + 1)) o b.input_ok))
              λ m' h'.
                Lasts-if n o.enable _ _
                  (λ _. init_ddc-Lasts n (find_i2c b.libc b.drm b.ddc) b.open_kernel m' h'.0 h'.1)
                  λ _. (omega arith, λ ok. absurd (true≢false ok h'.0)))
            (require-keeps (HasReads n) b.connected))
          λ m' h'. wait_ready-keeps (HasReads n) b.process m' answered h')
        λ m' h'. hear-Lasts n b.sound m' heard h')
      (require_input-keeps (HasReads n) o b.mouse_ok)

Lasts-goes_on : (n : ℕ) (x : Outcome) → Lasts n x → x ≢ hangs
Lasts-goes_on n (goes_on m) p e = cc
Lasts-goes_on n (exits k m) p e = cc
Lasts-goes_on n hangs p e = absurd p

-- `main` does not wait for ever, though a read of a timer that was not set would: it is enough that the timer of
-- the bus, where it is set, gives reads which are not interrupted, one for the start and two for each turn. The
-- calls for the sound return, and the wait for the connection ends.
pub main_returns :
    (reads : List Tick) (o : Options) (b : Boot) (us : List Turn)
    → is_answered b.process ≡ true
    → is_heard b.sound ≡ true
    → all_heard us ≡ true
    → length us * 2 + 1 ≤ waits reads
    → main o b us (main_start reads) ≢ hangs
unfolding main
main_returns reads o b us answered heard all h = Lasts-goes_on 0 (main o b us (main_start reads)) (
    Lasts-bind (length us * 2) 0 (boot o b (main_start reads)) (main_loop o us)
      (boot-Lasts (length us * 2) o b (main_start reads) answered heard (refl, h))
      λ m h'. main_loop-Lasts o us m all h')
