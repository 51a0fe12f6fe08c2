-- ===== src/Main/Display.antt =====
-- The display of src/main.c follows the grab state.
use spicy_kvm.Prelude.{
  ℕ, ◌≡◌, refl, ◌∙◌, ap, ◌⊎◌, inl, inr, Bool, true, false, ◌||◌, none, some, List, [], ◌∷◌,
  if◌then◌else◌, Bool-cases, Option-cases,
}
use spicy_kvm.Ddc.Packet.{packet, vcp_command}
use spicy_kvm.Ddc.Find.{Found}
use spicy_kvm.Ddc.Bus.{success, err, errno, Tick, Kernel, ddcci_open, ddcci_tx, ddcci_vcp_set}
use spicy_kvm.Ddc.Descriptors.{Ends, open_keeps}
use spicy_kvm.Ddc.Written.{last_write, Wrote, tx-Wrote, unwritten_keeps}
use spicy_kvm.Main.After.{
  After, AnyEnd, anything, After-bind, After-if, After-hear, require-Holds, boot-Holds,
  changed-Holds, main_round-Holds, true≢false,
}
use spicy_kvm.Audio.Shutdown.{audio_init}
use spicy_kvm.Main.Loop.{
  is_grabbed, Options, Turn, State, Outcome, goes_on, ◌>>=◌, is_success, find_i2c, init_ddc,
  output_for, switch_output, update_display, retry_ddc, switch_if_ok, follow_grab, same, Boot,
  Sound, hear, init_audio, setup_ddc, boot, main, main_start, main_round, main_loop,
}

-- The packet that selects the output for a grab state: that of the other machine if the input is grabbed, the
-- own one if not.
abbrev pub shown : Options → Bool → List ℕ
shown o true = packet (vcp_command 0x60 o.output_other)
shown o false = packet (vcp_command 0x60 o.output_self)

pub packet-output_for :
    (o : Options) (grabbed : Bool)
    → packet (vcp_command 0x60 (output_for o grabbed)) ≡ shown o grabbed
packet-output_for o true = refl
packet-output_for o false = refl

-- If the display is usable after a switch, the switch was the last write.
abbrev Shown : Options → Bool → State → Type 0
Shown o grabbed m = m.ddcci_ok ≡ true → last_write m.ddcci.calls ≡ some (shown o grabbed)

switch_Shown :
    (o : Options) (k : Kernel) (g : Bool) (m : State) → After (Shown o g) (switch_output o k g m)
unfolding switch_output ddcci_vcp_set
switch_Shown o k g m = elim (Option-cases (ddcci_tx k cmd 50 m.ddcci)) [
  | inl e ↦ rw (e, switch_output) tt
  | inr ((success, d), e) ↦
      let w : Ends (Wrote cmd) (some (success, d)) = rw e at (tx-Wrote k cmd 50 m.ddcci) in
      rw (e, switch_output) λ ok. w refl ∙ ap some (packet-output_for o g)
  | inr ((err x, d), e) ↦ rw (e, switch_output) λ ok. cc
  | inr ((errno x, d), e) ↦ rw (e, switch_output) λ ok. cc
]
  where
    cmd : List ℕ
    cmd = vcp_command 0x60 (output_for o g)

-- The display was switched last to the output of the grab state, or never while nothing was
-- grabbed; unless it is not usable.
pub record Follows (o : Options) (m : State) : Type 0 where
  pub shows :
      m.ddcci_ok ≡ true
      → (last_write m.ddcci.calls ≡ some (shown o m.was_grabbed))
        ⊎ ((last_write m.ddcci.calls ≡ none) × (m.was_grabbed ≡ false))
  pub disabled : o.enable ≡ false → m.ddcci_ok ≡ false

switch_if_ok-Shown :
    (o : Options) (u : Turn) (m : State) → After (Shown o (is_grabbed u)) (switch_if_ok o u m)
switch_if_ok-Shown o u m =
    After-if (Shown o (is_grabbed u)) m.ddcci_ok _ _
      (λ ok. switch_Shown o u.set_kernel (is_grabbed u) m) λ bad ok. absurd (true≢false ok bad)

update_Shown :
    (o : Options) (u : Turn) (m : State)
    → o.enable ≡ true
    → After (Shown o (is_grabbed u)) (update_display o u m)
unfolding update_display
update_Shown o u m on =
    After-if (Shown o (is_grabbed u)) o.enable _ _
      (λ _.
        After-bind (λ m'. Unit {0}) (Shown o (is_grabbed u)) (retry_ddc u m) (switch_if_ok o u)
          (anything (retry_ddc u m)) λ m' _. switch_if_ok-Shown o u m')
      λ off. absurd (true≢false on off)

if_false : (b : Bool) (x y : Outcome) → b ≡ false → (if b then x else y) ≡ y
if_false true x y h = cc
if_false false x y h = refl

update_disabled :
    (o : Options) (u : Turn) (m : State) → o.enable ≡ false → update_display o u m ≡ goes_on m
unfolding update_display
update_disabled o u m off = if_false o.enable (retry_ddc u m >>= switch_if_ok o u) (goes_on m) off

follow_Follows :
    (o : Options) (u : Turn) (m : State) → Follows o m → After (Follows o) (follow_grab o u m)
follow_Follows o u m v =
    After-if (Follows o) (same (is_grabbed u) m.was_grabbed) _ _ (λ _. v)
      λ _. elim (Bool-cases o.enable) [
        | inl on ↦
            changed-Holds (Shown o (is_grabbed u)) AnyEnd Unit (λ m' s. s) (λ m' s. tt) (Follows o)
              o u m (update_Shown o u m on)
              λ m' s. record {
                shows = λ ok. inl (s ok);
                disabled = λ off. absurd (true≢false on off);
              }
        | inr off ↦
            changed-Holds (λ m'. m'.ddcci_ok ≡ false) AnyEnd Unit (λ m' bad. bad) (λ m' bad. tt)
              (Follows o) o u m (rw (update_disabled o u m off) (v.disabled off))
              λ m' bad. record { shows = λ ok. absurd (true≢false ok bad); disabled = λ _. bad }
      ]

round_Follows :
    (o : Options) (u : Turn) (m : State) → Follows o m → After (Follows o) (main_round o u m)
round_Follows o u m v =
    main_round-Holds (Follows o) (Follows o) AnyEnd Unit ask_Follows ask_Follows (λ m' v'. tt)
      (λ m' v'. tt) o u m tt
      (After-hear (Follows o) u.sound m λ a. record { shows = v.shows; disabled = v.disabled })
      (follow_Follows o u)
  where
    ask_Follows : (m' : State) → Follows o m' → Follows o (record m' { should_exit = true })
    ask_Follows m' v' = record { shows = v'.shows; disabled = v'.disabled }

loop_Follows :
    (o : Options) (us : List Turn) (m : State) → Follows o m → After (Follows o) (main_loop o us m)
unfolding main_loop
loop_Follows o [] m v = After-if (Follows o) m.should_exit _ _ (λ _. tt) λ _. v
loop_Follows o (u ∷ us) m v =
    After-if (Follows o) m.should_exit _ _ (λ _. tt)
      λ _.
        After-bind (Follows o) (Follows o) (main_round o u m) (main_loop o us)
          (round_Follows o u m v) λ m' v'. loop_Follows o us m' v'

-- Nothing was written, and nothing was grabbed.
record Fresh (o : Options) (m : State) : Type 0 where
  unwritten : last_write m.ddcci.calls ≡ none
  ungrabbed : m.was_grabbed ≡ false
  off : o.enable ≡ false → m.ddcci_ok ≡ false

init_Fresh :
    (o : Options) (f : Found) (k : Kernel) (m : State)
    → o.enable ≡ true
    → Fresh o m
    → After (Fresh o) (init_ddc f k m)
unfolding init_ddc
init_Fresh o f k m on v =
    After-if (Fresh o) (is_success f.rc) _ _
      (λ _. elim (Option-cases (ddcci_open k 6 m.ddcci)) [
        | inl e ↦ rw e tt
        | inr ((rc', d), e) ↦
            let w : Ends (λ rc d'. last_write d'.calls ≡ none) (some (rc', d)) =
              rw e at
                (open_keeps (λ cs. last_write cs ≡ none) unwritten_keeps k 6 m.ddcci v.unwritten) in
            rw e (record {
              unwritten = w;
              ungrabbed = v.ungrabbed;
              off = λ o'. absurd (true≢false on o');
            })
      ])
      λ _. v

setup_Fresh : (o : Options) (b : Boot) (m : State) → Fresh o m → After (Fresh o) (setup_ddc o b m)
setup_Fresh o b m v =
    After-if (Fresh o) o.enable _ _
      (λ on. init_Fresh o (find_i2c b.libc b.drm b.ddc) b.open_kernel m on v) λ _. v

hear-Fresh : (o : Options) (s : Sound) (m : State) → Fresh o m → After (Fresh o) (hear s m)
hear-Fresh o s m v =
    After-hear (Fresh o) s m
      λ a. record { unwritten = v.unwritten; ungrabbed = v.ungrabbed; off = v.off }

init_audio-Fresh :
    (o : Options) (b : Boot) (m : State) → Fresh o m → After (Fresh o) (init_audio o b m)
init_audio-Fresh o b m v =
    After-if (Fresh o) (o.playback_enable || o.record_enable) _ _
      (λ _.
        require-Holds (Fresh o) AnyEnd (λ _ _. tt) (audio_init b.pw m.audio).1
          (record m { audio = (audio_init b.pw m.audio).0 })
          (record { unwritten = v.unwritten; ungrabbed = v.ungrabbed; off = v.off }))
      λ _. v

boot-Fresh :
    (reads : List Tick) (o : Options) (b : Boot) → After (Fresh o) (boot o b (main_start reads))
boot-Fresh reads o b =
    boot-Holds (Fresh o) (Fresh o) AnyEnd (λ _ _. tt) (λ _ _. tt) o b (main_start reads)
      (init_audio-Fresh o b (main_start reads)
        (record { unwritten = refl; ungrabbed = refl; off = λ h. refl }))
      (setup_Fresh o b) (hear-Fresh o b.sound)

-- After any turns of its loop, while `main` goes on and the display is usable, the output that was
-- selected last is that of the grab state; or none was selected and nothing has been grabbed.
pub main-Follows :
    (reads : List Tick) (o : Options) (b : Boot) (us : List Turn)
    → After (Follows o) (main o b us (main_start reads))
unfolding main
main-Follows reads o b us =
    After-bind (Fresh o) (Follows o) (boot o b (main_start reads)) (main_loop o us)
      (boot-Fresh reads o b)
      λ m v.
        loop_Follows o us m
          (record { shows = λ ok. inr (v.unwritten, v.ungrabbed); disabled = v.off })
