-- ===== src/Main/Closed.antt =====
-- The descriptors of the display's bus and timer in src/main.c.
use spicy_kvm.Prelude.{
  ℕ, zero, suc, ◌+◌, ◌≡◌, refl, ◌≢◌, inl, inr, Bool, true, false, ◌||◌, none, some, List, [], ◌∷◌,
  if◌then◌else◌, Bool-cases, Option-cases, arith,
}
use spicy_kvm.Ddc.Find.{Found}
use spicy_kvm.Ddc.Bus.{success, err, errno, Tick, Kernel, ddcci_open, ddcci_vcp_set}
use spicy_kvm.Ddc.Descriptors.{opened, closed, Ends, Keeps, Balanced, ddcci_open-Balanced}
use spicy_kvm.Ddc.Kept.{vcp_set-Keeps, close_closes}
use spicy_kvm.Audio.Shutdown.{audio_init}
use spicy_kvm.Main.After.{
  Holds, Holds-bind, Holds-if, require-Holds, boot-Holds, changed-Holds, main_round-Holds,
}
use spicy_kvm.Main.Loop.{
  is_grabbed, Options, Turn, State, Outcome, ◌>>=◌, is_success, find_i2c, init_ddc, output_for,
  switch_output, update_display, retry_ddc, switch_if_ok, follow_grab, same, Boot, Sound, hear,
  boot, main, main_start, main_round, clean_up, main_loop, init_audio,
}

-- The display is usable exactly while its bus and its timer are open.
pub record Tidy (m : State) : Type 0 where
  pub has_fd : m.ddcci_ok ≡ true → m.ddcci.fd ≢ none
  pub has_tfd : m.ddcci_ok ≡ true → m.ddcci.tfd ≢ none
  pub count : opened m.ddcci.calls ≡ closed m.ddcci.calls + (if m.ddcci_ok then 2 else 0)

-- As long as `main` goes on, that holds; and where it returns 0, each of these that was opened is closed.
abbrev Closes : ℕ → State → Type 0
Closes zero m = opened m.ddcci.calls ≡ closed m.ddcci.calls
Closes (suc n) m = Unit

abbrev pub End : Outcome → Type 0
End = Holds Tidy Closes Unit

End-bind :
    (x : Outcome) (f : State → Outcome) → End x → ((m : State) → Tidy m → End (f m)) → End (x >>= f)
End-bind = Holds-bind Tidy Tidy Closes Unit

End-if :
    (b : Bool) (x y : Outcome) → (b ≡ true → End x) → (b ≡ false → End y) → End (if b then x else y)
End-if = Holds-if Tidy Closes Unit

init_Tidy :
    (f : Found) (k : Kernel) (m : State) → m.ddcci_ok ≡ false → Tidy m → End (init_ddc f k m)
unfolding init_ddc
init_Tidy f k m bad v =
    End-if (is_success f.rc) _ _
      (λ _. elim (Option-cases (ddcci_open k 6 m.ddcci)) [
        | inl e ↦ rw e tt
        | inr ((success, d), e) ↦
            let b : Ends (Balanced m.ddcci) (some (success, d)) =
              rw e at (ddcci_open-Balanced k 6 m.ddcci) in
            rw e (record {
              has_fd = λ _. b.0;
              has_tfd = λ _. b.1;
              count = ground (arith, v.count, b.2);
            })
        | inr ((err x, d), e) ↦
            let b : Ends (Balanced m.ddcci) (some (err x, d)) =
              rw e at (ddcci_open-Balanced k 6 m.ddcci) in
            rw e
              (record { has_fd = λ h. cc; has_tfd = λ h. cc; count = ground (arith, v.count, b) })
        | inr ((errno x, d), e) ↦
            let b : Ends (Balanced m.ddcci) (some (errno x, d)) =
              rw e at (ddcci_open-Balanced k 6 m.ddcci) in
            rw e
              (record { has_fd = λ h. cc; has_tfd = λ h. cc; count = ground (arith, v.count, b) })
      ])
      λ _. v

switch_Tidy :
    (o : Options) (k : Kernel) (g : Bool) (m : State)
    → m.ddcci_ok ≡ true
    → Tidy m
    → End (switch_output o k g m)
unfolding switch_output
switch_Tidy o k g m ok v = elim (Option-cases (ddcci_vcp_set k 0x60 (output_for o g) m.ddcci)) [
  | inl e ↦ rw (e, switch_output) tt
  | inr ((rc, d), e) ↦
      let w : Ends (Keeps m.ddcci) (some (rc, d)) =
        rw e at (vcp_set-Keeps k 0x60 (output_for o g) m.ddcci) in
      rw (e, switch_output)
        (End-if (is_success rc) _ _
          (λ _. record {
            has_fd = λ h. ground (arith, w, v.has_fd ok);
            has_tfd = λ h. ground (arith, w, v.has_tfd ok);
            count = ground (arith, w, v.count);
          })
          λ _.
            let c =
              close_closes d (ground (arith, w, v.has_fd ok)) (ground (arith, w, v.has_tfd ok)) in
            record { has_fd = λ h. cc; has_tfd = λ h. cc; count = ground (arith, w, c, v.count) })
]

update_Tidy : (o : Options) (u : Turn) (m : State) → Tidy m → End (update_display o u m)
unfolding update_display
update_Tidy o u m v =
    End-if o.enable _ _
      (λ _.
        End-bind (retry_ddc u m) (switch_if_ok o u)
          (End-if m.ddcci_ok _ _ (λ _. v)
            λ bad. init_Tidy (find_i2c u.libc u.drm u.ddc) u.open_kernel m bad v)
          λ m' v'.
            End-if m'.ddcci_ok _ _ (λ ok. switch_Tidy o u.set_kernel (is_grabbed u) m' ok v')
              λ _. v')
      λ _. v

hear-Tidy : (s : Sound) (m : State) → Tidy m → End (hear s m)
hear-Tidy none m v = tt
hear-Tidy (some (p, r)) m v = record { has_fd = v.has_fd; has_tfd = v.has_tfd; count = v.count }

ask_Tidy : (m : State) → Tidy m → Tidy (record m { should_exit = true })
ask_Tidy m v = record { has_fd = v.has_fd; has_tfd = v.has_tfd; count = v.count }

follow_Tidy : (o : Options) (u : Turn) (m : State) → Tidy m → End (follow_grab o u m)
follow_Tidy o u m v =
    End-if (same (is_grabbed u) m.was_grabbed) _ _ (λ _. v)
      λ _.
        changed-Holds Tidy Closes Unit ask_Tidy (λ m' v'. tt) Tidy o u m (update_Tidy o u m v)
          λ m' v'. record { has_fd = v'.has_fd; has_tfd = v'.has_tfd; count = v'.count }

round_Tidy : (o : Options) (u : Turn) (m : State) → Tidy m → End (main_round o u m)
round_Tidy o u m v =
    main_round-Holds Tidy Tidy Closes Unit ask_Tidy ask_Tidy (λ m' v'. tt) (λ m' v'. tt) o u m tt
      (hear-Tidy u.sound m v) (follow_Tidy o u)

clean_up_closes : (m : State) → Tidy m → End (clean_up m)
clean_up_closes m v = elim (Bool-cases m.ddcci_ok) [
  | inl ok ↦ let c = close_closes m.ddcci (v.has_fd ok) (v.has_tfd ok) in ground (arith, v.count, c)
  | inr bad ↦ ground (arith, v.count)
]

loop_Tidy : (o : Options) (us : List Turn) (m : State) → Tidy m → End (main_loop o us m)
unfolding main_loop
loop_Tidy o [] m v = End-if m.should_exit _ _ (λ _. clean_up_closes m v) λ _. v
loop_Tidy o (u ∷ us) m v =
    End-if m.should_exit _ _ (λ _. clean_up_closes m v)
      λ _.
        End-bind (main_round o u m) (main_loop o us) (round_Tidy o u m v)
          λ m' v'. loop_Tidy o us m' v'

-- Before the display is set up it is not usable.
abbrev IsNew : State → Type 0
IsNew m = (m.ddcci_ok ≡ false) × Tidy m

init_audio-IsNew :
    (o : Options) (b : Boot) (m : State) → IsNew m → Holds IsNew Closes Unit (init_audio o b m)
init_audio-IsNew o b m v =
    Holds-if IsNew Closes Unit (o.playback_enable || o.record_enable) _ _
      (λ _.
        require-Holds IsNew Closes (λ _ _. tt) (audio_init b.pw m.audio).1
          (record m { audio = (audio_init b.pw m.audio).0 })
          (v.0, record { has_fd = v.1.has_fd; has_tfd = v.1.has_tfd; count = v.1.count }))
      λ _. v

boot-Tidy : (o : Options) (b : Boot) (m : State) → IsNew m → End (boot o b m)
boot-Tidy o b m v =
    boot-Holds IsNew Tidy Closes (λ _ _. tt) (λ _ _. tt) o b m (init_audio-IsNew o b m v)
      (λ m' v'.
        End-if o.enable _ _
          (λ _. init_Tidy (find_i2c b.libc b.drm b.ddc) b.open_kernel m' v'.0 v'.1) λ _. v'.1)
      (hear-Tidy b.sound)

-- Of the descriptors of the bus and of its timer: while `main` goes on, two more have been opened than closed if
-- the display is usable, which then has both, and as many if it is not; and where `main` returns 0, as many
-- have been closed as were opened. The directory streams that `ddcci_find_i2c` leaves open are not
-- among them.
pub main-End :
    (reads : List Tick) (o : Options) (b : Boot) (us : List Turn)
    → End (main o b us (main_start reads))
unfolding main
main-End reads o b us =
    End-bind (boot o b (main_start reads)) (main_loop o us)
      (boot-Tidy o b (main_start reads)
        (refl, record { has_fd = λ h. cc; has_tfd = λ h. cc; count = refl }))
      (loop_Tidy o us)
