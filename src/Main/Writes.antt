-- ===== src/Main/Writes.antt =====
-- What src/main.c writes to the display, and when.
use spicy_kvm.Prelude.{
  ℕ, ◌≡◌, refl, Bool, true, false, ◌||◌, inl, inr, none, some, List, [], ◌∷◌, if◌then◌else◌,
  Bool-cases, Option-cases,
}
use spicy_kvm.Ddc.Find.{Found}
use spicy_kvm.Ddc.Bus.{
  Rc, success, err, errno, Tick, Ddcci, Kernel, ddcci_open, ddcci_vcp_set, ddcci_close,
}
use spicy_kvm.Ddc.Descriptors.{Ends}
use spicy_kvm.Ddc.Timed.{
  is_armed, IsCalm, IsReady, vcp_set-IsReady, close-IsCalm, ddcci_open-IsReady,
}
use spicy_kvm.Audio.Shutdown.{audio_init}
use spicy_kvm.Main.After.{
  Holds, Holds-bind, Holds-if, require-Holds, boot-Holds, changed-Holds, main_round-Holds,
  true≢false,
}
use spicy_kvm.Main.Loop.{
  is_grabbed, Options, Turn, State, Outcome, goes_on, ◌>>=◌, is_success, find_i2c, init_ddc,
  output_for, switch_output, update_display, retry_ddc, switch_if_ok, follow_grab, same, Boot,
  Sound, hear, init_audio, boot, main, main_start, main_round, clean_up, main_loop,
}
use spicy_kvm.Main.Display.{shown, packet-output_for}

-- The packet that selects the output of one of the two grab states.
abbrev pub IsSelect : Options → List ℕ → Type 0
IsSelect o bytes = (g : Bool) × (bytes ≡ shown o g)

-- The calls are calm, and the timer is set while the display is usable.
pub record IsPaced (o : Options) (m : State) : Type 0 where
  pub calm : IsCalm (IsSelect o) m.ddcci.calls
  pub armed : m.ddcci_ok ≡ true → is_armed m.ddcci.calls ≡ true

abbrev EndsCalm : Options → ℕ → State → Type 0
EndsCalm o n m = IsCalm (IsSelect o) m.ddcci.calls

-- Whether `main` goes on or returns.
abbrev pub Paces : Options → Outcome → Type 0
Paces o = Holds (IsPaced o) (EndsCalm o) Unit

module _ (o : Options) where
  chain :
      (x : Outcome) (f : State → Outcome)
      → Paces o x
      → ((m : State) → IsPaced o m → Paces o (f m))
      → Paces o (x >>= f)
  chain = Holds-bind (IsPaced o) (IsPaced o) (EndsCalm o) Unit

  choose :
      (b : Bool) (x y : Outcome)
      → (b ≡ true → Paces o x)
      → (b ≡ false → Paces o y)
      → Paces o (if b then x else y)
  choose = Holds-if (IsPaced o) (EndsCalm o) Unit

  init-Paces :
      (f : Found) (k : Kernel) (m : State)
      → m.ddcci_ok ≡ false
      → IsPaced o m
      → Paces o (init_ddc f k m)
  unfolding init_ddc
  init-Paces f k m bad v =
      choose (is_success f.rc) _ _
        (λ _. elim (Option-cases (ddcci_open k 6 m.ddcci)) [
          | inl e ↦ rw e tt
          | inr ((rc', d), e) ↦
              let r : Ends (IsReady (IsSelect o)) (some (rc', d)) =
                rw e at (ddcci_open-IsReady (IsSelect o) k 6 m.ddcci v.calm) in
              rw e (record { calm = r.calm; armed = opened rc' d bad r })
        ])
        λ _. v
    where
      opened :
          (rc : Rc) (d : Ddcci)
          → m.ddcci_ok ≡ false
          → IsReady (IsSelect o) rc d
          → (is_success rc || m.ddcci_ok) ≡ true
          → is_armed d.calls ≡ true
      opened success d bad r h = r.armed refl
      opened (err x) d bad r h = absurd (true≢false h bad)
      opened (errno x) d bad r h = absurd (true≢false h bad)

  switch-Paces :
      (k : Kernel) (g : Bool) (m : State)
      → m.ddcci_ok ≡ true
      → IsPaced o m
      → Paces o (switch_output o k g m)
  unfolding switch_output
  switch-Paces k g m ok v = elim (Option-cases (ddcci_vcp_set k 0x60 (output_for o g) m.ddcci)) [
    | inl e ↦ rw (e, switch_output) tt
    | inr ((rc, d), e) ↦
        let r : Ends (IsReady (IsSelect o)) (some (rc, d)) = rw e at (
          vcp_set-IsReady (IsSelect o) k 0x60 (output_for o g) m.ddcci (g, packet-output_for o g)
            v.calm (v.armed ok)) in
        rw (e, switch_output) (switched rc d r)
  ]
    where
      switched :
          (rc : Rc) (d : Ddcci)
          → IsReady (IsSelect o) rc d
          → Paces o (
              if is_success rc
              then goes_on (record m { ddcci = d })
              else goes_on (record m { ddcci = ddcci_close d; ddcci_ok = false }))
      switched success d r = record { calm = r.calm; armed = λ _. r.armed refl }
      switched (err x) d r = record { calm = close-IsCalm (IsSelect o) d r.calm; armed = λ h. cc }
      switched (errno x) d r = record { calm = close-IsCalm (IsSelect o) d r.calm; armed = λ h. cc }

  update-Paces : (u : Turn) (m : State) → IsPaced o m → Paces o (update_display o u m)
  unfolding update_display
  update-Paces u m v =
      choose o.enable _ _
        (λ _.
          chain (retry_ddc u m) (switch_if_ok o u)
            (choose m.ddcci_ok _ _ (λ _. v)
              λ bad. init-Paces (find_i2c u.libc u.drm u.ddc) u.open_kernel m bad v)
            λ m' v'.
              choose m'.ddcci_ok _ _ (λ ok. switch-Paces u.set_kernel (is_grabbed u) m' ok v')
                λ _. v')
        λ _. v

  hear-Paces : (s : Sound) (m : State) → IsPaced o m → Paces o (hear s m)
  hear-Paces none m v = tt
  hear-Paces (some (p, r)) m v = record { calm = v.calm; armed = v.armed }

  ask-IsPaced : (m : State) → IsPaced o m → IsPaced o (record m { should_exit = true })
  ask-IsPaced m v = record { calm = v.calm; armed = v.armed }

  follow-Paces : (u : Turn) (m : State) → IsPaced o m → Paces o (follow_grab o u m)
  follow-Paces u m v =
      choose (same (is_grabbed u) m.was_grabbed) _ _ (λ _. v)
        λ _.
          changed-Holds (IsPaced o) (EndsCalm o) Unit ask-IsPaced (λ m' v'. v'.calm) (IsPaced o) o u
            m (update-Paces u m v) λ m' v'. record { calm = v'.calm; armed = v'.armed }

  round-Paces : (u : Turn) (m : State) → IsPaced o m → Paces o (main_round o u m)
  round-Paces u m v =
      main_round-Holds (IsPaced o) (IsPaced o) (EndsCalm o) Unit ask-IsPaced ask-IsPaced
        (λ m' v'. v'.calm) (λ m' v'. v'.calm) o u m v.calm (hear-Paces u.sound m v) (follow-Paces u)

  clean_up-Paces : (m : State) → IsPaced o m → Paces o (clean_up m)
  clean_up-Paces m v = elim (Bool-cases m.ddcci_ok) [
    | inl ok ↦ rw ok (close-IsCalm (IsSelect o) m.ddcci v.calm)
    | inr bad ↦ rw bad v.calm
  ]

  loop-Paces : (us : List Turn) (m : State) → IsPaced o m → Paces o (main_loop o us m)
  unfolding main_loop
  loop-Paces [] m v = choose m.should_exit _ _ (λ _. clean_up-Paces m v) λ _. v
  loop-Paces (u ∷ us) m v =
      choose m.should_exit _ _ (λ _. clean_up-Paces m v)
        λ _.
          chain (main_round o u m) (main_loop o us) (round-Paces u m v) λ m' v'. loop-Paces us m' v'

  -- Before the display is set up it is not usable.
  abbrev IsNew : State → Type 0
  IsNew m = (m.ddcci_ok ≡ false) × IsPaced o m

  init_audio-IsNew :
      (b : Boot) (m : State) → IsNew m → Holds IsNew (EndsCalm o) Unit (init_audio o b m)
  init_audio-IsNew b m v =
      Holds-if IsNew (EndsCalm o) Unit (o.playback_enable || o.record_enable) _ _
        (λ _.
          require-Holds IsNew (EndsCalm o) (λ m v. v.1.calm) (audio_init b.pw m.audio).1
            (record m { audio = (audio_init b.pw m.audio).0 })
            (v.0, record { calm = v.1.calm; armed = v.1.armed }))
        λ _. v

  boot-Paces : (b : Boot) (m : State) → IsNew m → Paces o (boot o b m)
  boot-Paces b m v =
      boot-Holds IsNew (IsPaced o) (EndsCalm o) (λ m' v'. v'.1.calm) (λ m' v'. v'.calm) o b m
        (init_audio-IsNew b m v)
        (λ m' v'.
          choose o.enable _ _
            (λ _. init-Paces (find_i2c b.libc b.drm b.ddc) b.open_kernel m' v'.0 v'.1) λ _. v'.1)
        (hear-Paces b.sound)

-- Where `main` goes on or returns, with any code, all that was ever written to the display are packets that
-- select one of the two outputs, and right before each of these writes the timer expired that was set for 50 ms
-- after the write before, or for 1 ms when the display was opened. While `main` goes on and the display is usable, the
-- timer is set so.
pub main-Paces :
    (reads : List Tick) (o : Options) (b : Boot) (us : List Turn)
    → Paces o (main o b us (main_start reads))
unfolding main
main-Paces reads o b us =
    chain o (boot o b (main_start reads)) (main_loop o us)
      (boot-Paces o b (main_start reads)
        (refl, record { calm = record { written = tt; timed = refl }; armed = λ h. cc }))
      (loop-Paces o us)
