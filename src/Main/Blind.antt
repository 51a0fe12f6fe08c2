-- ===== src/Main/Blind.antt =====
-- Facts about the state of src/main.c to which the display does not matter.
use spicy_kvm.Prelude.{ℕ, Bool, ◌||◌, ◌+◌, if◌then◌else◌, Option-cases, inl, inr}
use spicy_kvm.Ddc.Find.{Found}
use spicy_kvm.Ddc.Bus.{Ddcci, Kernel, ddcci_open, ddcci_vcp_set}
use spicy_kvm.Main.After.{Holds, Holds-bind, Holds-if}
use spicy_kvm.Main.Loop.{
  is_grabbed, Options, Turn, State, Outcome, ◌>>=◌, is_success, find_i2c, init_ddc, output_for,
  switch_output, update_display, retry_ddc, switch_if_ok, Boot, setup_ddc,
}

module _ (P : State → Type 0) (Q : ℕ → State → Type 0)
    (blind : (m : State) (d : Ddcci) (ok : Bool) (s : ℕ)
      → P m
      → P (record m { ddcci = d; ddcci_ok = ok; streams = s })) where
  chain :
      (x : Outcome) (f : State → Outcome)
      → Holds P Q Unit x
      → ((m : State) → P m → Holds P Q Unit (f m))
      → Holds P Q Unit (x >>= f)
  chain = Holds-bind P P Q Unit

  choose :
      (b : Bool) (x y : Outcome)
      → Holds P Q Unit x
      → Holds P Q Unit y
      → Holds P Q Unit (if b then x else y)
  choose b x y p q = Holds-if P Q Unit b x y (λ _. p) λ _. q

  init_ddc-Holds : (f : Found) (k : Kernel) (m : State) → P m → Holds P Q Unit (init_ddc f k m)
  unfolding init_ddc
  init_ddc-Holds f k m p =
      choose (is_success f.rc) _ _
        (elim (Option-cases (ddcci_open k 6 m.ddcci)) [
          | inl e ↦ rw e tt
          | inr ((rc', d), e) ↦
              rw e (blind m d (is_success rc' || m.ddcci_ok) (m.streams + f.streams) p)
        ])
        p

  switch_output-Holds :
      (o : Options) (k : Kernel) (g : Bool) (m : State)
      → P m
      → Holds P Q Unit (switch_output o k g m)
  unfolding switch_output
  switch_output-Holds o k g m p =
      elim (Option-cases (ddcci_vcp_set k 0x60 (output_for o g) m.ddcci)) [
        | inl e ↦ rw (e, switch_output) tt
        | inr ((rc, d), e) ↦
            rw (e, switch_output)
              (choose (is_success rc) _ _ (blind m d m.ddcci_ok m.streams p)
                (blind m _ _ m.streams p))
      ]

  pub update_display-Holds :
      (o : Options) (u : Turn) (m : State) → P m → Holds P Q Unit (update_display o u m)
  unfolding update_display
  update_display-Holds o u m p =
      choose o.enable _ _
        (chain (retry_ddc u m) (switch_if_ok o u)
          (choose m.ddcci_ok _ _ p (init_ddc-Holds (find_i2c u.libc u.drm u.ddc) u.open_kernel m p))
          λ m' p'.
            choose m'.ddcci_ok _ _ (switch_output-Holds o u.set_kernel (is_grabbed u) m' p') p')
        p

  pub setup_ddc-Holds :
      (o : Options) (b : Boot) (m : State) → P m → Holds P Q Unit (setup_ddc o b m)
  setup_ddc-Holds o b m p =
      choose o.enable _ _ (init_ddc-Holds (find_i2c b.libc b.drm b.ddc) b.open_kernel m p) p
