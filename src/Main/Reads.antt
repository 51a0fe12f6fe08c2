-- ===== src/Main/Reads.antt =====
-- The display in src/main.c: how often it waits for its timer, which is set then.
use spicy_kvm.Prelude.{
  ℕ, ◌+◌, ◌≤◌, ◌≡◌, refl, inl, inr, Bool, true, false, ◌||◌, some, if◌then◌else◌, Option-cases,
  arith,
}
use spicy_kvm.Ddc.Waits.{waits, Leaves, vcp_set-Leaves, ddcci_open-Leaves, reads-ddcci_close}
use spicy_kvm.Ddc.Bus.{
  Rc, success, err, errno, Ddcci, ddcci_close, is_set, Kernel, ddcci_open, ddcci_vcp_set,
}
use spicy_kvm.Main.After.{Holds, AnyEnd, Holds-bind, Holds-if, changed-Holds, true≢false}
use spicy_kvm.Ddc.Find.{Found}
use spicy_kvm.Main.Loop.{
  is_grabbed, Options, Turn, State, Outcome, goes_on, ◌>>=◌, is_success, find_i2c, init_ddc,
  output_for, switch_output, update_display, retry_ddc, switch_if_ok, follow_grab, same,
}

-- A part of `main` that does not wait for ever, and leaves reads for some more waits if it goes on, with a
-- timer that is set if the display is usable.
abbrev pub HasReads : ℕ → State → Type 0
HasReads n m = (n ≤ waits m.ddcci.reads) × (m.ddcci_ok ≡ true → is_set m.ddcci.calls ≡ true)

abbrev pub Lasts : ℕ → Outcome → Type 0
Lasts n = Holds (HasReads n) AnyEnd ⊥

pub Lasts-bind :
    (n k : ℕ) (x : Outcome) (f : State → Outcome)
    → Lasts n x
    → ((m : State) → HasReads n m → Lasts k (f m))
    → Lasts k (x >>= f)
Lasts-bind n k = Holds-bind (HasReads n) (HasReads k) AnyEnd ⊥

pub Lasts-if :
    (n : ℕ) (b : Bool) (x y : Outcome)
    → (b ≡ true → Lasts n x)
    → (b ≡ false → Lasts n y)
    → Lasts n (if b then x else y)
Lasts-if n = Holds-if (HasReads n) AnyEnd ⊥

pub fewer : (n k : ℕ) (m : State) → n ≤ k → HasReads k m → HasReads n m
fewer n k m l h = (omega arith, h.1)

pub init_ddc-Lasts :
    (n : ℕ) (f : Found) (k : Kernel) (m : State)
    → m.ddcci_ok ≡ false
    → n + 1 ≤ waits m.ddcci.reads
    → Lasts n (init_ddc f k m)
unfolding init_ddc
init_ddc-Lasts n f k m bad h =
    Lasts-if n (is_success f.rc) _ _
      (λ _. elim (Option-cases (ddcci_open k 6 m.ddcci)) [
        | inl e ↦ absurd (rw e at (ddcci_open-Leaves n k 6 m.ddcci h))
        | inr ((rc, d), e) ↦
            let w : Leaves n (some (rc, d)) = rw e at (ddcci_open-Leaves n k 6 m.ddcci h) in
            rw e (w.0, is_set_if rc d w.1)
      ])
      λ _. (omega arith, λ ok. absurd (true≢false ok bad))
  where
    is_set_if :
        (rc : Rc) (d : Ddcci)
        → (rc ≡ success → is_set d.calls ≡ true)
        → is_success rc || m.ddcci_ok ≡ true
        → is_set d.calls ≡ true
    is_set_if success d s ok = s refl
    is_set_if (err x) d s ok = absurd (true≢false ok bad)
    is_set_if (errno x) d s ok = absurd (true≢false ok bad)

switch_output-Lasts :
    (n : ℕ) (o : Options) (k : Kernel) (g : Bool) (m : State)
    → m.ddcci_ok ≡ true
    → HasReads (n + 1) m
    → Lasts n (switch_output o k g m)
unfolding switch_output
switch_output-Lasts n o k g m ok h =
    let returns = vcp_set-Leaves n k 0x60 (output_for o g) m.ddcci h.0 (h.1 ok) in
    elim (Option-cases (ddcci_vcp_set k 0x60 (output_for o g) m.ddcci)) [
      | inl e ↦ absurd (rw e at returns)
      | inr ((rc, d), e) ↦
          let w : Leaves n (some (rc, d)) = rw e at returns in
          rw (e, switch_output) (switched rc d w)
    ]
  where
    switched :
        (rc : Rc) (d : Ddcci)
        → Leaves n (some (rc, d))
        → Lasts n (
            if is_success rc
            then goes_on (record m { ddcci = d })
            else goes_on (record m { ddcci = ddcci_close d; ddcci_ok = false }))
    switched success d w = (w.0, λ h'. w.1 refl)
    switched (err x) d w = (rw (reads-ddcci_close d) w.0, λ h'. cc)
    switched (errno x) d w = (rw (reads-ddcci_close d) w.0, λ h'. cc)

update_display-Lasts :
    (n : ℕ) (o : Options) (u : Turn) (m : State)
    → HasReads (n + 2) m
    → Lasts n (update_display o u m)
unfolding update_display
update_display-Lasts n o u m h =
    Lasts-if n o.enable _ _
      (λ _.
        Lasts-bind (n + 1) n (retry_ddc u m) (switch_if_ok o u)
          (Lasts-if (n + 1) m.ddcci_ok _ _ (λ _. fewer (n + 1) (n + 2) m (omega arith) h)
            λ bad.
              init_ddc-Lasts (n + 1) (find_i2c u.libc u.drm u.ddc) u.open_kernel m bad
                (omega arith))
          λ m' h'.
            Lasts-if n m'.ddcci_ok _ _
              (λ ok. switch_output-Lasts n o u.set_kernel (is_grabbed u) m' ok h')
              λ _. fewer n (n + 1) m' (omega arith) h')
      λ _. fewer n (n + 2) m (omega arith) h

pub follow_grab-Lasts :
    (n : ℕ) (o : Options) (u : Turn) (m : State) → HasReads (n + 2) m → Lasts n (follow_grab o u m)
follow_grab-Lasts n o u m h =
    Lasts-if n (same (is_grabbed u) m.was_grabbed) _ _ (λ _. fewer n (n + 2) m (omega arith) h)
      λ _.
        changed-Holds (HasReads n) AnyEnd ⊥ (λ m' h'. h') (λ m' h'. tt) (HasReads n) o u m
          (update_display-Lasts n o u m h) λ m' h'. h'
