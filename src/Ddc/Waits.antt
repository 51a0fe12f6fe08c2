-- ===== src/Ddc/Waits.antt =====
-- How long src/ddcci.c waits for the timer.
use spicy_kvm.Prelude.{
  ℕ, suc, ◌+◌, ◌≤◌, ◌≡◌, refl, true, inl, inr, none, some, List, [], ◌∷◌, Bool-cases, Option-cases,
  arith,
}
use spicy_kvm.Ddc.Packet.{is_too_long, vcp_command}
use spicy_kvm.Ddc.Bus.{
  Rc, success, err, errno, Tick, ticks, interrupted, broken, Ddcci, Kernel, Run, is_set, wait_loop,
  ddcci_wait, ddcci_wait_set, ddcci_close, ddcci_open, first_wait, send, ddcci_tx, ddcci_vcp_set,
}

-- How many waits the reads are enough for: an interrupted read is tried again.
abbrev pub waits : List Tick → ℕ
waits [] = 0
waits (interrupted ∷ rs) = waits rs
waits (_ ∷ rs) = suc (waits rs)

-- A call to the display that returns, leaves reads for some more waits, and on success a timer that is set.
abbrev pub Leaves : ℕ → Run → Type 0
Leaves n none = ⊥
Leaves n (some (rc, d)) = (n ≤ waits d.reads) × (rc ≡ success → is_set d.calls ≡ true)

-- A wait for a timer that is set leaves it set.
abbrev LeavesSet : ℕ → Run → Type 0
LeavesSet n none = ⊥
LeavesSet n (some (rc, d)) = (n ≤ waits d.reads) × (is_set d.calls ≡ true)

wait_loop-LeavesSet :
    (n : ℕ) (rs : List Tick) (d : Ddcci)
    → n + 1 ≤ waits rs
    → is_set d.calls ≡ true
    → LeavesSet n (wait_loop rs d)
unfolding wait_loop
wait_loop-LeavesSet n [] d h e = absurd (omega arith)
wait_loop-LeavesSet n (ticks ∷ rs) d h e = rw e (omega arith, e)
wait_loop-LeavesSet n (interrupted ∷ rs) d h e = wait_loop-LeavesSet n rs d h e
wait_loop-LeavesSet n (broken x ∷ rs) d h e = (omega arith, e)

pub reads-ddcci_close : (d : Ddcci) → (ddcci_close d).reads ≡ d.reads
unfolding ddcci_close
reads-ddcci_close d = ground arith

send-Leaves :
    (n : ℕ) (k : Kernel) (cmd : List ℕ) (r : Rc × Ddcci)
    → n ≤ waits (r.1).reads
    → Leaves n (some (send k cmd 50 r))
unfolding send ddcci_wait_set
send-Leaves n k cmd (success, d) h = elim (Option-cases d.fd) [
  | inl e ↦ rw (e, send) (h, λ x. cc)
  | inr (fd, e) ↦ elim (Option-cases k.write_errno) [
    | inr (x, e') ↦ rw (e, send, e') (h, λ y. cc)
    | inl e' ↦ elim (Option-cases k.set_errno) [
      | inr (x, e2) ↦ rw (e, send, e', e2) (h, λ y. cc)
      | inl e2 ↦ rw (e, send, e', e2) (h, λ y. refl)
    ]
  ]
]
send-Leaves n k cmd (err x, d) h = (h, λ y. cc)
send-Leaves n k cmd (errno e, d) h = (h, λ y. cc)

pub vcp_set-Leaves :
    (n : ℕ) (k : Kernel) (vcp val : ℕ) (d : Ddcci)
    → n + 1 ≤ waits d.reads
    → is_set d.calls ≡ true
    → Leaves n (ddcci_vcp_set k vcp val d)
unfolding ddcci_vcp_set ddcci_tx ddcci_wait
vcp_set-Leaves n k vcp val d h set = elim (Bool-cases (is_too_long (vcp_command vcp val))) [
  | inl long ↦ rw long (omega arith, λ x. cc)
  | inr short ↦ elim (Option-cases (wait_loop d.reads d)) [
    | inl e ↦ absurd (rw e at (wait_loop-LeavesSet n d.reads d h set))
    | inr (r, e) ↦
        let w : LeavesSet n (some r) = rw e at (wait_loop-LeavesSet n d.reads d h set) in
        rw (short, e) (send-Leaves n k (vcp_command vcp val) r w.0)
  ]
]

first_wait-Leaves : (n : ℕ) (r : Run) → LeavesSet n r → Leaves n (first_wait r)
first_wait-Leaves n none h = h
first_wait-Leaves n (some (rc, d)) h = (h.0, λ x. h.1)

close-Leaves : (n : ℕ) (d : Ddcci) → n + 1 ≤ waits d.reads → n ≤ waits (ddcci_close d).reads
close-Leaves n d h = rw (reads-ddcci_close d) (omega arith)

pub ddcci_open-Leaves :
    (n : ℕ) (k : Kernel) (i2c : ℕ) (d : Ddcci)
    → n + 1 ≤ waits d.reads
    → Leaves n (ddcci_open k i2c d)
unfolding ddcci_open ddcci_wait ddcci_wait_set
ddcci_open-Leaves n k i2c d h = elim (Option-cases k.open_fd) [
  | inl e ↦ rw (e, ddcci_open) (close-Leaves n _ h, λ x. cc)
  | inr (fd, e) ↦ elim (Option-cases k.ioctl_errno) [
    | inr (x, e') ↦ rw (e, ddcci_open, e') (close-Leaves n _ h, λ y. cc)
    | inl e' ↦ elim (Option-cases k.timer_fd) [
      | inl e2 ↦ rw (e, ddcci_open, e', e2) (close-Leaves n _ h, λ y. cc)
      | inr (tfd, e2) ↦ elim (Option-cases k.set_errno) [
        | inr (x, e3) ↦ rw (e, ddcci_open, e', e2, e3) (close-Leaves n _ h, λ y. cc)
        | inl e3 ↦
            rw (e, ddcci_open, e', e2, e3)
              (first_wait-Leaves n _ (wait_loop-LeavesSet n d.reads _ h refl))
      ]
    ]
  ]
]
