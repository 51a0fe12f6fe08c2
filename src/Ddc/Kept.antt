-- ===== src/Ddc/Kept.antt =====
-- The descriptors of src/ddcci.c: what writes to the display and `ddcci_close` leave open.
use spicy_kvm.Prelude.{
  ℕ, ◌+◌, ◌≡◌, refl, ◌≢◌, inl, inr, none, some, List, Bool-cases, Option-cases, arith,
}
use spicy_kvm.Ddc.Packet.{is_too_long, vcp_command}
use spicy_kvm.Ddc.Bus.{
  Rc, Ddcci, Kernel, wait_loop, ddcci_wait, ddcci_wait_set, ddcci_close, send, ddcci_tx,
  ddcci_vcp_set,
}
use spicy_kvm.Ddc.Descriptors.{opened, closed, Ends, Keeps, wait-Keeps}

send-Keeps :
    (k : Kernel) (cmd : List ℕ) (ms : ℕ) (rc : Rc) (d d' : Ddcci)
    → Keeps d rc d'
    → Ends (Keeps d) (some (send k cmd ms (rc, d')))
unfolding send ddcci_wait_set
send-Keeps k cmd ms rc d d' w = ground arith

pub vcp_set-Keeps :
    (k : Kernel) (vcp val : ℕ) (d : Ddcci) → Ends (Keeps d) (ddcci_vcp_set k vcp val d)
unfolding ddcci_vcp_set ddcci_tx ddcci_wait
vcp_set-Keeps k vcp val d = elim (Bool-cases (is_too_long (vcp_command vcp val))) [
  | inl long ↦ rw long (refl, refl, refl, refl)
  | inr short ↦ elim (Option-cases (wait_loop d.reads d)) [
    | inl e ↦ rw (short, e) tt
    | inr ((rc, d'), e) ↦
        let w : Ends (Keeps d) (some (rc, d')) = rw e at (wait-Keeps d.reads d) in
        rw (short, e) (send-Keeps k (vcp_command vcp val) 50 rc d d' w)
  ]
]

pub close_closes :
    (d : Ddcci)
    → d.fd ≢ none
    → d.tfd ≢ none
    → (opened (ddcci_close d).calls ≡ opened d.calls)
      × (closed (ddcci_close d).calls ≡ closed d.calls + 2)
unfolding ddcci_close
close_closes d f t = ground arith
