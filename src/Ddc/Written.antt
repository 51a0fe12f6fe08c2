-- ===== src/Ddc/Written.antt =====
-- The last write of src/ddcci.c to the display.
use spicy_kvm.Prelude.{
  ℕ, ◌≡◌, inl, inr, false, Option, none, some, List, [], ◌∷◌, Bool-cases, Option-cases, arith,
}
use spicy_kvm.Ddc.Packet.{is_too_long, packet}
use spicy_kvm.Ddc.Bus.{
  Rc, success, Call, writes, Ddcci, Kernel, ddcci_wait, ddcci_wait_set, send, ddcci_tx,
}
use spicy_kvm.Ddc.Descriptors.{is_write, Ends}

-- The bytes of the last write.
abbrev pub last_write : List Call → Option (List ℕ)
last_write [] = none
last_write (writes fd bytes ∷ cs) = some bytes
last_write (_ ∷ cs) = last_write cs

-- A write that succeeds was of the packet.
abbrev pub Wrote : List ℕ → Rc → Ddcci → Type 0
Wrote cmd rc d = rc ≡ success → last_write d.calls ≡ some (packet cmd)

send-Wrote :
    (k : Kernel) (cmd : List ℕ) (ms : ℕ) (rc : Rc) (d : Ddcci)
    → Ends (Wrote cmd) (some (send k cmd ms (rc, d)))
unfolding send ddcci_wait_set
send-Wrote k cmd ms success d = ground arith
send-Wrote k cmd ms rc d = λ h. cc

pub tx-Wrote :
    (k : Kernel) (cmd : List ℕ) (ms : ℕ) (d : Ddcci) → Ends (Wrote cmd) (ddcci_tx k cmd ms d)
unfolding ddcci_tx
tx-Wrote k cmd ms d = elim (Bool-cases (is_too_long cmd)) [
  | inl long ↦ rw long (λ h. cc)
  | inr short ↦ elim (Option-cases (ddcci_wait d)) [
    | inl e ↦ rw (short, e) tt
    | inr ((rc, d'), e) ↦ rw (short, e) (send-Wrote k cmd ms rc d')
  ]
]

pub unwritten_keeps :
    (c : Call) (cs : List Call)
    → is_write c ≡ false
    → last_write cs ≡ none
    → last_write (c ∷ cs) ≡ none
unwritten_keeps (writes fd bytes) cs h p = cc
unwritten_keeps _ cs h p = p
