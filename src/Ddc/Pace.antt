-- ===== src/Ddc/Pace.antt =====
-- The pace of the writes of src/ddcci.c, and what a write sends.
use spicy_kvm.Prelude.{
  ℕ, ◌≡◌, refl, Bool, true, false, ◌&&◌, Option, none, some, List, [], ◌∷◌, ◌++◌, replicate,
  Bool-cases, Option-cases, inl, inr, arith,
}
use spicy_kvm.Ddc.Packet.{is_too_long, packet, vcp_command}
use spicy_kvm.Ddc.Bus.{
  Rc, success, errno, Call, sets_timer, expired, writes, Tick, ticks, interrupted, broken, Ddcci,
  Kernel, Run, is_set, wait_loop, ddcci_wait, ddcci_wait_set, ddcci_close, ddcci_open, send,
  ddcci_tx, ddcci_vcp_set,
}
use spicy_kvm.Ddc.Descriptors.{is_write, open_keeps, close_keeps, Ends, Ends-if, wait_loop_run}

-- Going back from a write, the timer expired before another write is met.
abbrev is_rested : List Call → Bool
is_rested [] = false
is_rested (expired ∷ cs) = true
is_rested (writes fd bytes ∷ cs) = false
is_rested (_ ∷ cs) = is_rested cs

-- Each write comes after a wait of its own.
abbrev is_paced : List Call → Bool
is_paced [] = true
is_paced (writes fd bytes ∷ cs) = is_rested cs && is_paced cs
is_paced (_ ∷ cs) = is_paced cs

-- The uses of a bus, each with what the kernel answers.
pub data Use : Type 0 where
  open_bus : Kernel → ℕ → Use
  set_vcp : Kernel → ℕ → ℕ → Use
  close_bus : Use

abbrev state_of : Run → Option Ddcci
state_of none = none
state_of (some (rc, d)) = some d

abbrev pub use_bus : Use → Ddcci → Option Ddcci
use_bus (open_bus k i2c) d = state_of (ddcci_open k i2c d)
use_bus (set_vcp k vcp val) d = state_of (ddcci_vcp_set k vcp val d)
use_bus close_bus d = some (ddcci_close d)

-- One use after the other, whatever they return; `none` if one is still waiting.
abbrev pub use_all : List Use → Ddcci → Option Ddcci
use_all [] d = some d
use_all (u ∷ us) d = elim (use_bus u d) [ none ↦ none | some d' ↦ use_all us d' ]

abbrev Waited : Ddcci → Rc → Ddcci → Type 0
Waited d rc d' =
    (d'.fd ≡ d.fd)
    × (is_paced d'.calls ≡ is_paced d.calls)
    × (rc ≡ success → is_rested d'.calls ≡ true)

wait_paced : (rs : List Tick) (d : Ddcci) → Ends (Waited d) (wait_loop rs d)
unfolding wait_loop
wait_paced [] d = tt
wait_paced (ticks ∷ rs) d = Ends-if (Waited d) (is_set d.calls) _ (refl, refl, λ h. refl)
wait_paced (interrupted ∷ rs) d = wait_paced rs d
wait_paced (broken e ∷ rs) d = (refl, refl, λ h. cc)

abbrev Paced : Rc → Ddcci → Type 0
Paced rc d = is_paced d.calls ≡ true

send-Paced :
    (k : Kernel) (cmd : List ℕ) (ms : ℕ) (d d' : Ddcci) (rc : Rc)
    → is_paced d.calls ≡ true
    → Waited d rc d'
    → Ends Paced (some (send k cmd ms (rc, d')))
unfolding send ddcci_wait_set
send-Paced k cmd ms d d' rc p w = ground arith

tx-Paced :
    (k : Kernel) (cmd : List ℕ) (ms : ℕ) (d : Ddcci)
    → is_paced d.calls ≡ true
    → Ends Paced (ddcci_tx k cmd ms d)
unfolding ddcci_tx ddcci_wait
tx-Paced k cmd ms d p = elim (Bool-cases (is_too_long cmd)) [
  | inl long ↦ rw long p
  | inr short ↦ elim (Option-cases (wait_loop d.reads d)) [
    | inl e ↦ rw (short, e) tt
    | inr ((rc, d'), e) ↦
        let w : Ends (Waited d) (some (rc, d')) = rw e at (wait_paced d.reads d) in
        rw (short, e) (send-Paced k cmd ms d d' rc p w)
  ]
]

of_run : (r : Run) (d' : Ddcci) → Ends Paced r → state_of r ≡ some d' → is_paced d'.calls ≡ true
of_run none d' p e = cc
of_run (some (rc, d)) d' p e = ground arith

stuck :
    (u : Use) (us : List Use) (d d' : Ddcci) → use_bus u d ≡ none → use_all (u ∷ us) d ≡ some d' → ⊥
stuck u us d d' e h = let h' : none ≡ some d' = rw (e, use_all) at h in cc

paced_keeps :
    (c : Call) (cs : List Call) → is_write c ≡ false → is_paced cs ≡ true → is_paced (c ∷ cs) ≡ true
paced_keeps (writes fd bytes) cs h p = cc
paced_keeps _ cs h p = p

open-Paced :
    (k : Kernel) (i2c : ℕ) (d : Ddcci) → is_paced d.calls ≡ true → Ends Paced (ddcci_open k i2c d)
open-Paced = open_keeps (λ cs. is_paced cs ≡ true) paced_keeps

use_paced :
    (u : Use) (d d' : Ddcci)
    → is_paced d.calls ≡ true
    → use_bus u d ≡ some d'
    → is_paced d'.calls ≡ true
use_paced (open_bus k i2c) d d' p e = of_run (ddcci_open k i2c d) d' (open-Paced k i2c d p) e
use_paced (set_vcp k vcp val) d d' p e =
    of_run (ddcci_vcp_set k vcp val d) d'
      (unfold ddcci_vcp_set in tx-Paced k (vcp_command vcp val) 50 d p) e
use_paced close_bus d d' p e =
    ground (arith, close_keeps (λ cs. is_paced cs ≡ true) paced_keeps d p)

-- Between two writes to a bus the program waits for its timer, over any opens, writes and closes,
-- whatever they return.
use_all-is_paced :
    (us : List Use) (d d' : Ddcci)
    → is_paced d.calls ≡ true
    → use_all us d ≡ some d'
    → is_paced d'.calls ≡ true
use_all-is_paced [] d d' p e = ground arith
use_all-is_paced (u ∷ us) d d' p e = elim (Option-cases (use_bus u d)) [
  | inl e' ↦ absurd (stuck u us d d' e' e)
  | inr (d'', e') ↦ use_all-is_paced us d'' d' (use_paced u d d'' p e') (rw (e', use_all) at e)
]

-- With a bus open and its timer set, and read until it expires, `ddcci_vcp_set` sends one packet and sets
-- the timer to 50 ms. If the write fails, nothing is sent and its errno is returned; if the timer
-- cannot be set, the packet is sent and that errno is returned.
ddcci_vcp_set_lem :
    (k : Kernel) (vcp val n fd : ℕ) (rs : List Tick) (d : Ddcci)
    → d.fd ≡ some fd
    → is_set d.calls ≡ true
    → d.reads ≡ replicate n interrupted ++ ticks ∷ rs
    → let waited = record d { reads = rs; calls = expired ∷ d.calls } in
      let sent = record waited {
        calls = writes fd (packet (vcp_command vcp val)) ∷ waited.calls;
      } in
      ddcci_vcp_set k vcp val d ≡ elim k.write_errno [
        | some e ↦ some (errno e, waited)
        | none ↦ elim k.set_errno [
          | some e ↦ some (errno e, sent)
          | none ↦ some (success, record sent { calls = sets_timer 0 50000000 ∷ sent.calls })
        ]
      ]
unfolding ddcci_vcp_set ddcci_tx ddcci_wait
ddcci_vcp_set_lem k vcp val n fd rs d is_open set e =
    rw (wait_loop_run ticks n rs d e)
      (unfold wait_loop send ddcci_wait_set vcp_command in ground arith)
