-- ===== src/Ddc/Timed.antt =====
-- The timer of src/ddcci.c between the writes: it is set anew after each of them, and expires before the
-- next one.
use spicy_kvm.Prelude.{
  ℕ, ◌≡◌, refl, Bool, true, false, ◌&&◌, ◌==◌, none, some, List, [], ◌∷◌, Bool-cases, Option-cases,
  inl, inr, arith,
}
use spicy_kvm.Ddc.Packet.{is_too_long, packet, vcp_command}
use spicy_kvm.Ddc.Bus.{
  Rc, success, err, errno, Call, opens, set_slave, creates_timer, sets_timer, expired, writes, Tick,
  ticks, interrupted, broken, Ddcci, Kernel, Run, is_set, wait_loop, ddcci_wait, ddcci_wait_set,
  ddcci_close, ddcci_open, first_wait, send, ddcci_tx, ddcci_vcp_set,
}
use spicy_kvm.Ddc.Descriptors.{is_write, Ends, Ends-if, close_keeps}

-- The nanoseconds for which the timer is set, by the calls before: 50 ms after a write, and else 1 ms.
abbrev pub wait_after : List Call → ℕ
wait_after (writes fd bytes ∷ cs) = 50000000
wait_after _ = 1000000

-- Going back, only expirations come before the timer was set.
abbrev pub is_armed : List Call → Bool
is_armed (sets_timer s ns ∷ cs) = s == 0 && ns == wait_after cs
is_armed (expired ∷ cs) = is_armed cs
is_armed _ = false

abbrev pub is_waited : List Call → Bool
is_waited (expired ∷ cs) = is_armed cs
is_waited _ = false

-- Each write comes right after the timer expired that was set for 50 ms after the write before, or for 1 ms at the
-- open.
abbrev pub is_timed : List Call → Bool
is_timed [] = true
is_timed (writes fd bytes ∷ cs) = is_waited cs && is_timed cs
is_timed (_ ∷ cs) = is_timed cs

-- A fact about the bytes of each write.
abbrev pub AllWrites : (List ℕ → Type 0) → List Call → Type 0
AllWrites P [] = Unit
AllWrites P (writes fd bytes ∷ cs) = P bytes × AllWrites P cs
AllWrites P (_ ∷ cs) = AllWrites P cs

-- What holds of the calls of a display between two uses: `P` of the bytes, and the pace.
pub record IsCalm (P : List ℕ → Type 0) (cs : List Call) : Type 0 where
  pub written : AllWrites P cs
  pub timed : is_timed cs ≡ true

IsCalm-keep :
    (P : List ℕ → Type 0) (c : Call) (cs : List Call)
    → is_write c ≡ false
    → IsCalm P cs
    → IsCalm P (c ∷ cs)
IsCalm-keep P (writes fd bytes) cs h v = cc
IsCalm-keep P (Call.opens i) cs h v = record { written = v.written; timed = v.timed }
IsCalm-keep P (Call.set_slave i) cs h v = record { written = v.written; timed = v.timed }
IsCalm-keep P Call.creates_timer cs h v = record { written = v.written; timed = v.timed }
IsCalm-keep P (sets_timer s ns) cs h v = record { written = v.written; timed = v.timed }
IsCalm-keep P expired cs h v = record { written = v.written; timed = v.timed }
IsCalm-keep P (Call.closes i) cs h v = record { written = v.written; timed = v.timed }

-- A use of a timer that was set leaves the calls calm, and on success the timer set.
pub record IsReady (P : List ℕ → Type 0) (rc : Rc) (d : Ddcci) : Type 0 where
  pub calm : IsCalm P d.calls
  pub armed : rc ≡ success → is_armed d.calls ≡ true

module _ (P : List ℕ → Type 0) where
  -- A wait makes at most the call that the timer expired.
  record IsWaited (rc : Rc) (d : Ddcci) : Type 0 where
    calm : IsCalm P d.calls
    armed : is_armed d.calls ≡ true
    waited : rc ≡ success → is_waited d.calls ≡ true

  wait_loop-IsWaited :
      (rs : List Tick) (d : Ddcci)
      → IsCalm P d.calls
      → is_armed d.calls ≡ true
      → Ends IsWaited (wait_loop rs d)
  unfolding wait_loop
  wait_loop-IsWaited [] d v a = tt
  wait_loop-IsWaited (ticks ∷ rs) d v a =
      Ends-if IsWaited (is_set d.calls) _
        (record { calm = IsCalm-keep P expired d.calls refl v; armed = a; waited = λ h. a })
  wait_loop-IsWaited (interrupted ∷ rs) d v a = wait_loop-IsWaited rs d v a
  wait_loop-IsWaited (broken e ∷ rs) d v a = record { calm = v; armed = a; waited = λ h. cc }

  send-IsReady :
      (k : Kernel) (cmd : List ℕ) (rc : Rc) (d : Ddcci)
      → P (packet cmd)
      → IsWaited rc d
      → Ends (IsReady P) (some (send k cmd 50 (rc, d)))
  unfolding send ddcci_wait_set
  send-IsReady k cmd success d p w = elim (Option-cases d.fd) [
    | inl e ↦ rw (e, send) (record { calm = w.calm; armed = λ h. cc })
    | inr (fd, e) ↦ elim (Option-cases k.write_errno) [
      | inr (x, e') ↦ rw (e, send, e') (record { calm = w.calm; armed = λ h. cc })
      | inl e' ↦
          let v : IsCalm P (writes fd (packet cmd) ∷ d.calls) = record {
            written = (p, w.calm.written);
            timed = ground (arith, w.waited refl, w.calm.timed);
          } in
          elim (Option-cases k.set_errno) [
            | inr (x, e2) ↦ rw (e, send, e', e2) (record { calm = v; armed = λ h. cc })
            | inl e2 ↦
                rw (e, send, e', e2) (record { calm = IsCalm-keep P _ _ refl v; armed = λ h. refl })
          ]
    ]
  ]
  send-IsReady k cmd (err x) d p w = record { calm = w.calm; armed = λ h. cc }
  send-IsReady k cmd (errno x) d p w = record { calm = w.calm; armed = λ h. cc }

  pub vcp_set-IsReady :
      (k : Kernel) (vcp val : ℕ) (d : Ddcci)
      → P (packet (vcp_command vcp val))
      → IsCalm P d.calls
      → is_armed d.calls ≡ true
      → Ends (IsReady P) (ddcci_vcp_set k vcp val d)
  unfolding ddcci_vcp_set ddcci_tx ddcci_wait
  vcp_set-IsReady k vcp val d p v a = elim (Bool-cases (is_too_long (vcp_command vcp val))) [
    | inl long ↦ rw long (record { calm = v; armed = λ h. cc })
    | inr short ↦ elim (Option-cases (wait_loop d.reads d)) [
      | inl e ↦ rw (short, e) tt
      | inr ((rc, d'), e) ↦
          let w : Ends IsWaited (some (rc, d')) = rw e at (wait_loop-IsWaited d.reads d v a) in
          rw (short, e) (send-IsReady k (vcp_command vcp val) rc d' p w)
    ]
  ]

  first_wait-IsReady : (r : Run) → Ends IsWaited r → Ends (IsReady P) (first_wait r)
  first_wait-IsReady none h = tt
  first_wait-IsReady (some (rc, d)) w = record { calm = w.calm; armed = λ h. w.armed }

  pub close-IsCalm : (d : Ddcci) → IsCalm P d.calls → IsCalm P (ddcci_close d).calls
  close-IsCalm = close_keeps (IsCalm P) (IsCalm-keep P)

  pub ddcci_open-IsReady :
      (k : Kernel) (i2c : ℕ) (d : Ddcci) → IsCalm P d.calls → Ends (IsReady P) (ddcci_open k i2c d)
  unfolding ddcci_open ddcci_wait ddcci_wait_set
  ddcci_open-IsReady k i2c d v = elim (Option-cases k.open_fd) [
    | inl e ↦ rw (e, ddcci_open) (record { calm = close-IsCalm _ v; armed = λ h. cc })
    | inr (fd, e) ↦
        let o = IsCalm-keep P (opens i2c) _ refl v in
        elim (Option-cases k.ioctl_errno) [
          | inr (x, e') ↦
              rw (e, ddcci_open, e') (record { calm = close-IsCalm _ o; armed = λ h. cc })
          | inl e' ↦
              let s = IsCalm-keep P (set_slave 0x37) _ refl o in
              elim (Option-cases k.timer_fd) [
                | inl e2 ↦
                    rw (e, ddcci_open, e', e2) (record { calm = close-IsCalm _ s; armed = λ h. cc })
                | inr (tfd, e2) ↦
                    let t = IsCalm-keep P creates_timer _ refl s in
                    elim (Option-cases k.set_errno) [
                      | inr (x, e3) ↦
                          rw (e, ddcci_open, e', e2, e3)
                            (record { calm = close-IsCalm _ t; armed = λ h. cc })
                      | inl e3 ↦
                          rw (e, ddcci_open, e', e2, e3)
                            (first_wait-IsReady _
                              (wait_loop-IsWaited d.reads _ (IsCalm-keep P _ _ refl t) refl))
                    ]
              ]
        ]
  ]
