-- ===== src/Ddc/Bus.antt =====
-- src/ddcci.c, the bus: `struct ddcci`, and the calls on its two descriptors.
-- What the kernel answers is a parameter. The text of a path is left out: a bus is known by its
-- number. A positive result of the functions is an error of `enum ddcci_error`, a negative one an
-- errno.
use spicy_kvm.Prelude.{
  ℕ, ◌+◌, ◌*◌, Bool, false, ltb, ◌/◌, ◌%◌, Option, none, some, List, [], ◌∷◌, if◌then◌else◌,
}
use spicy_kvm.Ddc.Packet.{is_too_long, packet, vcp_command}

pub data Error : Type 0 where
  invalid_argument device_gone checksum bad_reply no_reply unsupported_vcp short_read : Error
  bad_i2c_src_addr : Error

-- The result of a function: `ddcci_success`, an error, or a negated errno.
pub data Rc : Type 0 where
  success : Rc
  err : Error → Rc
  errno : ℕ → Rc

-- The calls that are made. `expired` is a read of the timer that succeeds. `closes` is `close`.
pub data Call : Type 0 where
  opens : ℕ → Call
  set_slave : ℕ → Call
  creates_timer : Call
  sets_timer : ℕ → ℕ → Call
  expired : Call
  writes : ℕ → List ℕ → Call
  closes : ℕ → Call

-- What a read of the timer gives: its expirations, EINTR or EAGAIN, or another errno.
pub data Tick : Type 0 where
  ticks interrupted : Tick
  broken : ℕ → Tick

-- `struct ddcci`, where -1 is `none`, with the calls made so far, newest first, and what the reads
-- of the timer will give.
pub record Ddcci : Type 0 where
  pub fd : Option ℕ
  pub tfd : Option ℕ
  pub reads : List Tick
  pub calls : List Call

-- What the other calls give: a descriptor or `none`, an errno or `none`, and the errno that is set
-- if a descriptor is not given.
pub record Kernel : Type 0 where
  pub open_fd : Option ℕ
  pub ioctl_errno : Option ℕ
  pub timer_fd : Option ℕ
  pub set_errno : Option ℕ
  pub write_errno : Option ℕ
  pub last_errno : ℕ

-- A result and the state after it; `none` while a read of the timer is still awaited.
abbrev pub Run : Type 0
Run = Option (Rc × Ddcci)

abbrev pub note : Call → Ddcci → Ddcci
note c d = record d { calls = c ∷ d.calls }

-- Whether the timer runs, by the calls, newest first. As `ddcci_wait_set` gives it an interval, a timer that
-- was set once expires again and again; a new one, one that is set to 0, and none do not.
abbrev pub is_set : List Call → Bool
is_set [] = false
is_set (creates_timer ∷ cs) = false
is_set (sets_timer s ns ∷ cs) = ltb 0 (s + ns)
is_set (closes fd ∷ cs) = false
is_set (_ ∷ cs) = is_set cs

-- The loop of `ddcci_wait`, over what the reads will give. A read of a timer that does not run never returns with
-- expirations.
unfoldable pub wait_loop : List Tick → Ddcci → Run
wait_loop [] d = none
wait_loop (ticks ∷ rs) d =
    if is_set d.calls
    then some (success, record d { reads = rs; calls = expired ∷ d.calls })
    else none
wait_loop (interrupted ∷ rs) d = wait_loop rs d
wait_loop (broken e ∷ rs) d = some (errno e, record d { reads = rs })

unfoldable pub ddcci_wait : Ddcci → Run
ddcci_wait d = wait_loop d.reads d

-- The timer is set to seconds and nanoseconds; its interval, 100 µs, is in `is_set`.
unfoldable pub ddcci_wait_set : Kernel → ℕ → Ddcci → Rc × Ddcci
ddcci_wait_set k ms d = elim k.set_errno [
  | some e ↦ (errno e, d)
  | none ↦ (success, note (sets_timer (ms * 1000000 / 1000000000) (ms * 1000000 % 1000000000)) d)
]

abbrev close_fd : Option ℕ → Ddcci → Ddcci
close_fd none d = d
close_fd (some fd) d = note (closes fd) d

unfoldable pub ddcci_close : Ddcci → Ddcci
ddcci_close d = record (close_fd d.tfd (close_fd d.fd d)) { fd = some 0; tfd = some 0 }

-- The errno that is returned after `ddcci_close` is that of the call that failed.
abbrev fails : ℕ → Ddcci → Run
fails e d = some (errno e, ddcci_close d)

-- From the wait at the end of `ddcci_open` on, whose result is not looked at.
abbrev pub first_wait : Run → Run
first_wait none = none
first_wait (some (rc, d)) = some (success, d)

open_timer : Kernel → Ddcci → Run
open_timer k d = elim k.timer_fd [
  | none ↦ fails k.last_errno d
  | some tfd ↦
      let t = note creates_timer (record d { tfd = some tfd }) in
      let (rc, u) = ddcci_wait_set k 1 t in
      elim rc [
        | success ↦ first_wait (ddcci_wait u)
        | err x ↦ fails k.last_errno u
        | errno e ↦ fails e u
      ]
]

unfoldable pub ddcci_open : Kernel → ℕ → Ddcci → Run
unfolding open_timer
ddcci_open k i2c d0 =
    let d = record d0 { fd = none; tfd = none } in
    elim k.open_fd [
      | none ↦ fails k.last_errno d
      | some fd ↦
          let o = note (opens i2c) (record d { fd = some fd }) in
          elim k.ioctl_errno [ some e ↦ fails e o | none ↦ open_timer k (note (set_slave 0x37) o) ]
    ]

-- After the wait of `ddcci_tx`.
unfoldable pub send : Kernel → List ℕ → ℕ → Rc × Ddcci → Rc × Ddcci
send k cmd wait_ms (success, d) = elim d.fd [
  | none ↦ (errno k.last_errno, d)
  | some fd ↦ elim k.write_errno [
    | some e ↦ (errno e, d)
    | none ↦ ddcci_wait_set k wait_ms (note (writes fd (packet cmd)) d)
  ]
]
send k cmd wait_ms (rc, d) = (rc, d)

unfoldable pub ddcci_tx : Kernel → List ℕ → ℕ → Ddcci → Run
ddcci_tx k cmd wait_ms d =
    if is_too_long cmd
    then some (err invalid_argument, d)
    else (elim (ddcci_wait d) [ none ↦ none | some r ↦ some (send k cmd wait_ms r) ])

unfoldable pub ddcci_vcp_set : Kernel → ℕ → ℕ → Ddcci → Run
ddcci_vcp_set k vcp val d = ddcci_tx k (vcp_command vcp val) 50 d
