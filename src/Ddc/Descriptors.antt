-- ===== src/Ddc/Descriptors.antt =====
-- The two descriptors of src/ddcci.c: the wait on the timer ends, and none is left open.
use spicy_kvm.Prelude.{
  ℕ, zero, suc, ◌+◌, ◌≡◌, refl, ap, ◌∙◌, ◌≢◌, ◌⊎◌, inl, inr, Bool, true, false, none, some, List,
  [], ◌∷◌, ◌++◌, replicate, if◌then◌else◌, Option-cases, arith,
}
use spicy_kvm.Ddc.Bus.{
  Rc, success, errno, Call, opens, set_slave, creates_timer, expired, writes, closes, Tick, ticks,
  interrupted, broken, Ddcci, Kernel, Run, is_set, first_wait, wait_loop, ddcci_wait,
  ddcci_wait_set, ddcci_close, ddcci_open,
}

-- The reads of the timer that `ddcci_wait` needs: any number that is interrupted, and one that is not.
wait_loop_lem :
    (n : ℕ) (r : Tick) (rs : List Tick) (d : Ddcci)
    → wait_loop (replicate n interrupted ++ r ∷ rs) d ≡ wait_loop (r ∷ rs) d
unfolding wait_loop
wait_loop_lem zero r rs d = refl
wait_loop_lem (suc n) r rs d = wait_loop_lem n r rs d

pub wait_loop_run :
    (r : Tick) (n : ℕ) (rs : List Tick) (d : Ddcci)
    → d.reads ≡ replicate n interrupted ++ r ∷ rs
    → wait_loop d.reads d ≡ wait_loop (r ∷ rs) d
wait_loop_run r n rs d e = ap (λ l. wait_loop l d) e ∙ wait_loop_lem n r rs d

-- Where the timer is set, the wait ends at the first read of it that is not interrupted, however many are; it
-- succeeds if the timer expired, and otherwise returns the errno of the read.
ddcci_wait_lem :
    (n : ℕ) (r : Tick) (rs : List Tick) (d : Ddcci)
    → d.reads ≡ replicate n interrupted ++ r ∷ rs
    → r ≢ interrupted
    → is_set d.calls ≡ true
    → (rc : Rc) × (d' : Ddcci) × (ddcci_wait d ≡ some (rc, d'))
      × (d'.reads ≡ rs)
      × ((rc ≡ success) ⊎ ((e : ℕ) × (r ≡ broken e) × (rc ≡ errno e)))
unfolding ddcci_wait wait_loop
ddcci_wait_lem n ticks rs d e h set = (
  success,
  record d { reads = rs; calls = expired ∷ d.calls },
  wait_loop_run ticks n rs d e ∙ ground (arith, set),
  refl,
  inl refl,
)
ddcci_wait_lem n interrupted rs d e h set = absurd (h refl)
ddcci_wait_lem n (broken x) rs d e h set =
    (errno x, record d { reads = rs }, wait_loop_run (broken x) n rs d e, refl, inr (x, refl, refl))

abbrev pub is_write : Call → Bool
is_write (writes fd bytes) = true
is_write _ = false

-- What is open of the descriptors that were given: opened, less closed.
abbrev pub opened : List Call → ℕ
opened [] = 0
opened (opens i2c ∷ cs) = suc (opened cs)
opened (creates_timer ∷ cs) = suc (opened cs)
opened (_ ∷ cs) = opened cs

abbrev pub closed : List Call → ℕ
closed [] = 0
closed (closes fd ∷ cs) = suc (closed cs)
closed (_ ∷ cs) = closed cs

-- A fact about the result and the state of a run that ends.
abbrev pub Ends : (Rc → Ddcci → Type 0) → Run → Type 0
Ends P none = Unit {0}
Ends P (some (rc, d)) = P rc d

-- A run that ends only if the timer is set.
pub Ends-if :
    (P : Rc → Ddcci → Type 0) (b : Bool) (x : Run) → Ends P x → Ends P (if b then x else none)
Ends-if P true x p = p
Ends-if P false x p = tt

-- On success both descriptors are set, and two more are open; on an
-- error as many descriptors are open as before.
abbrev pub Balanced : Ddcci → Rc → Ddcci → Type 0
Balanced d success d' =
    (d'.fd ≢ none)
    × (d'.tfd ≢ none)
    × (opened d'.calls + closed d.calls ≡ opened d.calls + closed d'.calls + 2)
Balanced d rc d' = opened d'.calls + closed d.calls ≡ opened d.calls + closed d'.calls

abbrev pub Keeps : Ddcci → Rc → Ddcci → Type 0
Keeps d rc d' =
    (d'.fd ≡ d.fd)
    × (d'.tfd ≡ d.tfd)
    × (opened d'.calls ≡ opened d.calls)
    × (closed d'.calls ≡ closed d.calls)

pub wait-Keeps : (rs : List Tick) (d : Ddcci) → Ends (Keeps d) (wait_loop rs d)
unfolding wait_loop
wait-Keeps [] d = tt
wait-Keeps (ticks ∷ rs) d = Ends-if (Keeps d) (is_set d.calls) _ (refl, refl, refl, refl)
wait-Keeps (interrupted ∷ rs) d = wait-Keeps rs d
wait-Keeps (broken e ∷ rs) d = (refl, refl, refl, refl)

first_wait-Balanced :
    (d u : Ddcci)
    → u.fd ≢ none
    → u.tfd ≢ none
    → opened u.calls + closed d.calls ≡ opened d.calls + closed u.calls + 2
    → Ends (Balanced d) (first_wait (ddcci_wait u))
unfolding ddcci_wait
first_wait-Balanced d u f t n = elim (Option-cases (wait_loop u.reads u)) [
  | inl e ↦ rw e tt
  | inr ((rc, u'), e) ↦
      let k : Ends (Keeps u) (some (rc, u')) = rw e at (wait-Keeps u.reads u) in
      rw e (ground arith, ground arith, ground (arith, k))
]

-- What `ddcci_open` leaves as it is: any fact about the calls that no call but a write changes.
module _ (P : List Call → Type 0)
    (keep : (c : Call) (cs : List Call) → is_write c ≡ false → P cs → P (c ∷ cs)) where
  wait_keeps_calls :
      (rs : List Tick) (d : Ddcci) → P d.calls → Ends (λ rc d'. P d'.calls) (wait_loop rs d)
  unfolding wait_loop
  wait_keeps_calls [] d p = tt
  wait_keeps_calls (ticks ∷ rs) d p =
      Ends-if (λ rc d'. P d'.calls) (is_set d.calls) _ (keep expired d.calls refl p)
  wait_keeps_calls (interrupted ∷ rs) d p = wait_keeps_calls rs d p
  wait_keeps_calls (broken e ∷ rs) d p = p

  first_wait_keeps :
      (d : Ddcci) → P d.calls → Ends (λ rc d'. P d'.calls) (first_wait (ddcci_wait d))
  unfolding ddcci_wait
  first_wait_keeps d p = elim (Option-cases (wait_loop d.reads d)) [
    | inl e ↦ rw e tt
    | inr ((rc, d'), e) ↦
        let w : Ends (λ rc d'. P d'.calls) (some (rc, d')) =
          rw e at (wait_keeps_calls d.reads d p) in
        rw e w
  ]

  pub close_keeps : (d : Ddcci) → P d.calls → P (ddcci_close d).calls
  unfolding ddcci_close
  close_keeps d p = elim (Option-cases d.fd) [
    | inl e ↦ elim (Option-cases d.tfd) [
      | inl e' ↦ rw (ddcci_close, e, e') p
      | inr (t, e') ↦ rw (ddcci_close, e, e') (keep _ _ refl p)
    ]
    | inr (f, e) ↦ elim (Option-cases d.tfd) [
      | inl e' ↦ rw (ddcci_close, e, e') (keep _ _ refl p)
      | inr (t, e') ↦ rw (ddcci_close, e, e') (keep _ _ refl (keep _ _ refl p))
    ]
  ]

  pub open_keeps :
      (k : Kernel) (i2c : ℕ) (d : Ddcci)
      → P d.calls
      → Ends (λ rc d'. P d'.calls) (ddcci_open k i2c d)
  unfolding ddcci_open ddcci_wait_set
  open_keeps k i2c d p = elim (Option-cases k.open_fd) [
    | inl e ↦ rw (e, ddcci_open) (close_keeps _ p)
    | inr (fd, e) ↦ elim (Option-cases k.ioctl_errno) [
      | inr (x, e') ↦ rw (e, ddcci_open, e') (close_keeps _ (keep _ _ refl p))
      | inl e' ↦ elim (Option-cases k.timer_fd) [
        | inl e2 ↦ rw (e, ddcci_open, e', e2) (close_keeps _ (keep _ _ refl (keep _ _ refl p)))
        | inr (tfd, e2) ↦
            let q =
              keep creates_timer _ refl
                (keep (set_slave 0x37) _ refl (keep (opens i2c) _ refl p)) in
            elim (Option-cases k.set_errno) [
              | inr (x, e3) ↦ rw (e, ddcci_open, e', e2, e3) (close_keeps _ q)
              | inl e3 ↦ rw (e, ddcci_open, e', e2, e3) (first_wait_keeps _ (keep _ _ refl q))
            ]
      ]
    ]
  ]

-- Where it ends, `ddcci_open` leaves, on success, both descriptors set and two more open, and on any error as many
-- open as before; so an error leaks none.
pub ddcci_open-Balanced :
    (k : Kernel) (i2c : ℕ) (d : Ddcci) → Ends (Balanced d) (ddcci_open k i2c d)
unfolding ddcci_open ddcci_close ddcci_wait_set
ddcci_open-Balanced k i2c d = elim (Option-cases k.open_fd) [
  | inl e ↦ rw (e, ddcci_open) refl
  | inr (fd, e) ↦ elim (Option-cases k.ioctl_errno) [
    | inr (x, e') ↦ rw (e, ddcci_open, e') (omega arith)
    | inl e' ↦ elim (Option-cases k.timer_fd) [
      | inl e2 ↦ rw (e, ddcci_open, e', e2) (omega arith)
      | inr (tfd, e2) ↦ elim (Option-cases k.set_errno) [
        | inr (x, e3) ↦ rw (e, ddcci_open, e', e2, e3) (omega arith)
        | inl e3 ↦
            rw (e, ddcci_open, e', e2, e3)
              (first_wait-Balanced d _ (λ h. cc) (λ h. cc) (omega arith))
      ]
    ]
  ]
]
