-- ===== src/Main/Title.antt =====
-- src/main.c, `update_title` and `on_audio_latency`: which of its calls show their values in the title. The values are
-- of any type.
use spicy_kvm.Prelude.{
  ℕ, Bool, ◌+◌, ◌*◌, ◌/◌, ◌%◌, ◌≤◌, ◌≡◌, List, [], ◌∷◌, leb, length, if◌then◌else◌, Option, none,
  some, arith,
}

-- The static counter, the values that were kept, and what was printed, newest first: whether there was a
-- grabbed keyboard, and the values.
pub record Title {ℓ} (A : Type ℓ) : Type ℓ where
  pub ctr : ℕ
  pub values : Option A
  pub printed : List (Bool × Option A)

module _ {ℓ} {A : Type ℓ} where
  abbrev pub title_start : Title A
  title_start = record { ctr = 0; values = none; printed = [] }

  unfoldable pub update_title : Bool → Title A → Title A
  update_title grabbed t = record t { printed = (grabbed, t.values) ∷ t.printed }

  -- `ctr++ >= 8`
  unfoldable pub on_audio_latency : Bool → A → Title A → Title A
  on_audio_latency grabbed a t =
      if leb 8 t.ctr
      then update_title grabbed (record t { ctr = 0; values = some a })
      else record t { ctr = t.ctr + 1 }

  -- Some calls, each with whether there is a grabbed keyboard by then.
  unfoldable pub latencies : List (Bool × A) → Title A → Title A
  latencies [] t = t
  latencies ((grabbed, a) ∷ rest) t = latencies rest (on_audio_latency grabbed a t)

  counted :
      (xs : List (Bool × A)) (t : Title A)
      → t.ctr ≤ 8
      → let t' = latencies xs t in
        (t'.ctr ≤ 8) × (length t'.printed * 9 + t'.ctr ≡ length t.printed * 9 + t.ctr + length xs)
  unfolding latencies on_audio_latency update_title
  counted [] t h = (h, omega arith)
  counted ((grabbed, a) ∷ xs) t h =
      let (lo, e) = counted xs (on_audio_latency grabbed a t) (ground arith) in
      ground (arith, lo, e)

  -- Of n calls, every ninth updates the title: n / 9 of them, with n % 9 counted since the last.
  latencies_lem :
      (xs : List (Bool × A))
      → let t = latencies xs (title_start) in
        (length t.printed ≡ length xs / 9) × (t.ctr ≡ length xs % 9)
  latencies_lem xs =
      let (lo, e) = counted xs title_start (omega arith) in (omega arith, omega arith)
