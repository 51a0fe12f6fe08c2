-- ===== src/Audio/Outside.antt =====
-- What src/audio.c uses and does not define: `double`, the unbounded ring buffer of Looking Glass, and
-- the resampler.
use spicy_kvm.Prelude.{ℕ, ◌≤◌, ◌<◌, ◌≡◌, Bool, ℤ, pos, ◌+ℤ◌, ◌-ℤ◌}

-- `dec n k` is the constant n / 10^k. `llrint` and `round` go to an integer type.
pub record Double {ℓ} (F : Type ℓ) : Type ℓ where
  pub dec : ℕ → ℕ → F
  pub pi : F
  pub sqrt2 : F
  pub dbl_min : F
  pub of_int : ℤ → F
  pub add : F → F → F
  pub sub : F → F → F
  pub mul : F → F → F
  pub div : F → F → F
  pub neg : F → F
  pub fabs : F → F
  pub ge : F → F → Bool
  pub eq : F → F → Bool
  pub llrint : F → ℤ
  pub round : F → ℤ
  pub to_float : F → F

module _ {ℓ} {F : Type ℓ} ⦃d : Double F⦄ where
  infixl 65 ◌⊕◌ ◌⊖◌
  infixl 70 ◌⊗◌ ◌⊘◌
  abbrev pub ◌⊕◌ : F → F → F
  x ⊕ y = d.add x y

  abbrev pub ◌⊖◌ : F → F → F
  x ⊖ y = d.sub x y

  abbrev pub ◌⊗◌ : F → F → F
  x ⊗ y = d.mul x y

  abbrev pub ◌⊘◌ : F → F → F
  x ⊘ y = d.div x y

  abbrev pub of_nat : ℕ → F
  of_nat n = d.of_int (pos n)

-- The samples are left out: what is asked is how many frames are moved, where a negative number
-- goes back.
pub record RingBuffer {ℓ} (B : Type ℓ) : Type ℓ where
  pub new_unbounded : B
  pub count : B → ℤ
  pub append : ℤ → B → B
  pub consume : ℤ → B → B

-- In unbounded mode each call moves its pointer by what it is asked.
pub record IsUnbounded {ℓ} (B : Type ℓ) ⦃rb : RingBuffer B⦄ : Type ℓ where
  pub count-new_unbounded : rb.count rb.new_unbounded ≡ pos 0
  pub count-append : (n : ℤ) (b : B) → rb.count (rb.append n b) ≡ rb.count b +ℤ n
  pub count-consume : (n : ℤ) (b : B) → rb.count (rb.consume n b) ≡ rb.count b -ℤ n

-- What `src_process` gives: an error, or how many frames it used and made.
pub data Resampled : Type 0 where
  failed : Resampled
  resampled : ℕ → ℕ → Resampled

-- By the number of the call, the frames that are given, the ratio, and the room for the result.
abbrev pub Resampler {ℓ} : Type ℓ → Type ℓ
Resampler F = ℕ → ℕ → F → ℤ → Resampled

-- A call that succeeds uses some of the frames that it is given, and no others.
pub record Progresses {ℓ} {F : Type ℓ} (process : Resampler F) : Type ℓ where
  pub uses :
      (i n : ℕ) (ratio : F) (room : ℤ) (used made : ℕ)
      → 0 < n
      → process i n ratio room ≡ resampled used made
      → (0 < used) × (used ≤ n)
