-- ===== src/Prelude/Bits.antt =====
-- Laws of `bit_xor` at variables, from the recursion on binary digits that it stands for.
use Prim.Native.Nat.{
  ℕ, zero, suc, ◌+◌, ◌-◌, ◌*◌, ◌/◌, ◌%◌, ◌≤◌, ◌<◌, bit_xor, digits, differ, bit_xor-bitwise,
}
use mathlib.Core.Path.{◌≡◌, refl, ap, sym, ◌∙◌}
use native.Mathlib.Omega.{arith}

-- The two numbers' digits, put together by `differ`, with some fuel.
abbrev differing : ℕ → ℕ → ℕ → ℕ
differing = digits (λ x. x) differ

-- A number with no digits takes none of the fuel.
no_digits : (n b : ℕ) → differing n 0 b ≡ b
no_digits zero b = refl
no_digits (suc n) b = refl

more_fuel : (n k a b : ℕ) → a ≤ n → differing (k + n) a b ≡ differing n a b
more_fuel n k zero b h = no_digits (k + n) b ∙ sym (no_digits n b)
more_fuel zero k (suc a) b h = absurd (omega arith)
more_fuel (suc n) k (suc a) b h =
    let up : k + suc n ≡ suc (k + n) = omega arith in
    rw (up, more_fuel n k (suc a / 2) (b / 2) (omega arith))

least_fuel : (n a b : ℕ) → a ≤ n → differing n a b ≡ differing a a b
least_fuel n a b h =
    let split : n ≡ n - a + a = omega arith in
    ap (λ m. differing m a b) split ∙ more_fuel a (n - a) a b (omega arith)

-- `differ` is the sum of two digits without its carry.
differ-digits : (x y : ℕ) → x < 2 → y < 2 → differ x y ≡ (x + y) % 2
differ-digits zero zero p q = refl
differ-digits zero (suc zero) p q = refl
differ-digits (suc zero) zero p q = refl
differ-digits (suc zero) (suc zero) p q = refl
differ-digits zero (suc (suc y)) p q = absurd (omega arith)
differ-digits (suc zero) (suc (suc y)) p q = absurd (omega arith)
differ-digits (suc (suc x)) y p q = absurd (omega arith)

zero-bit_xor : (b : ℕ) → bit_xor 0 b ≡ b
zero-bit_xor b = bit_xor-bitwise 0 b

bit_xor_step : (a b : ℕ) → bit_xor a b ≡ bit_xor (a / 2) (b / 2) * 2 + (a % 2 + b % 2) % 2
bit_xor_step zero b = omega (arith, zero-bit_xor b, zero-bit_xor (b / 2))
bit_xor_step (suc a) b = omega (
  arith,
  bit_xor-bitwise (suc a) b,
  bit_xor-bitwise (suc a / 2) (b / 2),
  least_fuel a (suc a / 2) (b / 2) (omega arith),
  differ-digits (suc a % 2) (b % 2) (omega arith) (omega arith),
)

-- Each law below goes by the digits of numbers up to a bound `n`.
self_below : (n a : ℕ) → a ≤ n → bit_xor a a ≡ 0
self_below n zero h = zero-bit_xor 0
self_below zero (suc a) h = absurd (omega arith)
self_below (suc n) (suc a) h =
    omega (arith, bit_xor_step (suc a) (suc a), self_below n (suc a / 2) (omega arith))

comm_below : (n a b : ℕ) → a ≤ n → b ≤ n → bit_xor a b ≡ bit_xor b a
comm_below n zero zero p q = refl
comm_below zero (suc a) b p q = absurd (omega arith)
comm_below zero zero (suc b) p q = absurd (omega arith)
comm_below (suc n) a b p q = omega (
  arith,
  bit_xor_step a b,
  bit_xor_step b a,
  comm_below n (a / 2) (b / 2) (omega arith) (omega arith),
)

cancel_below : (n a b c : ℕ) → a ≤ n → bit_xor a b ≡ bit_xor a c → b ≡ c
cancel_below n zero b c p e = omega (arith, zero-bit_xor b, zero-bit_xor c)
cancel_below zero (suc a) b c p e = absurd (omega arith)
cancel_below (suc n) (suc a) b c p e =
    let halves =
      cancel_below n (suc a / 2) (b / 2) (c / 2) (omega arith)
        (omega (arith, bit_xor_step (suc a) b, bit_xor_step (suc a) c)) in
    omega (arith, bit_xor_step (suc a) b, bit_xor_step (suc a) c)

pub bit_xor_self : (a : ℕ) → bit_xor a a ≡ 0
bit_xor_self a = self_below a a (omega arith)

pub bit_xor_comm : (a b : ℕ) → bit_xor a b ≡ bit_xor b a
bit_xor_comm a b = comm_below (a + b) a b (omega arith) (omega arith)

pub bit_xor_cancel_left : (a b c : ℕ) → bit_xor a b ≡ bit_xor a c → b ≡ c
bit_xor_cancel_left a b c = cancel_below a a b c (omega arith)

pub bit_xor_cancel_right : (a b c : ℕ) → bit_xor b a ≡ bit_xor c a → b ≡ c
bit_xor_cancel_right a b c e =
    bit_xor_cancel_left a b c (omega (arith, bit_xor_comm a b, bit_xor_comm a c))
