-- ===== src/Prelude/Bits.antt =====
-- Laws of `bit_xor` and `bit_or` at variables, from their digits.
use Prim.Native.Nat.{
  ℕ, zero, suc, ◌+◌, ◌*◌, ◌/◌, ◌%◌, ◌≤◌, ◌<◌, max, bit_or, bit_xor, digits, differ, bit_or-bitwise,
  bit_xor-bitwise,
}
use mathlib.Core.Path.{◌≡◌, refl, ap, ◌∙◌, sym}
use native.Mathlib.Omega.{arith}

-- Fuel beyond the first number changes nothing.
module _ (f : ℕ → ℕ → ℕ) where
  abbrev halved : ℕ → ℕ → ℕ → ℕ
  halved n a b = digits (λ b. b) f n a b

  halved_fuel : (n m a b : ℕ) → a ≤ n → a ≤ m → halved n a b ≡ halved m a b
  halved_fuel zero zero a b p q = refl
  halved_fuel zero (suc m) zero b p q = refl
  halved_fuel zero (suc m) (suc a) b p q = absurd (omega arith)
  halved_fuel (suc n) zero zero b p q = refl
  halved_fuel (suc n) zero (suc a) b p q = absurd (omega arith)
  halved_fuel (suc n) (suc m) zero b p q = refl
  halved_fuel (suc n) (suc m) (suc a) b p q =
      omega (arith, halved_fuel n m (suc a / 2) (b / 2) (omega arith) (omega arith))

pub zero-bit_xor : (b : ℕ) → bit_xor 0 b ≡ b
zero-bit_xor b = bit_xor-bitwise 0 b

pub zero-bit_or : (b : ℕ) → bit_or 0 b ≡ b
zero-bit_or b = bit_or-bitwise 0 b

differ_zero : (b : ℕ) → differ 0 b ≡ b
differ_zero b = refl

pub bit_xor_step : (a b : ℕ) → bit_xor a b ≡ bit_xor (a / 2) (b / 2) * 2 + differ (a % 2) (b % 2)
bit_xor_step zero b = omega (arith, zero-bit_xor b, zero-bit_xor (b / 2), differ_zero (b % 2))
bit_xor_step (suc a) b = omega (
  arith,
  bit_xor-bitwise (suc a) b,
  bit_xor-bitwise (suc a / 2) (b / 2),
  halved_fuel differ a (suc a / 2) (suc a / 2) (b / 2) (omega arith) (omega arith),
)

pub bit_or_step : (a b : ℕ) → bit_or a b ≡ bit_or (a / 2) (b / 2) * 2 + max (a % 2) (b % 2)
bit_or_step zero b = omega (arith, zero-bit_or b, zero-bit_or (b / 2))
bit_or_step (suc a) b = omega (
  arith,
  bit_or-bitwise (suc a) b,
  bit_or-bitwise (suc a / 2) (b / 2),
  halved_fuel max a (suc a / 2) (suc a / 2) (b / 2) (omega arith) (omega arith),
)

-- What one digit makes of two digits.
differ_digit : (a b : ℕ) → a < 2 → b < 2 → (differ a b < 2) × (differ (differ a b) b ≡ a)
differ_digit zero zero p q = (omega arith, refl)
differ_digit zero (suc zero) p q = (omega arith, refl)
differ_digit (suc zero) zero p q = (omega arith, refl)
differ_digit (suc zero) (suc zero) p q = (omega arith, refl)
differ_digit zero (suc (suc b)) p q = absurd (omega arith)
differ_digit (suc zero) (suc (suc b)) p q = absurd (omega arith)
differ_digit (suc (suc a)) b p q = absurd (omega arith)

bit_xor_twice_step :
    (a b : ℕ) → bit_xor (bit_xor (a / 2) (b / 2)) (b / 2) ≡ a / 2 → bit_xor (bit_xor a b) b ≡ a
bit_xor_twice_step a b ih =
    let x : ℕ = bit_xor a b in
    let (bound, back) = differ_digit (a % 2) (b % 2) (omega arith) (omega arith) in
    let step = bit_xor_step a b in
    let high : x / 2 ≡ bit_xor (a / 2) (b / 2) = omega arith in
    let low : x % 2 ≡ differ (a % 2) (b % 2) = omega arith in
    let again = bit_xor_step x b in
    let lows : differ (x % 2) (b % 2) ≡ a % 2 = rw low back in
    let highs : bit_xor (x / 2) (b / 2) ≡ a / 2 = rw high ih in omega arith

bit_xor_twice_below : (n a b : ℕ) → a + b ≤ n → bit_xor (bit_xor a b) b ≡ a
bit_xor_twice_below n zero zero h = refl
bit_xor_twice_below zero (suc a) b h = absurd (omega arith)
bit_xor_twice_below zero zero (suc b) h = absurd (omega arith)
bit_xor_twice_below (suc n) (suc a) b h =
    bit_xor_twice_step (suc a) b (bit_xor_twice_below n (suc a / 2) (b / 2) (omega arith))
bit_xor_twice_below (suc n) zero (suc b) h =
    bit_xor_twice_step 0 (suc b) (bit_xor_twice_below n (0 / 2) (suc b / 2) (omega arith))

pub bit_xor_twice : (a b : ℕ) → bit_xor (bit_xor a b) b ≡ a
bit_xor_twice a b = bit_xor_twice_below (a + b) a b (omega arith)

pub bit_xor_self : (a : ℕ) → bit_xor a a ≡ 0
bit_xor_self a = omega (arith, ap (λ x. bit_xor x a) (zero-bit_xor a), bit_xor_twice 0 a)

pub eq_of_bit_xor : (a b : ℕ) → bit_xor a b ≡ 0 → a ≡ b
eq_of_bit_xor a b h = sym (bit_xor_twice a b) ∙ ap (λ x. bit_xor x b) h ∙ zero-bit_xor b

bit_or_zero_below : (n a b : ℕ) → a + b ≤ n → bit_or a b ≡ 0 → (a ≡ 0) × (b ≡ 0)
bit_or_zero_below n zero b h e = (refl, omega (arith, zero-bit_or b))
bit_or_zero_below zero (suc a) b h e = absurd (omega arith)
bit_or_zero_below (suc n) (suc a) b h e = omega (
  arith,
  bit_or_step (suc a) b,
  bit_or_zero_below n (suc a / 2) (b / 2) (omega arith) (omega (arith, bit_or_step (suc a) b)),
)

pub zero_of_bit_or : (a b : ℕ) → bit_or a b ≡ 0 → (a ≡ 0) × (b ≡ 0)
zero_of_bit_or a b h = bit_or_zero_below (a + b) a b (omega arith) h
