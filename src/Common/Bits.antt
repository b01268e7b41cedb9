-- ===== src/Common/Bits.antt =====
-- Masks and disjoint fields of machine words: `&` with low ones is a remainder, and `|` of fields
-- that do not overlap is a sum.
use Prim.Native.Nat.{
  ℕ, zero, suc, ◌+◌, ◌-◌, ◌*◌, ◌/◌, ◌%◌, ◌^◌, ◌≤◌, ◌<◌, min, max, bit_and, bit_or, digits,
  bit_and-bitwise, bit_or-bitwise,
}
use mathlib.Core.Path.{◌≡◌, refl, ap, ap₂, ◌∙◌, sym}
use native.Mathlib.Nat.{pow-suc, one-le-pow}
use native.Mathlib.Omega.{arith}

-- Both operations go digit by digit, on fuel that only has to reach the first argument.
module _ (z : ℕ → ℕ) (f : ℕ → ℕ → ℕ) (low : (b : ℕ) → z b ≡ z (b / 2) * 2 + f 0 (b % 2)) where
  run_out : (n b : ℕ) → digits z f n 0 b ≡ z b
  run_out zero b = refl
  run_out (suc n) b = refl

  more_fuel : (n m a b : ℕ) → a ≤ n → a ≤ m → digits z f n a b ≡ digits z f m a b
  more_fuel n m zero b p q = run_out n b ∙ sym (run_out m b)
  more_fuel zero m (suc a) b p q = absurd (omega arith)
  more_fuel (suc n) zero (suc a) b p q = absurd (omega arith)
  more_fuel (suc n) (suc m) (suc a) b p q =
      ap (λ (t : ℕ). t * 2 + f (suc a % 2) (b % 2))
        (more_fuel n m (suc a / 2) (b / 2) (omega arith) (omega arith))

  last_digit :
      (a b : ℕ) → digits z f a a b ≡ digits z f (a / 2) (a / 2) (b / 2) * 2 + f (a % 2) (b % 2)
  last_digit zero b = low b
  last_digit (suc a) b =
      ap (λ (t : ℕ). t * 2 + f (suc a % 2) (b % 2))
        (more_fuel a (suc a / 2) (suc a / 2) (b / 2) (omega arith) (omega arith))

and_digit : (a b : ℕ) → bit_and a b ≡ bit_and (a / 2) (b / 2) * 2 + min (a % 2) (b % 2)
and_digit a b =
    bit_and-bitwise a b
    ∙ last_digit (λ b. 0) min (λ b. omega arith) a b
    ∙ ap (λ (t : ℕ). t * 2 + min (a % 2) (b % 2)) (sym (bit_and-bitwise (a / 2) (b / 2)))

or_digit : (a b : ℕ) → bit_or a b ≡ bit_or (a / 2) (b / 2) * 2 + max (a % 2) (b % 2)
or_digit a b =
    bit_or-bitwise a b
    ∙ last_digit (λ b. b) max (λ b. omega arith) a b
    ∙ ap (λ (t : ℕ). t * 2 + max (a % 2) (b % 2)) (sym (bit_or-bitwise (a / 2) (b / 2)))

-- With nothing on the right: by halving, as often as the bound allows.
and_nothing : (n a : ℕ) → a ≤ n → bit_and a 0 ≡ 0
and_nothing n zero h = refl
and_nothing zero (suc a) h = absurd (omega arith)
and_nothing (suc n) (suc a) h =
    omega (arith, and_digit (suc a) 0, and_nothing n (suc a / 2) (omega arith))

or_nothing : (n a : ℕ) → a ≤ n → bit_or a 0 ≡ a
or_nothing n zero h = refl
or_nothing zero (suc a) h = absurd (omega arith)
or_nothing (suc n) (suc a) h =
    omega (arith, or_digit (suc a) 0, or_nothing n (suc a / 2) (omega arith))

double : (q k : ℕ) → q * 2 ^ suc k ≡ q * 2 ^ k * 2
double q k = omega (arith, ap (λ (t : ℕ). q * t) (pow-suc 2 k))

-- `(q << k) | r`, where `r` fits into `k` bits.
pub or_of_fields : (k q r : ℕ) → r < 2 ^ k → bit_or (q * 2 ^ k) r ≡ q * 2 ^ k + r
or_of_fields zero q r h =
    let none_left : r ≡ 0 = omega arith in
    rw none_left (or_nothing (q * 1) (q * 1) (omega arith) ∙ omega arith)
or_of_fields (suc k) q r h = omega (
  arith,
  or_digit (q * 2 ^ suc k) r,
  double q k,
  ap (λ (t : ℕ). bit_or t (r / 2)) (halved k q),
  or_of_fields k q (r / 2) (omega (arith, pow-suc 2 k)),
)
  where
    halved : (k q : ℕ) → q * 2 ^ suc k / 2 ≡ q * 2 ^ k
    halved k q = omega (arith, double q k)

-- `(q << k) + r`, masked with `k` ones.
and_of_fields : (k q r : ℕ) → r < 2 ^ k → bit_and (q * 2 ^ k + r) (2 ^ k - 1) ≡ r
and_of_fields zero q r h = omega (arith, and_nothing (q * 1 + r) (q * 1 + r) (omega arith))
and_of_fields (suc k) q r h = omega (
  arith,
  and_digit (q * 2 ^ suc k + r) (2 ^ suc k - 1),
  double q k,
  pow-suc 2 k,
  one-le-pow k 2,
  ap₂ bit_and (half_left k q r) (half_mask k),
  and_of_fields k q (r / 2) (omega (arith, pow-suc 2 k)),
)
  where
    half_left : (k q r : ℕ) → (q * 2 ^ suc k + r) / 2 ≡ q * 2 ^ k + r / 2
    half_left k q r = omega (arith, double q k)

    half_mask : (k : ℕ) → (2 ^ suc k - 1) / 2 ≡ 2 ^ k - 1
    half_mask k = omega (arith, pow-suc 2 k, one-le-pow k 2)

-- Masking with `k` ones is the remainder by `2 ^ k`.
pub mask-mod : (k a : ℕ) → bit_and a (2 ^ k - 1) ≡ a % 2 ^ k
mask-mod k a = ground (arith, one-le-pow k 2, and_of_fields k (a / 2 ^ k) (a % 2 ^ k))
