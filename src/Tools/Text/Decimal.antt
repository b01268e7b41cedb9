-- ===== src/Tools/Text/Decimal.antt =====
-- pvsched-ebpf/host/user/register_vm.c: reading the decimal numbers that QEMU prints.
use phantom_tracker.Common.{
  inl, inr, Bool-cases, Option-cases, Option-cases, ℕ, zero, suc, ◌+◌, ◌*◌, ◌/◌, ◌%◌, ◌^◌, ◌<◌, ◌≡◌,
  refl, ap, ◌∙◌, sym, arith, Bool, true, not, some, [], ◌∷◌, ◌++◌, ltb, if◌then◌else◌,
}
use phantom_tracker.Tools.Text.{
  Bytes, atoi, or_default, negative_int_of, is_digit, is_space, read_digits, unsigned_number,
  skip_space, int_of, signed_number, scan_int,
}

-- The digits of a number of at most `k + 1` digits, in front of `s`.
unfoldable pub print_before : ℕ → ℕ → Bytes → Bytes
print_before zero n s = (b'0' + n) ∷ s
print_before (suc k) n s =
    let more = print_before k (n / 10) ((b'0' + n % 10) ∷ s) in
    if ltb n 10 then (b'0' + n) ∷ s else more

-- The decimal print of a number below 10 ^ 20, in front of `s`.
unfoldable pub decimal_before : ℕ → Bytes → Bytes
decimal_before n s = print_before 19 n s

-- What stands behind a number.
abbrev pub no_digit_first : Bytes → Bool
no_digit_first [] = true
no_digit_first (c ∷ s) = not (is_digit c)

ten_to : ℕ → ℕ
ten_to zero = 10
ten_to (suc k) = 10 * ten_to k

-- Reading a print from the left gives the number, and goes on behind it.
read_digits-print_before :
    (k n : ℕ) (s : Bytes) → n < ten_to k → read_digits (print_before k n s) 0 ≡ read_digits s n
unfolding print_before read_digits is_digit ten_to
read_digits-print_before zero n s h = ground arith
read_digits-print_before (suc k) n s h =
    ground (arith, read_digits-print_before k (n / 10) ((b'0' + n % 10) ∷ s) (omega arith))

read_digits_stop : (s : Bytes) (n : ℕ) → no_digit_first s ≡ true → read_digits s n ≡ n
unfolding read_digits
read_digits_stop [] n h = refl
read_digits_stop (c ∷ s) n h = ground arith

-- A print begins with a digit.
print_before-digit :
    (k n : ℕ) (s : Bytes)
    → n < ten_to k
    → (c : ℕ) × (rest : Bytes) × (print_before k n s ≡ c ∷ rest) × (is_digit c ≡ true)
unfolding print_before is_digit ten_to
print_before-digit zero n s h = (b'0' + n, s, refl, ground arith)
print_before-digit (suc k) n s h = elim (Bool-cases (ltb n 10)) [
  | inl small ↦ (b'0' + n, s, ground arith, ground arith)
  | inr big ↦
      (let (c, rest, e, d) = print_before-digit k (n / 10) ((b'0' + n % 10) ∷ s) (omega arith) in
        (c, rest, ground arith, d))
]

scan_int-digit :
    (c : ℕ) (rest : Bytes)
    → is_digit c ≡ true
    → scan_int (c ∷ rest) ≡ some (int_of (read_digits (c ∷ rest) 0))
unfolding scan_int signed_number skip_space is_space is_digit unsigned_number
scan_int-digit c rest h = ground arith

-- A number below 2 ^ 31 is read back from its print, whatever stands behind it but a digit.
pub scan_int-decimal_before :
    (n : ℕ) (s : Bytes)
    → n < 2 ^ 31
    → no_digit_first s ≡ true
    → scan_int (decimal_before n s) ≡ some n
unfolding decimal_before ten_to int_of
scan_int-decimal_before n s h stop =
    let (c, rest, e, d) = print_before-digit 19 n s (omega arith) in
    ap scan_int e
    ∙ scan_int-digit c rest d
    ∙ ap (λ (l : Bytes). some (int_of (read_digits l 0))) (sym e)
    ∙ ap (λ (m : ℕ). some (int_of m))
        (read_digits-print_before 19 n s (omega arith) ∙ read_digits_stop s n stop)
    ∙ ground arith

print_before-append : (k n : ℕ) (s r : Bytes) → print_before k n s ++ r ≡ print_before k n (s ++ r)
unfolding print_before
print_before-append zero n s r = refl
print_before-append (suc k) n s r =
    ground (arith, print_before-append k (n / 10) ((b'0' + n % 10) ∷ s) r)

pub decimal_before-append :
    (n : ℕ) (s r : Bytes) → decimal_before n s ++ r ≡ decimal_before n (s ++ r)
unfolding decimal_before
decimal_before-append n s r = print_before-append 19 n s r

signed_number-lt : (s : Bytes) (n : ℕ) → signed_number s ≡ some n → n < 2 ^ 32
unfolding signed_number int_of negative_int_of
signed_number-lt [] n h = absurd (cc)
signed_number-lt (c ∷ s) n h = elim (Option-cases (unsigned_number s)) [
  | inl e ↦ elim (Option-cases (unsigned_number (c ∷ s))) [
    | inl e' ↦ ground (arith, e, e')
    | inr (m, e') ↦ ground (arith, e, e')
  ]
  | inr (l, e) ↦ elim (Option-cases (unsigned_number (c ∷ s))) [
    | inl e' ↦ ground (arith, e, e')
    | inr (m, e') ↦ ground (arith, e, e')
  ]
]

pub atoi-lt : (s : Bytes) → atoi s < 2 ^ 32
unfolding atoi scan_int or_default
atoi-lt s = elim (Option-cases (signed_number (skip_space s))) [
  | inl e ↦ rw e (omega arith)
  | inr (n, e) ↦ rw e (signed_number-lt (skip_space s) n e)
]
