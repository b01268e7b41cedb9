-- ===== src/Tests/Rounding.antt =====
-- A concrete rounding up to a power of two, which meets what is assumed of the kernel's.
use phantom_tracker.Common.{
  ℕ, zero, suc, ◌+◌, ◌^◌, ◌≤◌, ◌<◌, ◌≡◌, ◌≢◌, refl, leb, arith, ap, true, false, Bool-cases, inl,
  inr,
}
use native.Mathlib.Nat.{pow-suc, pow-le-pow_right}
use phantom_tracker.Shmem.Host.Register.Valid.{RoundsUp}

-- From 2 ^ k on, doubling as often as the fuel allows.
unfoldable pub round_from : ℕ → ℕ → ℕ → ℕ
round_from zero k n = 2 ^ k
round_from (suc fuel) k n = elim (leb n (2 ^ k)) [
  | true ↦ 2 ^ k
  | false ↦ round_from fuel (suc k) n
]

unfoldable pub round_up : ℕ → ℕ
round_up n = round_from n 0 n

leb_refl : (n : ℕ) → leb n n ≡ true
leb_refl n = ground arith

lt-two-pow : (n : ℕ) → n < 2 ^ n
lt-two-pow zero = omega arith
lt-two-pow (suc n) = omega (arith, pow-suc 2 n, lt-two-pow n)

round_from-ge : (fuel k j n : ℕ) → j ≡ k + fuel → n ≤ 2 ^ j → n ≤ round_from fuel k n
unfolding round_from
round_from-ge zero k j n e h = let same : j ≡ k = omega arith in rw same at h
round_from-ge (suc fuel) k j n e h = ground (arith, round_from-ge fuel (suc k) j n)

round_from-power : (fuel k n : ℕ) → (j : ℕ) × (round_from fuel k n ≡ 2 ^ j)
unfolding round_from
round_from-power zero k n = (k, refl)
round_from-power (suc fuel) k n = elim (Bool-cases (leb n (2 ^ k))) [
  | inl e ↦ (k, rw (e, round_from))
  | inr e ↦ rw (e, round_from) (round_from-power fuel (suc k) n)
]

round_from-exact : (fuel k m : ℕ) → k ≤ m → m ≤ k + fuel → round_from fuel k (2 ^ m) ≡ 2 ^ m
unfolding round_from
round_from-exact zero k m h g = let same : k ≡ m = omega arith in rw same
round_from-exact (suc fuel) k m h g = elim (Bool-cases (leb (2 ^ m) (2 ^ k))) [
  | inl e ↦
      (let below = pow-le-pow_right {n = 2} (omega arith) h in
        let same : 2 ^ k ≡ 2 ^ m = ground arith in rw (e, round_from) same)
  | inr e ↦
      (let strict : k ≢ m = λ q. cc (e, ap (λ j. leb (2 ^ j) (2 ^ k)) q, leb_refl (2 ^ k)) in
        rw (e, round_from) (round_from-exact fuel (suc k) m (omega arith) (omega arith)))
]

pub round_up-RoundsUp : RoundsUp round_up
unfolding round_up
round_up-RoundsUp = record {
  ge = λ n. round_from-ge n 0 n n (omega arith) (omega (arith, lt-two-pow n));
  power = λ n h. round_from-power n 0 n;
  exact = λ k. round_from-exact (2 ^ k) 0 k (omega arith) (omega (arith, lt-two-pow k));
}
