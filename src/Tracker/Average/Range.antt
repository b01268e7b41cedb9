-- ===== src/Tracker/Average/Range.antt =====
-- timer.bpf.c: the average against the least and the greatest count of its samples.
use native.Mathlib.Nat.{le-div_iff_mul-le, div-le_of_le-mul, mul_comm}
use phantom_tracker.Common.{
  Bool-cases, inl, inr, ltb, ltb→lt, lt→ltb, ℕ, zero, suc, ◌+◌, ◌-◌, ◌*◌, ◌/◌, ◌^◌, ◌≤◌, ◌<◌, ◌≡◌,
  arith,
}
use phantom_tracker.Tracker.State.{Buffer}
use phantom_tracker.Tracker.Average.{clamp_count, phantom_average}
use phantom_tracker.Tracker.Average.Weighted.{Ordered, stamp, area, phantom_average-eq}

extend_below : (lo d a c x : ℕ) → lo * d ≤ a → lo ≤ c → lo * (d + x) ≤ a + c * x
extend_below lo d a c x h l = grind arith

extend_above : (hi d a c x : ℕ) → a ≤ hi * d → c ≤ hi → a + c * x ≤ hi * (d + x)
extend_above hi d a c x h l = grind arith

bounded_area : (hi d t a : ℕ) → d ≤ t → a ≤ hi * d → hi * t < 2 ^ 64 → a < 2 ^ 64
bounded_area hi d t a h g l = grind arith

quotient_range : (lo hi a d : ℕ) → 0 < d → lo * d ≤ a → a ≤ hi * d → (lo ≤ a / d) × (a / d ≤ hi)
quotient_range lo hi a d p h g =
    ((le-div_iff_mul-le p).1 h, div-le_of_le-mul d (rw (mul_comm d hi) g))

module _ (map : Buffer) (lo hi : ℕ) where
  -- The counts of the first `n` samples lie in the range.
  abbrev pub CountsIn : ℕ → Type 0
  CountsIn n =
      (k : ℕ)
      → k < n
      → (lo ≤ clamp_count (map.elem k).count) × (clamp_count (map.elem k).count ≤ hi)

  area-range :
      (n : ℕ)
      → ((k : ℕ) → k < n → stamp map k ≤ stamp map (suc k))
      → CountsIn n
      → (d : ℕ) × (stamp map 0 + d ≡ stamp map n) × (lo * d ≤ area map n) × (area map n ≤ hi * d)
  area-range zero asc h = (0, omega arith, omega arith, omega arith)
  area-range (suc k) asc h =
      let (d, first, below, above) =
        area-range k (λ j l. asc j (omega arith)) (λ j l. h j (omega arith)) in
      let up = asc k (omega arith) in
      let (low, high) = h k (omega arith) in
      let x = stamp map (suc k) - stamp map k in
      (d + x, omega arith, extend_below lo d _ _ x below low, extend_above hi d _ _ x above high)

  area_fits : (n : ℕ) → Ordered map n → CountsIn n → hi * stamp map n < 2 ^ 64 → area map n < 2 ^ 64
  area_fits n ordered h small =
      let (d, span, below, above) = area-range n ordered.ascending h in
      bounded_area hi d (stamp map n) _ (omega arith) above small

  -- If the counts of samples in order of time lie between two bounds and some time passed, so does
  -- the average: it never exceeds the upper bound, nor falls below the lower one. The upper bound
  -- times the last time stamp is below 2^64.
  pub phantom_average-range :
      (n : ℕ)
      → Ordered map n
      → CountsIn n
      → stamp map 0 < stamp map n
      → hi * stamp map n < 2 ^ 64
      → (lo ≤ phantom_average map n) × (phantom_average map n ≤ hi)
  phantom_average-range n ordered h passed small =
      let (d, span, below, above) = area-range n ordered.ascending h in
      let gap : d ≡ stamp map n - stamp map 0 = omega arith in
      rw (phantom_average-eq map n ordered (area_fits n ordered h small), lt→ltb _ _ passed, ← gap)
        (quotient_range lo hi (area map n) d (omega arith) below above)

  -- The upper bound holds where no time passed, too.
  pub phantom_average-below :
      (n : ℕ) → Ordered map n → CountsIn n → hi * stamp map n < 2 ^ 64 → phantom_average map n ≤ hi
  phantom_average-below n ordered h small = elim (Bool-cases (ltb (stamp map 0) (stamp map n))) [
    | inl e ↦ (phantom_average-range n ordered h (ltb→lt _ _ e) small).1
    | inr e ↦ rw (phantom_average-eq map n ordered (area_fits n ordered h small), e) (omega arith)
  ]
