-- ===== src/Tracker/Average/Unordered.antt =====
-- timer.bpf.c: the average of samples whose time stamps CPUs took in another order than their places.
use native.Mathlib.Nat.{div-le_of_le-mul, mul_comm}
use phantom_tracker.Common.{
  ℕ, suc, ◌+◌, ◌-◌, ◌*◌, ◌^◌, ◌≤◌, ◌<◌, ◌≡◌, refl, arith, Bool-cases, inl, inr, ltb, leb, ◌⊎◌, u32,
  u64,
}
use phantom_tracker.Tracker.State.{Buffer}
use phantom_tracker.Tracker.Average.{
  AvgCtx, clamp_count, phantom_avg_cb, for_each_elem, fresh_ctx, average, phantom_average,
}
use phantom_tracker.Tracker.Average.Weighted.{for_each_elem-inv, stamp}

-- Samples up to index `n` within a span `w` of time from `lo` on, with counts of at most `hi`.
pub record Within (map : Buffer) (n lo w hi : ℕ) : Type 0 where
  pub indexed : map.max_entries < 2 ^ 32
  pub early : (k : ℕ) → k ≤ n → k < map.max_entries → lo ≤ stamp map k
  pub late : (k : ℕ) → k ≤ n → k < map.max_entries → stamp map k ≤ lo + w
  pub counts : (k : ℕ) → k < n → k < map.max_entries → clamp_count (map.elem k).count ≤ hi
  pub small : map.max_entries * w < 2 ^ 64
  pub small_sum : hi * (map.max_entries * w) < 2 ^ 64

-- What the contexts keep over the iteration.
record Bounded (n w hi k : ℕ) (ctx : AvgCtx) : Type 0 where
  samples : ctx.nb_samples ≡ n
  total : ctx.total_time ≤ k * w
  sum : ctx.sum ≤ hi * ctx.total_time

grown_total : (k w t d m : ℕ) → t ≤ k * w → d ≤ w → k < m → (t + d ≤ (k + 1) * w) × (t + d ≤ m * w)
grown_total k w t d m h g l = (grind arith, grind arith)

grown_sum : (hi s t c d : ℕ) → s ≤ hi * t → c ≤ hi → s + c * d ≤ hi * (t + d)
grown_sum hi s t c d h g = grind arith

scaled : (hi t m : ℕ) → t ≤ m → hi * t ≤ hi * m
scaled hi t m h = grind arith

weighed :
    (k w hi m s t c d : ℕ)
    → t ≤ k * w
    → s ≤ hi * t
    → d ≤ w
    → c ≤ hi
    → k < m
    → m * w < 2 ^ 64
    → hi * (m * w) < 2 ^ 64
    → (u64 (t + d) ≤ (k + 1) * w) × (u64 (s + u64 (c * d)) ≤ hi * u64 (t + d))
weighed k w hi m s t c d ht hs hd hc hk small small_sum =
    let (next, all) = grown_total k w t d m ht hd hk in
    let sum = grown_sum hi s t c d hs hc in
    let top = scaled hi (t + d) (m * w) all in
    let total : u64 (t + d) ≡ t + d = omega arith in
    let product : u64 (c * d) ≡ c * d = omega arith in
    let whole : u64 (s + c * d) ≡ s + c * d = omega arith in rw (total, product, whole) (next, sum)

longer : (k w t : ℕ) → t ≤ k * w → t ≤ (k + 1) * w
longer k w t h = grind arith

kept : (n w hi k : ℕ) (ctx : AvgCtx) → Bounded n w hi k ctx → Bounded n w hi (k + 1) ctx
kept n w hi k ctx b = record {
  samples = b.samples;
  total = longer k w ctx.total_time b.total;
  sum = b.sum;
}

module _ (map : Buffer) (n lo w hi : ℕ) (h : Within map n lo w hi) where
  abbrev gap : ℕ → ℕ
  gap k = stamp map (suc k) - stamp map k

  -- A sample counts where there is a next one that is not earlier.
  cb-cases :
      (k : ℕ) (ctx : AvgCtx)
      → k < map.max_entries
      → ctx.nb_samples ≡ n
      → (phantom_avg_cb map k (map.elem k) ctx ≡ ctx)
        ⊎ ((k < n)
            × (suc k < map.max_entries)
            × (phantom_avg_cb map k (map.elem k) ctx ≡ record ctx {
              sum = u64 (ctx.sum + u64 (clamp_count (map.elem k).count * gap k));
              total_time = u64 (ctx.total_time + gap k);
            }))
  unfolding phantom_avg_cb
  cb-cases k ctx l e =
      let next : u32 (k + 1) ≡ suc k = omega (arith, h.indexed) in
      elim (Bool-cases (leb n k)) [
        | inl done ↦ inl (ground (arith, e, done))
        | inr more ↦ elim (Bool-cases (ltb (suc k) map.max_entries)) [
          | inl room ↦ elim (Bool-cases (ltb (stamp map (suc k)) (stamp map k))) [
            | inl back ↦ inl (rw next (ground (arith, e, more, room, back)))
            | inr on ↦ inr (
              ground (arith, more),
              ground (arith, room),
              rw next (ground (arith, e, more, room, on)),
            )
          ]
          | inr full ↦ inl (rw next (ground (arith, e, more, full)))
        ]
      ]

  cb-Bounded :
      (k : ℕ) (ctx : AvgCtx)
      → k < map.max_entries
      → Bounded n w hi k ctx
      → Bounded n w hi (k + 1) (phantom_avg_cb map k (map.elem k) ctx)
  cb-Bounded k ctx l b = elim (cb-cases k ctx l b.samples) [
    | inl same ↦ rw same (kept n w hi k ctx b)
    | inr (more, room, weighs) ↦
        (let narrow : gap k ≤ w =
            omega (arith, h.early k (omega arith) l, h.late (suc k) (omega arith) room) in
          let (total, sum) =
            weighed k w hi map.max_entries ctx.sum ctx.total_time (clamp_count (map.elem k).count)
              (gap k) b.total b.sum narrow (h.counts k more l) l h.small h.small_sum in
          rw weighs (record { samples = b.samples; total = total; sum = sum }))
  ]

  all-Bounded :
      Bounded n w hi map.max_entries
        (for_each_elem phantom_avg_cb map map.max_entries 0 (fresh_ctx n))
  unfolding fresh_ctx
  all-Bounded =
      for_each_elem-inv phantom_avg_cb map (Bounded n w hi) cb-Bounded map.max_entries 0
        map.max_entries (fresh_ctx n) (omega arith) (omega arith)
        (record { samples = refl; total = omega arith; sum = omega arith })

  -- In whatever order the CPUs took the time stamps of the samples, full buffers included: the
  -- average does not exceed the greatest count, as long as the stamps lie within a span of time
  -- whose product with the entries of the buffer, and with that count, is below 2^64.
  pub phantom_average-unordered : phantom_average map n ≤ hi
  unfolding phantom_average average
  phantom_average-unordered =
      let b = all-Bounded in
      let ctx : AvgCtx = for_each_elem phantom_avg_cb map map.max_entries 0 (fresh_ctx n) in
      elim (Bool-cases (ltb 0 ctx.total_time)) [
        | inl some_time ↦
            rw some_time (div-le_of_le-mul ctx.total_time (rw (mul_comm ctx.total_time hi) b.sum))
        | inr no_time ↦ rw no_time (omega arith)
      ]
