-- ===== src/Tracker/Average/Weighted.antt =====
-- timer.bpf.c: the average against the area under the counts and the time that they span.
use Prim.Native.Nat.{min}
use phantom_tracker.Common.{
  ℕ, zero, suc, ◌+◌, ◌-◌, ◌*◌, ◌/◌, ◌^◌, ◌≤◌, ◌<◌, ◌≡◌, refl, arith, if◌then◌else◌, ltb, u32, u64,
  dec_lt,
}
use phantom_tracker.Tracker.State.{Sample, Buffer}
use phantom_tracker.Tracker.Average.{
  AvgCtx, clamp_count, phantom_avg_cb, for_each_elem, fresh_ctx, average, phantom_average,
}

-- An invariant of the iteration.
pub for_each_elem-inv {ℓ} :
    (callback : Buffer → ℕ → Sample → AvgCtx → AvgCtx) (map : Buffer) (P : ℕ → AvgCtx → Type ℓ)
    → ((k : ℕ) (ctx : AvgCtx)
        → k < map.max_entries
        → P k ctx
        → P (k + 1) (callback map k (map.elem k) ctx))
    → (left k end : ℕ) (ctx : AvgCtx) → k + left ≡ end
    → end ≤ map.max_entries
    → P k ctx
    → P end (for_each_elem callback map left k ctx)
unfolding for_each_elem
for_each_elem-inv callback map P step zero k end ctx e le h =
    let here : k ≡ end = omega arith in rw (← here) h
for_each_elem-inv callback map P step (suc left) k end ctx e le h =
    for_each_elem-inv callback map P step left (k + 1) end (callback map k (map.elem k) ctx)
      (omega arith) le (step k ctx (omega arith) h)

-- The time from the sample at 0 to the sample at `k`, and the area below the counts up to there.
abbrev pub stamp : Buffer → ℕ → ℕ
stamp map k = (map.elem k).timestamp

abbrev pub area : Buffer → ℕ → ℕ
area map zero = 0
area map (suc k) = area map k + clamp_count (map.elem k).count * (stamp map (suc k) - stamp map k)

-- `n + 1` samples in the buffer, in order of time, with 64-bit time stamps.
pub record Ordered (map : Buffer) (n : ℕ) : Type 0 where
  pub fits : n < map.max_entries
  pub indexed : map.max_entries ≤ 2 ^ 32
  pub ascending : (k : ℕ) → k < n → stamp map k ≤ stamp map (suc k)
  pub stamped : stamp map n < 2 ^ 64

record Summed (map : Buffer) (n k : ℕ) (ctx : AvgCtx) : Type 0 where
  samples : ctx.nb_samples ≡ n
  sum : ctx.sum ≡ u64 (area map (min k n))
  total : stamp map 0 + ctx.total_time ≡ stamp map (min k n)
  first : stamp map 0 ≤ stamp map (min k n)
  later : stamp map (min k n) ≤ stamp map n

module _ (map : Buffer) (n : ℕ) (ordered : Ordered map n) where
  stamp_le : (k j : ℕ) → k + j ≡ n → stamp map k ≤ stamp map n
  stamp_le k zero e = let same : k ≡ n = omega arith in rw same (omega arith)
  stamp_le k (suc j) e =
      omega (arith, ordered.ascending k (omega arith), stamp_le (suc k) j (omega arith))

  cb-done :
      (k : ℕ) (ctx : AvgCtx)
      → ctx.nb_samples ≡ n
      → n ≤ k
      → phantom_avg_cb map k (map.elem k) ctx ≡ ctx
  unfolding phantom_avg_cb
  cb-done k ctx e h = ground arith

  cb-active :
      (k : ℕ) (ctx : AvgCtx)
      → ctx.nb_samples ≡ n
      → k < n
      → phantom_avg_cb map k (map.elem k) ctx ≡ (
          let duration = stamp map (suc k) - stamp map k in
          record ctx {
            sum = u64 (ctx.sum + u64 (clamp_count (map.elem k).count * duration));
            total_time = u64 (ctx.total_time + duration);
          })
  unfolding phantom_avg_cb
  cb-active k ctx e h =
      let next : u32 (k + 1) ≡ suc k = omega (arith, ordered.fits, ordered.indexed) in
      rw next (ground (arith, ordered.fits, ordered.ascending k h))

  Summed-cb :
      (k : ℕ) (ctx : AvgCtx)
      → Summed map n k ctx
      → Summed map n (k + 1) (phantom_avg_cb map k (map.elem k) ctx)
  Summed-cb k ctx s = elim (dec_lt k n) [
    | yes more ↦
        (let now : min k n ≡ k = omega arith in
          let next : min (k + 1) n ≡ suc k = omega arith in
          let last = stamp_le (suc k) (n - suc k) (omega arith) in
          rw (cb-active k ctx s.samples more) (record {
            samples = s.samples;
            sum = rw next (omega (arith, rw now at s.sum));
            total = rw next (
                omega (
                  arith,
                  rw now at s.total,
                  rw now at s.first,
                  ordered.ascending k more,
                  ordered.stamped,
                  last,
                ));
            first = rw next (omega (arith, rw now at s.first, ordered.ascending k more));
            later = rw next last;
          }))
    | no done ↦
        (let now : min k n ≡ n = omega arith in
          let next : min (k + 1) n ≡ min k n = omega arith in
          rw (cb-done k ctx s.samples (omega arith)) (record {
            samples = s.samples;
            sum = rw next s.sum;
            total = rw next s.total;
            first = rw next s.first;
            later = rw next s.later;
          }))
  ]

  Summed-all :
      Summed map n map.max_entries
        (for_each_elem phantom_avg_cb map map.max_entries 0 (fresh_ctx n))
  unfolding fresh_ctx
  Summed-all =
      for_each_elem-inv phantom_avg_cb map (Summed map n) (λ k ctx _ s. Summed-cb k ctx s)
        map.max_entries 0 map.max_entries (fresh_ctx n) (omega arith) (omega arith)
        (let none_yet : min 0 n ≡ 0 = omega arith in
          record {
            samples = refl;
            sum = rw none_yet refl;
            total = rw none_yet (omega arith);
            first = rw none_yet (omega arith);
            later = rw none_yet (stamp_le 0 n (omega arith));
          })

  -- The average of samples in order of time that fit in the buffer is the area below their counts,
  -- a negative one being taken as zero, divided by the time from the first to the last; it is zero
  -- if no time passed. Time stamps and the area are below 2^64.
  pub phantom_average-eq :
      area map n < 2 ^ 64
      → phantom_average map n
        ≡ (if ltb (stamp map 0) (stamp map n) then area map n / (stamp map n - stamp map 0) else 0)
  unfolding phantom_average average
  phantom_average-eq small =
      let s = Summed-all in
      let all : min map.max_entries n ≡ n = omega (arith, ordered.fits) in
      let sum : (for_each_elem phantom_avg_cb map map.max_entries 0 (fresh_ctx n)).sum
          ≡ area map n =
        omega (arith, rw all at s.sum) in
      let total : (for_each_elem phantom_avg_cb map map.max_entries 0 (fresh_ctx n)).total_time
          ≡ stamp map n - stamp map 0 =
        omega (arith, rw all at s.total) in
      rw (sum, total) (ground arith)
