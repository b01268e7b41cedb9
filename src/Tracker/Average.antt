-- ===== src/Tracker/Average.antt =====
-- pvsched-ebpf/host/ebpf/timer/timer.bpf.c: the time-weighted average of the samples of a buffer.
-- The 64-bit sum is kept as its bit pattern; it is signed in the source, and its division by the
-- unsigned total is unsigned.
pub mod Weighted
pub mod Range
pub mod Full
pub mod Unordered
use phantom_tracker.Common.{
  ℕ, zero, suc, ◌+◌, ◌-◌, ◌*◌, ◌/◌, ◌≡◌, Option, none, some, ℤ, pos, negsuc, if◌then◌else◌, ltb,
  leb, u32, u64,
}
use phantom_tracker.Tracker.State.{Sample, Buffer, lookup_elem}

-- struct phantom_avg_ctx; `avg` is the result of `phantom_average`.
pub record AvgCtx : Type 0 where
  pub sum : ℕ
  pub total_time : ℕ
  pub nb_samples : ℕ

-- `if (count < 0) count = 0`
abbrev pub clamp_count : ℤ → ℕ
clamp_count (pos n) = n
clamp_count (negsuc n) = 0

-- What the callback adds for a sample and the one after it, unless time ran backwards between
-- them.
weigh : AvgCtx → Sample → Sample → AvgCtx
weigh ctx current next =
    if ltb next.timestamp current.timestamp
    then ctx
    else (let duration = next.timestamp - current.timestamp in
        record ctx {
          sum = u64 (ctx.sum + u64 (clamp_count current.count * duration));
          total_time = u64 (ctx.total_time + duration);
        })

-- The callback's result is always 0, so the iteration goes on.
unfoldable pub phantom_avg_cb : Buffer → ℕ → Sample → AvgCtx → AvgCtx
unfolding weigh
phantom_avg_cb map k value ctx =
    if leb ctx.nb_samples k then ctx else elim (lookup_elem map (u32 (k + 1))) [
      | none ↦ ctx
      | some next_sample ↦ weigh ctx value next_sample
    ]

-- `bpf_for_each_map_elem` on an array: every index in order, with the entries left.
unfoldable pub for_each_elem :
    (Buffer → ℕ → Sample → AvgCtx → AvgCtx) → Buffer → ℕ → ℕ → AvgCtx → AvgCtx
for_each_elem callback map zero k ctx = ctx
for_each_elem callback map (suc left) k ctx =
    for_each_elem callback map left (k + 1) (callback map k (map.elem k) ctx)

unfoldable pub fresh_ctx : ℕ → AvgCtx
fresh_ctx nb_samples = record { sum = 0; total_time = 0; nb_samples = nb_samples }

unfoldable pub average : AvgCtx → ℕ
average ctx = if ltb 0 ctx.total_time then ctx.sum / ctx.total_time else 0

unfoldable pub phantom_average : Buffer → ℕ → ℕ
phantom_average map nb_samples =
    average (for_each_elem phantom_avg_cb map map.max_entries 0 (fresh_ctx nb_samples))
