-- ===== src/Tracker/Average/Full.antt =====
-- timer.bpf.c: the average of a buffer that is full, where an index past its end stands for its last one.
use phantom_tracker.Common.{ℕ, zero, suc, ◌+◌, ◌-◌, ◌^◌, ◌≤◌, ◌<◌, ◌≡◌, refl, arith, u32}
use phantom_tracker.Tracker.State.{Buffer}
use phantom_tracker.Tracker.Average.{
  AvgCtx, phantom_avg_cb, for_each_elem, fresh_ctx, average, phantom_average,
}

-- Two contexts that differ at most in the number of samples.
record SameSums (c d : AvgCtx) : Type 0 where
  sum : c.sum ≡ d.sum
  total : c.total_time ≡ d.total_time

module _ (map : Buffer) (n : ℕ) (some_room : 0 < map.max_entries)
    (indexed : map.max_entries < 2 ^ 32) (full : map.max_entries ≤ n + 1) where
  -- The last entry has no next one.
  cb-SameSums :
      (k : ℕ) (c d : AvgCtx)
      → k < map.max_entries
      → c.nb_samples ≡ n
      → d.nb_samples ≡ map.max_entries - 1
      → SameSums c d
      → SameSums (phantom_avg_cb map k (map.elem k) c) (phantom_avg_cb map k (map.elem k) d)
        × ((phantom_avg_cb map k (map.elem k) c).nb_samples ≡ n)
        × ((phantom_avg_cb map k (map.elem k) d).nb_samples ≡ map.max_entries - 1)
  unfolding phantom_avg_cb
  cb-SameSums k c d h ec ed s =
      let next : u32 (k + 1) ≡ k + 1 = omega arith in rw next (ground arith)

  loop-SameSums :
      (left k : ℕ) (c d : AvgCtx)
      → k + left ≡ map.max_entries
      → c.nb_samples ≡ n
      → d.nb_samples ≡ map.max_entries - 1
      → SameSums c d
      → SameSums
          (for_each_elem phantom_avg_cb map left k c)
          (for_each_elem phantom_avg_cb map left k d)
  unfolding for_each_elem
  loop-SameSums zero k c d e ec ed s = s
  loop-SameSums (suc left) k c d e ec ed s =
      let (s', ec', ed') = cb-SameSums k c d (omega arith) ec ed s in
      loop-SameSums left (k + 1) _ _ (omega arith) ec' ed' s'

  -- Past the end of the buffer the average is that of the samples that it holds.
  pub phantom_average-full : phantom_average map n ≡ phantom_average map (map.max_entries - 1)
  unfolding phantom_average average fresh_ctx
  phantom_average-full =
      let s =
        loop-SameSums map.max_entries 0 (fresh_ctx n) (fresh_ctx (map.max_entries - 1))
          (omega arith) refl refl (record { sum = refl; total = refl }) in
      rw (s.sum, s.total) refl
