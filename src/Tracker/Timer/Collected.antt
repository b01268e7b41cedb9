-- ===== src/Tracker/Timer/Collected.antt =====
-- timer.bpf.c and create_maps.bpf.c: what a collection buffer holds between two swaps.
use phantom_tracker.Common.{
  ℕ, suc, ◌+◌, ◌-◌, ◌*◌, ◌^◌, ◌≤◌, ◌<◌, ◌≡◌, arith, ltb, ltb→lt, Bool-cases, inl, inr,
}
use phantom_tracker.Tracker.State.{Sample, Buffer, update_elem}
use phantom_tracker.Tracker.Counter.Laws.{InRange}
use phantom_tracker.Tracker.Average.{clamp_count, phantom_average}
use phantom_tracker.Tracker.Average.Weighted.{stamp}
use phantom_tracker.Tracker.Average.Range.{phantom_average-below}
use phantom_tracker.Tracker.Average.Full.{phantom_average-full}

-- The samples below `idx` that found room are in order of time, none later than `now`, their counts
-- between zero and a ceiling.
pub record Collected (b : Buffer) (idx now ceil_val : ℕ) : Type 0 where
  pub some_room : 0 < b.max_entries
  pub indexed : b.max_entries < 2 ^ 32
  pub ascending : (k : ℕ) → suc k < idx → suc k < b.max_entries → stamp b k ≤ stamp b (suc k)
  pub past : (k : ℕ) → k < idx → k < b.max_entries → stamp b k ≤ now
  pub ranged : (k : ℕ) → k < idx → k < b.max_entries → InRange ceil_val (b.elem k).count

clamped : (b : Buffer) (k nb : ℕ) → InRange nb (b.elem k).count → clamp_count (b.elem k).count ≤ nb
clamped b k nb r = ground arith

scaled : (nb x y : ℕ) → x ≤ y → nb * y < 2 ^ 64 → nb * x < 2 ^ 64
scaled nb x y h l = grind arith

module _ (b : Buffer) (idx now ceil_val : ℕ) (s : Sample) (c : Collected b idx now ceil_val)
    (later : now ≤ s.timestamp) where
  -- A sample recorded at the next index, no earlier than the others. A full buffer refuses it.
  pub append-Collected :
      InRange ceil_val s.count → Collected (update_elem b idx s) (idx + 1) s.timestamp ceil_val
  append-Collected counted = record {
    some_room = ground (arith, c.some_room);
    indexed = ground (arith, c.indexed);
    ascending = λ k l r. ground (arith, c.ascending k, c.past k);
    past = λ k l r. ground (arith, c.past k);
    ranged = λ k l r. ground (arith, c.ranged k);
  }

  module _ (stamped : s.timestamp < 2 ^ 64) (small : ceil_val * s.timestamp < 2 ^ 64) where
    -- The closing sample finds room.
    closed-average : idx < b.max_entries → phantom_average (update_elem b idx s) idx ≤ ceil_val
    closed-average fits =
        let last : stamp (update_elem b idx s) idx ≡ s.timestamp = ground arith in
        phantom_average-below (update_elem b idx s) 0 ceil_val idx
          (record {
            fits = ground arith;
            indexed = ground (arith, c.indexed);
            ascending = λ k l. ground (arith, c.ascending k, c.past k);
            stamped = ground arith;
          })
          (λ k l.
            (omega arith, clamped (update_elem b idx s) k ceil_val (ground (arith, c.ranged k))))
          (rw last small)

    -- The buffer is full, so the closing sample is refused.
    full-average : b.max_entries ≤ idx → phantom_average b idx ≤ ceil_val
    full-average full =
        let last : stamp b (b.max_entries - 1) ≤ now =
          c.past (b.max_entries - 1) (omega (arith, c.some_room)) (omega (arith, c.some_room)) in
        rw (phantom_average-full b idx c.some_room c.indexed (omega arith)) (
          phantom_average-below b 0 ceil_val (b.max_entries - 1)
            (record {
              fits = omega (arith, c.some_room);
              indexed = omega (arith, c.indexed);
              ascending = λ k l. c.ascending k (omega arith) (omega arith);
              stamped = omega arith;
            })
            (λ k l. (omega arith, clamped b k ceil_val (c.ranged k (omega arith) (omega arith))))
            (scaled ceil_val _ s.timestamp (omega arith) small))

    -- The average of the buffer that ends does not exceed the ceiling of its counts.
    pub ended-average : phantom_average (update_elem b idx s) idx ≤ ceil_val
    ended-average = elim (Bool-cases (ltb idx b.max_entries)) [
      | inl fits ↦ closed-average (ltb→lt _ _ fits)
      | inr full ↦ rw full (full-average (ground arith))
    ]

-- The opening sample of a buffer.
pub open-Collected :
    (b : Buffer) (ceil_val : ℕ) (s : Sample)
    → 0 < b.max_entries
    → b.max_entries < 2 ^ 32
    → InRange ceil_val s.count
    → Collected (update_elem b 0 s) 1 s.timestamp ceil_val
open-Collected b ceil_val s some_room indexed counted = record {
  some_room = ground arith;
  indexed = ground arith;
  ascending = λ k l r. absurd (omega arith);
  past = λ k l r. ground arith;
  ranged = λ k l r. ground arith;
}
