-- ===== src/Tracker/Watermark/Fields.antt =====
-- timer.bpf.c: the fields of a watermark, and the order of the history slots.
use Prim.Native.Nat.{bit_or}
use phantom_tracker.Common.{
  ℕ, ◌+◌, ◌*◌, ◌/◌, ◌%◌, ◌^◌, ◌≤◌, ◌<◌, ◌≡◌, arith, if◌then◌else◌, ◌==◌, u64, or_of_fields,
  mask-mod,
}
use phantom_tracker.Tracker.State.{Vm}
use phantom_tracker.Tracker.Watermark.{next_history_slot, watermark}

-- Three fields that fit, put together.
join_fields :
    (a p i : ℕ)
    → a < 2 ^ 32
    → p < 2 ^ 16
    → i < 2 ^ 16
    → bit_or (bit_or (u64 (a * 2 ^ 32)) (u64 (p * 2 ^ 16))) i ≡ (a * 2 ^ 16 + p) * 2 ^ 16 + i
join_fields a p i ha hp hi =
    let high : u64 (a * 2 ^ 32) ≡ a * 2 ^ 32 = omega arith in
    let middle : u64 (p * 2 ^ 16) ≡ p * 2 ^ 16 = omega arith in
    let regroup : a * 2 ^ 32 + p * 2 ^ 16 ≡ (a * 2 ^ 16 + p) * 2 ^ 16 = omega arith in
    rw (high, middle, or_of_fields 32 a (p * 2 ^ 16) (omega arith), regroup)
      (or_of_fields 16 (a * 2 ^ 16 + p) i hi)

watermark-eq :
    (ts phantom_avg idle_avg : ℕ)
    → watermark ts phantom_avg idle_avg
      ≡ (ts % 2 ^ 32 * 2 ^ 16 + phantom_avg % 2 ^ 16) * 2 ^ 16 + idle_avg % 2 ^ 16
unfolding watermark
watermark-eq ts phantom_avg idle_avg =
    rw (mask-mod 32 ts, mask-mod 16 phantom_avg, mask-mod 16 idle_avg)
      (join_fields (ts % 2 ^ 32) (phantom_avg % 2 ^ 16) (idle_avg % 2 ^ 16) (omega arith)
        (omega arith) (omega arith))

-- A watermark fits 64 bits, and a reader finds in its upper 32 bits the low half of the time, in
-- the next 16 the low bits of the phantom average, and in the last 16 those of the idle average.
pub watermark-fields :
    (ts phantom_avg idle_avg : ℕ)
    → let w = watermark ts phantom_avg idle_avg in
      (w < 2 ^ 64)
      × (w / 2 ^ 32 ≡ ts % 2 ^ 32)
      × (w / 2 ^ 16 % 2 ^ 16 ≡ phantom_avg % 2 ^ 16)
      × (w % 2 ^ 16 ≡ idle_avg % 2 ^ 16)
watermark-fields ts phantom_avg idle_avg = rw (watermark-eq ts phantom_avg idle_avg) (omega arith)

-- The history slots are those from 1 to 63, and each is followed by the next one, the last by the
-- first, as long as the 32-bit cursor does not wrap.
pub next_history_slot-cycle :
    (vm : Vm)
    → vm.h2g_history_index + 1 < 2 ^ 32
    → let (slot, vm') = next_history_slot vm in
      (1 ≤ slot) × (slot ≤ 63) × ((next_history_slot vm').0 ≡ (if slot == 63 then 1 else slot + 1))
unfolding next_history_slot
next_history_slot-cycle vm h = ground arith
