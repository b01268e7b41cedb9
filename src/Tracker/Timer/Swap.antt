-- ===== src/Tracker/Timer/Swap.antt =====
-- timer.bpf.c: the swap of a VM's two buffers, and the average that it takes.
use phantom_tracker.Common.{
  ℕ, ◌-◌, ◌*◌, ◌^◌, ◌≤◌, ◌<◌, ◌≡◌, refl, arith, if◌then◌else◌, ◌==◌, true, Bool-cases, inl, inr,
}
use phantom_tracker.Tracker.State.{Vm, Buffer}
use phantom_tracker.Tracker.Counter.Laws.{InRange}
use phantom_tracker.Tracker.Timer.{Readings, sample_of, swap_to_1, swap_to_2, swap_buffers}
use phantom_tracker.Tracker.Timer.Collected.{Collected, open-Collected, ended-average}

-- The buffer that `phantom_switch_handler` writes to, and the index that it writes next.
abbrev pub active : Vm → Buffer → Buffer → Buffer
active vm buff_1 buff_2 = if vm.is_collectx_in_buff_1 == 1 then buff_1 else buff_2

abbrev pub active_index : Vm → ℕ
active_index vm =
    if vm.is_collectx_in_buff_1 == 1 then vm.collection_buff_1_index else vm.collection_buff_2_index

-- A VM that has collected samples since the last swap.
pub record Ready (k : Readings) (vm : Vm) (active idle : Buffer) (idx now ceil_val : ℕ)
    : Type 0 where
  pub collected : Collected active idx now ceil_val
  pub idle_entries : (0 < idle.max_entries) × (idle.max_entries < 2 ^ 32)
  pub counted : InRange ceil_val vm.phantom_count
  pub later : now ≤ k.end_time
  pub small : ceil_val * k.end_time < 2 ^ 64
  pub stamped : k.end_time < 2 ^ 64

-- For a VM whose flag is 0 or 1, and whose active buffer holds samples in order of time with counts
-- from zero to a ceiling, full or not, a swap flips the flag; the buffer that is then written to
-- holds one sample, the opening one, and is written next at 1; and the average of the other buffer
-- does not exceed the ceiling. Times are below 2^64, and so is the ceiling times the end of the
-- span.
pub swap_buffers-average :
    (k : Readings) (vm : Vm) (buff_1 buff_2 : Buffer) (now ceil_val : ℕ)
    → vm.is_collectx_in_buff_1 ≤ 1
    → Ready k vm
        (active vm buff_1 buff_2)
        (if vm.is_collectx_in_buff_1 == 1 then buff_2 else buff_1)
        (active_index vm)
        now
        ceil_val
    → let s = swap_buffers k vm buff_1 buff_2 in
      (s.vm.is_collectx_in_buff_1 ≡ 1 - vm.is_collectx_in_buff_1)
      × (active_index s.vm ≡ 1)
      × Collected (active s.vm s.buff_1 s.buff_2) 1 k.start_time ceil_val
      × (s.avg ≤ ceil_val)
unfolding swap_buffers swap_to_1 swap_to_2
swap_buffers-average k vm buff_1 buff_2 now ceil_val flag r =
    elim (Bool-cases (vm.is_collectx_in_buff_1 == 1)) [
      | inl one ↦
          (let q : Ready k vm buff_1 buff_2 vm.collection_buff_1_index now ceil_val = rw one at r in
            let is_one : vm.is_collectx_in_buff_1 ≡ 1 = ground arith in
            rw one (
              omega (arith, is_one),
              refl,
              open-Collected buff_2 ceil_val (sample_of vm k.start_time) q.idle_entries.0
                  q.idle_entries.1 q.counted,
              ended-average buff_1 vm.collection_buff_1_index now ceil_val (sample_of vm k.end_time)
                  q.collected q.later q.stamped q.small,
            ))
      | inr two ↦
          (let q : Ready k vm buff_2 buff_1 vm.collection_buff_2_index now ceil_val = rw two at r in
            let is_zero : vm.is_collectx_in_buff_1 ≡ 0 = ground arith in
            let zero_too : (vm.is_collectx_in_buff_1 == 0) ≡ true = ground arith in
            rw (two, zero_too)
              (
                omega (arith, is_zero),
                refl,
                open-Collected buff_1 ceil_val (sample_of vm k.start_time) q.idle_entries.0
                    q.idle_entries.1 q.counted,
                ended-average buff_2 vm.collection_buff_2_index now ceil_val
                    (sample_of vm k.end_time) q.collected q.later q.stamped q.small,
              ))
    ]
