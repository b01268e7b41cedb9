-- ===== src/Tracker/Watermark.antt =====
-- pvsched-ebpf/host/ebpf/timer/timer.bpf.c: the history slots and the watermark that is published.
pub mod Fields
use Prim.Native.Nat.{bit_and, bit_or}
use phantom_tracker.Common.{ℕ, ◌+◌, ◌-◌, ◌*◌, ◌%◌, ◌^◌, some, u32, u64}
use phantom_tracker.Abi.{Ret, nr_host_ivshmem_msgs, h2g_first_history_slot}
use phantom_tracker.Shmem.Host.{Registry, bpf_host_ivshmem_h2g_write}
use phantom_tracker.Tracker.State.{Vm}

abbrev pub h2g_history_slot_count : ℕ
h2g_history_slot_count = nr_host_ivshmem_msgs - h2g_first_history_slot

-- The slot, and the VM with its cursor advanced.
unfoldable pub next_history_slot : Vm → ℕ × Vm
next_history_slot vm = (
  h2g_first_history_slot + vm.h2g_history_index % h2g_history_slot_count,
  record vm { h2g_history_index = u32 (vm.h2g_history_index + 1) },
)

-- The message: the 64-bit patterns of the time, the average (signed in the source) and the idle
-- average, masked and shifted into place.
unfoldable pub watermark : ℕ → ℕ → ℕ → ℕ
watermark ts phantom_avg idle_avg =
    bit_or
      (bit_or (u64 (bit_and ts 0xffffffff * 2 ^ 32)) (u64 (bit_and phantom_avg 0xffff * 2 ^ 16)))
      (bit_and idle_avg 0xffff)

unfoldable pub write_watermark : Registry → ℕ → ℕ → ℕ → ℕ → Registry
write_watermark r index ts phantom_avg idle_avg =
    (bpf_host_ivshmem_h2g_write r index (some (watermark ts phantom_avg idle_avg))).1
