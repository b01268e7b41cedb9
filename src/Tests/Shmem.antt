-- ===== src/Tests/Shmem.antt =====
-- The shared memory of the host at concrete inputs.
use phantom_tracker.Common.{
  ℕ, ◌+◌, ◌*◌, ◌≤◌, ◌<◌, ◌≡◌, refl, true, false, some, arith, if◌then◌else◌, ◌==◌, ◌&&◌, ◌||◌,
}
use phantom_tracker.Abi.{Memory, Ret, ok, enomem, msg_size, zero_memory, load_header, is_ok}
use phantom_tracker.Shmem.Host.{
  Backend, Registry, empty_registry, set_device, g2h_slot, host_ivshmem_g2h_read, g2h_offset,
  bpf_host_ivshmem_h2g_write, h2g_slot,
}
use phantom_tracker.Shmem.Host.Slots.{h2g_write-frame}
use phantom_tracker.Shmem.Host.Register.{
  VmRegReq, Answers, zero_backend, host_register_vm, host_ivshmem_create_static_backend,
}
use phantom_tracker.Shmem.Host.Register.Valid.{Inv, Live, register-ok, register-err}
use phantom_tracker.Shmem.Host.Register.Room.{register_room}
use phantom_tracker.Shmem.Host.History.{loaded, later, register, Reach-Inv}
use phantom_tracker.Tests.Rounding.{round_up, round_up-RoundsUp}

abbrev pub all_well : Answers
all_well = record {
  copy_from_user = true;
  kzalloc = true;
  vmalloc_user = true;
  cdev_add = ok;
  device_create = ok;
  debugfs_root = true;
  debugfs_create_blob = true;
  copy_to_user = true;
}

abbrev pub four_cpus : VmRegReq
four_cpus = record { nb_cpu = 4; vm_id = 0; size = 0 }

abbrev pub first_vm : Ret × VmRegReq × Registry
first_vm = host_register_vm round_up all_well empty_registry four_cpus

register-ok_example :
    (b : Backend) × (first_vm.1 ≡ record four_cpus { vm_id = 0; size = b.size })
    × (first_vm.2 ≡ set_device (record empty_registry { next_vm_id = 1 }) 1 (some b))
    × (1 < 256)
    × Live 1 b
    × (g2h_offset + 4 * msg_size ≤ b.size)
unfolding host_register_vm host_ivshmem_create_static_backend
register-ok_example =
    register-ok round_up round_up-RoundsUp all_well empty_registry first_vm.2 four_cpus first_vm.1
      refl

-- The allocation of the backend fails, and the id is gone.
abbrev no_memory : Answers
no_memory = record all_well { kzalloc = false }

register-err_example :
    (four_cpus ≡ four_cpus) × (empty_registry.devices ≡ empty_registry.devices) × (◌≡◌ {A = ℕ} 1 1)
unfolding host_register_vm
register-err_example =
    register-err round_up round_up-RoundsUp no_memory empty_registry
      (record empty_registry { next_vm_id = 1 }) four_cpus four_cpus enomem refl

Reach-Inv_example : Inv first_vm.2
Reach-Inv_example =
    Reach-Inv round_up round_up-RoundsUp (later loaded (register all_well four_cpus))

register_room_example :
    (b : Backend) × (mem : Memory) × (first_vm.2.devices 1 ≡ some b)
    × (host_ivshmem_g2h_read (some b) 63 (some 0) ≡ (ok, some (mem (g2h_slot 63))))
    × (g2h_slot 63 + msg_size ≤ b.size)
unfolding host_register_vm host_ivshmem_create_static_backend
register_room_example =
    register_room round_up round_up-RoundsUp all_well empty_registry first_vm.2 four_cpus first_vm.1
      refl 63 0 (omega arith) (omega arith)

abbrev pub small_backend : Backend
small_backend = record zero_backend { mem = some zero_memory; size = 16384; minor = 1; cdev = true }

h2g_write-frame_example :
    let (ret, r') =
      bpf_host_ivshmem_h2g_write (set_device empty_registry 1 (some small_backend)) 5 (some 77) in
    (mem' : Memory) × (ret ≡ ok)
    × (r' ≡ record empty_registry { devices = r'.devices })
    × (r'.devices 1 ≡ some (record small_backend { mem = some mem' }))
    × (mem' (h2g_slot 0) ≡ (
        if is_ok ret && (h2g_slot 0 == h2g_slot 5 || h2g_slot 0 == h2g_slot 0)
        then 77
        else zero_memory (h2g_slot 0)))
    × (mem' (g2h_slot 3) ≡ 0)
    × (load_header mem' ≡ load_header zero_memory)
h2g_write-frame_example =
    h2g_write-frame (set_device empty_registry 1 (some small_backend)) small_backend zero_memory 5
      77 (h2g_slot 0) 1 3 refl refl
