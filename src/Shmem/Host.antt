-- ===== src/Shmem/Host.antt =====
-- pvsched-shmem/host/host_ivshmem.c: the per-VM memory regions and the two functions that eBPF
-- programs call. Registration is in Register.
pub mod Register
pub mod Slots
pub mod History
pub mod Files
use phantom_tracker.Common.{
  ℕ, ◌+◌, ◌-◌, ◌*◌, ◌≡◌, Bool, true, false, ◌||◌, ◌&&◌, Option, none, some, if◌then◌else◌, ltb, leb,
  ◌==◌,
}
use phantom_tracker.Abi.{
  page_size, msg_size, nr_host_ivshmem_msgs, nr_guest_ivshmem_msgs, h2g_latest_slot, max_nb_devices,
  Memory, store, Ret, ok, err, enodev, einval,
}

abbrev pub h2g_offset : ℕ
h2g_offset = page_size

abbrev pub g2h_offset : ℕ
g2h_offset = page_size + page_size

-- struct host_ivshmem_backend. A pointer is an option or, where only NULL matters, a Boolean;
-- `cdev` says whether the character device is added.
pub record Backend : Type 0 where
  pub cdev : Bool
  pub dev : Bool
  pub debugfs_dentry : Bool
  pub blob_data : Bool
  pub blob_size : ℕ
  pub mem : Option Memory
  pub size : ℕ
  pub minor : ℕ

-- struct host_registry
pub record Registry : Type 0 where
  pub cdev : Bool
  pub dev : Bool
  pub next_vm_id : ℕ
  pub devices : ℕ → Option Backend

-- The registry of a freshly loaded module, with its control device.
abbrev pub empty_registry : Registry
empty_registry = record { cdev = true; dev = true; next_vm_id = 0; devices = λ i. none }

-- The byte offset of a slot's message in each direction.
abbrev pub h2g_slot : ℕ → ℕ
h2g_slot index = h2g_offset + index * msg_size

abbrev pub g2h_slot : ℕ → ℕ
g2h_slot index = g2h_offset + index * msg_size

h2g_write_mem : Backend → Option Memory → ℕ → Option ℕ → Ret × Option Backend
h2g_write_mem b none index hg_msg = (err enodev, some b)
h2g_write_mem b (some mem) index none = (err einval, some b)
h2g_write_mem b (some mem) index (some msg) =
    if index == h2g_latest_slot || leb nr_host_ivshmem_msgs index then (err einval, some b) else (
      ok,
      some (record b {
        mem = some (store (store mem (h2g_slot index) msg) (h2g_slot h2g_latest_slot) msg);
      }),
    )

-- `none` is a NULL pointer, of the backend as of the message.
unfoldable pub host_ivshmem_h2g_write_msg : Option Backend → ℕ → Option ℕ → Ret × Option Backend
unfolding h2g_write_mem
host_ivshmem_h2g_write_msg none index hg_msg = (err enodev, none)
host_ivshmem_h2g_write_msg (some b) index hg_msg = h2g_write_mem b b.mem index hg_msg

g2h_read_mem : Option Memory → ℕ → Option ℕ → Ret × Option ℕ
g2h_read_mem none index msg = (err enodev, msg)
g2h_read_mem (some mem) index msg =
    if leb nr_guest_ivshmem_msgs index
    then (err einval, msg)
    else elim msg [ none ↦ (err einval, none) | some old ↦ (ok, some (mem (g2h_slot index))) ]

-- The caller's buffer comes back beside the result: an error leaves it as it was.
unfoldable pub host_ivshmem_g2h_read : Option Backend → ℕ → Option ℕ → Ret × Option ℕ
unfolding g2h_read_mem
host_ivshmem_g2h_read none index msg = (err enodev, msg)
host_ivshmem_g2h_read (some b) index msg = g2h_read_mem b.mem index msg

abbrev pub set_device : Registry → ℕ → Option Backend → Registry
set_device r i b = record r { devices = λ j. if j == i then b else r.devices j }

unfoldable pub bpf_host_ivshmem_h2g_write : Registry → ℕ → Option ℕ → Ret × Registry
unfolding host_ivshmem_h2g_write_msg
bpf_host_ivshmem_h2g_write r index hg_msg =
    let (ret, b) = host_ivshmem_h2g_write_msg (r.devices 1) index hg_msg in (ret, set_device r 1 b)

unfoldable pub bpf_host_ivshmem_g2h_read : Registry → ℕ → Option ℕ → Ret × Option ℕ
unfolding host_ivshmem_g2h_read
bpf_host_ivshmem_g2h_read r index msg = host_ivshmem_g2h_read (r.devices 1) index msg
