-- ===== src/Shmem/Host/Register.antt =====
-- pvsched-shmem/host/host_ivshmem.c: registration of a VM through the ioctl of /dev/host_registry,
-- creation and destruction of its backend.
pub mod Valid
pub mod Room
pub mod Destroyed
pub mod Load
use phantom_tracker.Common.{
  ℕ, zero, suc, ◌+◌, ◌-◌, ◌*◌, ◌/◌, ◌^◌, Bool, true, false, not, Option, none, some, if◌then◌else◌,
  leb, ◌==◌, u64, List, [], ◌∷◌,
}
use phantom_tracker.Abi.{
  page_size, msg_size, h2g_latest_slot, max_nb_devices, host_nb_metadata_pages, pvsched_magic,
  pvsched_version, Memory, store, zero_memory, Header, Ret, ok, err, enospc, enomem, efault,
  eopnotsupp,
}
use phantom_tracker.Abi.Field
use phantom_tracker.Shmem.Host.{Backend, Registry, h2g_offset, g2h_offset, set_device}

-- struct vm_reg_req, less `backend_name`, which nothing reads.
pub record VmRegReq : Type 0 where
  pub nb_cpu : ℕ
  pub vm_id : ℕ
  pub size : ℕ

-- What the kernel answers to the calls of one registration.
pub record Answers : Type 0 where
  pub copy_from_user : Bool
  pub kzalloc : Bool
  pub vmalloc_user : Bool
  pub cdev_add : Ret
  pub device_create : Ret
  pub debugfs_root : Bool
  pub debugfs_create_blob : Bool
  pub copy_to_user : Bool

abbrev pub zero_backend : Backend
zero_backend = record {
  cdev = false;
  dev = false;
  debugfs_dentry = false;
  blob_data = false;
  blob_size = 0;
  mem = none;
  size = 0;
  minor = 0;
}

unfoldable pub store_header : Memory → Header → Memory
store_header mem hdr =
    store
      (store
        (store
          (store
            (store (store (store mem Field.magic hdr.magic) Field.version hdr.version)
              Field.latest_slot hdr.latest_slot)
            Field.h2g_page_offset hdr.h2g_page_offset)
          Field.h2g_page_size hdr.h2g_page_size)
        Field.g2h_page_offset hdr.g2h_page_offset)
      Field.g2h_page_size hdr.g2h_page_size

-- The header that describes a backend of a given size; the last subtraction is of `size_t`.
abbrev pub backend_header : ℕ → Header
backend_header size = record {
  magic = pvsched_magic;
  version = pvsched_version;
  latest_slot = h2g_latest_slot;
  h2g_page_offset = h2g_offset;
  h2g_page_size = page_size;
  g2h_page_offset = g2h_offset;
  g2h_page_size = u64 (size + 2 ^ 64 - g2h_offset);
}

-- The tail of `host_ivshmem_create_static_backend`, from `cdev_add` on.
publish_backend : Ret → Ret → Answers → Backend → Ret × Backend
publish_backend (err e) dev a b = (err e, record b { mem = none })
publish_backend ok (err e) a b = (err e, record b { mem = none; dev = false; cdev = false })
publish_backend ok ok a b = (
  ok,
  record b {
    cdev = true;
    dev = true;
    blob_data = true;
    blob_size = b.size;
    debugfs_dentry = if a.debugfs_root then a.debugfs_create_blob else b.debugfs_dentry;
  },
)

unfoldable pub host_ivshmem_create_static_backend : Answers → ℕ → Backend → Ret × Backend
unfolding publish_backend
host_ivshmem_create_static_backend a minor b =
    if a.vmalloc_user
    then publish_backend a.cdev_add a.device_create a
        (record b { minor = minor; mem = some (store_header zero_memory (backend_header b.size)) })
    else (err enomem, record b { minor = minor; mem = none })

-- DIV_ROUND_UP of linux/math.h
abbrev pub div_round_up : ℕ → ℕ → ℕ
div_round_up n d = (n + d - 1) / d

abbrev pub nb_pages : ℕ → ℕ
nb_pages nb_cpu = host_nb_metadata_pages + 1 + div_round_up (nb_cpu * msg_size) page_size

-- `created` is what the creation of the backend returned; the id in `r` is already taken.
finish_registration : Registry → VmRegReq → ℕ → Ret × Backend → Ret × VmRegReq × Registry
finish_registration r req vm_id (ok, b) =
    (ok, record req { vm_id = vm_id; size = b.size }, set_device r (vm_id + 1) (some b))
finish_registration r req vm_id (err e, b) =
    (err e, req, record r { next_vm_id = r.next_vm_id - 1 })

-- The commands of the ioctl: PHANT_REG, and any other number.
pub data Command : Type 0 where
  phant_reg : Command
  other : ℕ → Command

-- `roundup_pow_of_two` is the kernel's.
module _ (roundup_pow_of_two : ℕ → ℕ) where
  abbrev pub new_backend : ℕ → Backend
  new_backend nb_cpu = record zero_backend {
    size = roundup_pow_of_two (nb_pages nb_cpu * page_size);
  }

  -- One step: no other registration runs between the id that it takes and its end.
  unfoldable pub host_register_vm : Answers → Registry → VmRegReq → Ret × VmRegReq × Registry
  unfolding finish_registration
  host_register_vm a r req =
      let vm_id = r.next_vm_id in
      let taken : Registry = record r { next_vm_id = r.next_vm_id + 1 } in
      if leb max_nb_devices (vm_id + 1)
      then (err enospc, req, record taken { next_vm_id = taken.next_vm_id - 1 })
      else (if not a.kzalloc
          then (err enomem, req, taken)
          else finish_registration taken req vm_id
              (host_ivshmem_create_static_backend a (vm_id + 1) (new_backend req.nb_cpu)))

  reply : Answers → Ret × VmRegReq × Registry → Ret × Option VmRegReq × Registry
  reply a (err e, req, r) = (err e, none, r)
  reply a (ok, req, r) = if a.copy_to_user then (ok, some req, r) else (err efault, none, r)

  -- The option is what is written back to the caller's request.
  unfoldable pub host_registry_ioctl :
      Answers → Command → Registry → VmRegReq → Ret × Option VmRegReq × Registry
  unfolding reply host_register_vm
  host_registry_ioctl a (other n) r req = (err eopnotsupp, none, r)
  host_registry_ioctl a phant_reg r req =
      if not a.copy_from_user then (err efault, none, r) else reply a (host_register_vm a r req)

-- The freed backend; `host_destroy_registry_backend` drops it right after.
unfoldable pub host_ivshmem_destroy_static_backend : Backend → Backend
host_ivshmem_destroy_static_backend b = record b {
  debugfs_dentry = false;
  blob_data = false;
  blob_size = 0;
  dev = false;
  cdev = false;
  mem = none;
}

-- The loop over `devices`, from `i` on, with `n` rounds left; the list is of the backends that it
-- destroys and frees, in order.
pub destroy_devices : ℕ → ℕ → (ℕ → Option Backend) → List Backend × (ℕ → Option Backend)
unfolding host_ivshmem_destroy_static_backend
destroy_devices zero i devices = ([], devices)
destroy_devices (suc n) i devices = elim (devices i) [
  | none ↦ destroy_devices n (i + 1) devices
  | some b ↦
      (let (freed, rest) = destroy_devices n (i + 1) (λ j. if j == i then none else devices j) in
        (host_ivshmem_destroy_static_backend b ∷ freed, rest))
]

pub host_destroy_registry_backend : Registry → List Backend × Registry
unfolding destroy_devices
host_destroy_registry_backend r =
    let (freed, devices) = destroy_devices max_nb_devices 0 r.devices in
    (freed, record r { devices = devices; dev = false; cdev = false })
