-- ===== src/Shmem/Host/Files.antt =====
-- pvsched-shmem/host/host_ivshmem.c: the file operations of the devices, and the files that are open
-- on them. A pointer to a backend is its minor number; following it where no backend is left is a
-- fault.
pub mod Sized
pub mod Safe
use phantom_tracker.Common.{
  ℕ, ◌≡◌, ◌≢◌, Bool, true, false, not, ◌||◌, Option, none, some, if◌then◌else◌, leb, ◌==◌,
}
use phantom_tracker.Abi.{max_nb_devices, Ret, ok, err, enodev, einval}
use phantom_tracker.Shmem.Host.{Backend, Registry}
use phantom_tracker.Shmem.Host.Register.{
  VmRegReq, Answers, Command, host_registry_ioctl, host_destroy_registry_backend,
}
use phantom_tracker.Shmem.Host.History.{Step}

-- The `private_data` of a file: NULL, the registry, or the backend at a minor number.
pub data PrivateData : Type 0 where
  null : PrivateData
  control : PrivateData
  backend : ℕ → PrivateData

-- A mapping request: its page offset, its length in bytes, and whether it is shared.
pub record Vma : Type 0 where
  pub vm_pgoff : ℕ
  pub len : ℕ
  pub shared : Bool

-- What a system call does: it returns, or it follows a pointer to nothing.
pub data Call : Type 0 where
  fault : Call
  returned : Ret → Call

pub host_registry_open : Ret × PrivateData
host_registry_open = (ok, control)

abbrev pub host_registry_release : PrivateData → PrivateData
host_registry_release d = null

unfoldable pub host_ivshmem_open : Registry → ℕ → Ret × PrivateData
host_ivshmem_open r minor =
    if leb max_nb_devices minor
    then (err enodev, null)
    else elim (r.devices minor) [ none ↦ (err enodev, null) | some b ↦ (ok, backend minor) ]

abbrev pub host_ivshmem_release : PrivateData → PrivateData
host_ivshmem_release d = null

-- `remap` is what the kernel's `remap_vmalloc_range` returns.
mmap_backend : Ret → Backend → Vma → Ret
mmap_backend remap b vma =
    if not (vma.vm_pgoff == 0) || not (vma.len == b.size)
    then err einval
    else (if not vma.shared then err einval else remap)

unfoldable pub host_ivshmem_mmap : Ret → Registry → PrivateData → Vma → Call
unfolding mmap_backend
host_ivshmem_mmap remap r null vma = returned (err enodev)
host_ivshmem_mmap remap r control vma = fault
host_ivshmem_mmap remap r (backend minor) vma = elim (r.devices minor) [
  | none ↦ fault
  | some b ↦ returned (mmap_backend remap b vma)
]

-- struct file_operations, less the two operations that the kernel brings. An operation that is not
-- set is none.
pub record FileOperations : Type 0 where
  pub open_file : Registry → ℕ → Ret × PrivateData
  pub release : PrivateData → PrivateData
  pub mmap : Option (Ret → Registry → PrivateData → Vma → Call)
  pub unlocked_ioctl :
      Option ((ℕ → ℕ) → Answers → Command → Registry → VmRegReq → Ret × Option VmRegReq × Registry)

unfoldable pub host_ivshmem_fops : FileOperations
host_ivshmem_fops = record {
  open_file = host_ivshmem_open;
  release = host_ivshmem_release;
  mmap = some host_ivshmem_mmap;
  unlocked_ioctl = none;
}

unfoldable pub host_registry_fops : FileOperations
unfolding host_registry_open
host_registry_fops = record {
  open_file = λ r minor. host_registry_open;
  release = host_registry_release;
  mmap = none;
  unlocked_ioctl = some host_registry_ioctl;
}

-- Minor 0 is the control device, every other one a backend.
unfoldable pub fops_of : ℕ → FileOperations
fops_of minor = if minor == 0 then host_registry_fops else host_ivshmem_fops

pub record OpenFile : Type 0 where
  pub minor : ℕ
  pub private_data : PrivateData

-- A mapping that was granted, and the file that it keeps open.
pub record Mapped : Type 0 where
  pub fd : ℕ
  pub len : ℕ

-- The module with the files that are open on its devices, and the mappings of them.
pub record Devices : Type 0 where
  pub registry : Registry
  pub files : ℕ → Option OpenFile
  pub mappings : ℕ → Option Mapped

abbrev pub put {ℓ} : {A : Type ℓ} → ℕ → Option A → (ℕ → Option A) → ℕ → Option A
put i v f = λ j. if j == i then v else f j

-- What can happen: anything to the registry, a file that is opened, mapped, unmapped or closed, and,
-- as the files keep the module loaded, the destruction of the backends once none is open.
pub data FileStep (f : ℕ → ℕ) (s : Devices) : Devices → Type 0 where
  served : (r : Registry) → Step f s.registry r → FileStep f s (record s { registry = r })
  opened :
      (fd minor : ℕ) (d : PrivateData)
      → s.files fd ≡ none
      → (fops_of minor).open_file s.registry minor ≡ (ok, d)
      → FileStep f s
          (record s { files = put fd (some (record { minor = minor; private_data = d })) s.files })
  mapped :
      (id fd : ℕ) (file : OpenFile) (op : Ret → Registry → PrivateData → Vma → Call) (remap : Ret)
      (vma : Vma)
      → s.files fd ≡ some file
      → (fops_of file.minor).mmap ≡ some op
      → op remap s.registry file.private_data vma ≡ returned ok
      → FileStep f s
          (record s { mappings = put id (some (record { fd = fd; len = vma.len })) s.mappings })
  unmapped : (id : ℕ) → FileStep f s (record s { mappings = put id none s.mappings })
  closed :
      (fd : ℕ)
      → ((id : ℕ) (m : Mapped) → s.mappings id ≡ some m → m.fd ≢ fd)
      → FileStep f s (record s { files = put fd none s.files })
  destroyed :
      ((fd : ℕ) → s.files fd ≡ none)
      → FileStep f s (record s { registry = (host_destroy_registry_backend s.registry).1 })
