-- ===== src/Abi.antt =====
-- The layout that host and guest share: include/pvsched.h and include/pvsched_shmem.h, with the
-- page size of x86-64. A message is one 64-bit word and seven words of padding that nobody touches.
pub mod Field
use phantom_tracker.Common.{
  ℕ, Bool, true, false, ◌/◌, ◌≡◌, refl, ◌⊎◌, inl, inr, if◌then◌else◌, ◌==◌,
}

abbrev pub page_size : ℕ
page_size = 4096

-- sizeof(struct hg_message) and sizeof(struct gh_message): eight words of 64 bits.
abbrev pub msg_size : ℕ
msg_size = 64

abbrev pub nr_host_ivshmem_msgs : ℕ
nr_host_ivshmem_msgs = page_size / msg_size

abbrev pub nr_guest_ivshmem_msgs : ℕ
nr_guest_ivshmem_msgs = page_size / msg_size

abbrev pub h2g_latest_slot : ℕ
h2g_latest_slot = 0

abbrev pub h2g_first_history_slot : ℕ
h2g_first_history_slot = 1

abbrev pub pvsched_magic : ℕ
pvsched_magic = 0x4856534D

abbrev pub pvsched_version : ℕ
pvsched_version = 1

abbrev pub max_nb_devices : ℕ
max_nb_devices = 256

abbrev pub host_nb_metadata_pages : ℕ
host_nb_metadata_pages = 1

-- A region of shared memory: the field that starts at a byte offset. Every access of the program
-- is to a whole field of the layout below, so fields never overlap.
abbrev pub Memory : Type 0
Memory = ℕ → ℕ

abbrev pub store : Memory → ℕ → ℕ → Memory
store m a v = λ x. if x == a then v else m x

abbrev pub zero_memory : Memory
zero_memory = λ x. 0

-- struct ivshmem_header
pub record Header : Type 0 where
  pub magic : ℕ
  pub version : ℕ
  pub latest_slot : ℕ
  pub h2g_page_offset : ℕ
  pub h2g_page_size : ℕ
  pub g2h_page_offset : ℕ
  pub g2h_page_size : ℕ

-- The header at the start of a region.
unfoldable pub load_header : Memory → Header
load_header m = record {
  magic = m Field.magic;
  version = m Field.version;
  latest_slot = m Field.latest_slot;
  h2g_page_offset = m Field.h2g_page_offset;
  h2g_page_size = m Field.h2g_page_size;
  g2h_page_offset = m Field.g2h_page_offset;
  g2h_page_size = m Field.g2h_page_size;
}

-- Error numbers, under the names of errno.h, and what a kernel call returned on its own account.
pub data Errno : Type 0 where
  enodev einval enospc enomem efault eopnotsupp ebusy eio : Errno
  kernel : ℕ → Errno

-- An `int` that is zero or a negated error number.
pub data Ret : Type 0 where
  ok : Ret
  err : Errno → Ret

abbrev pub is_ok : Ret → Bool
is_ok ok = true
is_ok (err e) = false

pub Ret-cases : (r : Ret) → (r ≡ ok) ⊎ ((e : Errno) × (r ≡ err e))
Ret-cases ok = inl refl
Ret-cases (err e) = inr (e, refl)
