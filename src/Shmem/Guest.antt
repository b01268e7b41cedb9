-- ===== src/Shmem/Guest.antt =====
-- pvsched-shmem/guest/guest_ivshmem.c: the driver of the guest for its shared memory device. Its
-- state and the two ways to reach the memory are here; binding to the device is in Driver, the
-- character device in Chardev, loading and unloading in Load.
pub mod Driver
pub mod Chardev
pub mod Load
pub mod Undone
pub mod Accepted
pub mod Mmap
pub mod Files
use phantom_tracker.Common.{
  ℕ, ◌+◌, ◌-◌, ◌*◌, ◌/◌, ◌≡◌, Bool, true, false, ◌||◌, not, Option, none, some, if◌then◌else◌, ltb,
  leb, ◌==◌, List, [], ◌∷◌, u64,
}
use phantom_tracker.Abi.{
  page_size, msg_size, nr_guest_ivshmem_msgs, Memory, store, Ret, ok, err, Errno, enodev, einval,
  eio,
}

abbrev pub metadata_offset : ℕ
metadata_offset = 0

abbrev pub metadata_size : ℕ
metadata_size = page_size

-- struct guest_ivshmem_device. `pdev` is the number of the PCI device, `g2h_page` the offset in its
-- BAR of the mapped page. Its `cdev` stands in the state of the character device.
pub record GuestDevice : Type 0 where
  pub pdev : ℕ
  pub g2h_page : Option ℕ
  pub size : ℕ
  pub h2g_phy_page : ℕ
  pub h2g_page_size : ℕ
  pub metadata_phy_page : ℕ

-- How many of each thing the driver holds: allocated structures, enabled PCI devices, reserved
-- regions, mappings.
pub record Held : Type 0 where
  pub structs : ℕ
  pub enabled : ℕ
  pub regions : ℕ
  pub mappings : ℕ

-- `guest_ivshmem_lock`, and how often it was unlocked while it was not locked.
pub record Mutex : Type 0 where
  pub locked : Bool
  pub stray_unlocks : ℕ

-- The character device: whether `guest_ivshmem_class` is set, and how many number regions, classes,
-- added cdevs and device nodes exist.
pub record CharState : Type 0 where
  pub class_set : Bool
  pub regions : ℕ
  pub classes : ℕ
  pub cdevs : ℕ
  pub nodes : ℕ

-- The module: the published device, the driver data of each PCI device, what it holds, its lock,
-- and its character device.
pub record GuestModule : Type 0 where
  pub guest_ivshmem : Option GuestDevice
  pub drvdata : List (ℕ × GuestDevice)
  pub held : Held
  pub lock : Mutex
  pub chardev : CharState

-- The module before it is loaded.
abbrev pub unloaded : GuestModule
unloaded = record {
  guest_ivshmem = none;
  drvdata = [];
  held = record { structs = 0; enabled = 0; regions = 0; mappings = 0 };
  lock = record { locked = false; stray_unlocks = 0 };
  chardev = record { class_set = false; regions = 0; classes = 0; cdevs = 0; nodes = 0 };
}

-- A mapping request of userspace: its page offset and its number of pages.
pub record GuestVma : Type 0 where
  pub vm_pgoff : ℕ
  pub vma_pages : ℕ

-- What `remap_pfn_range` is asked to map, the first page frame and the length, or the refusal.
pub data Mapping : Type 0 where
  refused : Errno → Mapping
  remap : (pfn len : ℕ) → Mapping

unfoldable pub guest_ivshmem_mmap : GuestDevice → GuestVma → Mapping
guest_ivshmem_mmap guest vma =
    let total_size = u64 (metadata_size + guest.h2g_page_size) in
    let offset = u64 (vma.vm_pgoff * page_size) in
    let len = u64 (vma.vma_pages * page_size) in
    if leb total_size offset || ltb (total_size - offset) len
    then refused einval
    else remap (u64 (guest.metadata_phy_page + offset) / page_size) len

g2h_write_page : Option ℕ → Memory → ℕ → ℕ → Ret × Memory
g2h_write_page none bar index msg = (err eio, bar)
g2h_write_page (some page) bar index msg = (ok, store bar (page + index * msg_size) msg)

g2h_write_device : Option GuestDevice → Memory → ℕ → ℕ → Ret × Memory
g2h_write_device none bar index msg = (err enodev, bar)
g2h_write_device (some guest) bar index msg = g2h_write_page guest.g2h_page bar index msg

-- `bar` is the memory behind the device; a NULL message is `none`.
unfoldable pub guest_ivshmem_g2h_write_msg : GuestModule → Memory → ℕ → Option ℕ → Ret × Memory
unfolding g2h_write_device g2h_write_page
guest_ivshmem_g2h_write_msg g bar index none = (err einval, bar)
guest_ivshmem_g2h_write_msg g bar index (some msg) =
    if leb nr_guest_ivshmem_msgs index
    then (err einval, bar)
    else g2h_write_device g.guest_ivshmem bar index msg

unfoldable pub bpf_guest_ivshmem_g2h_write : GuestModule → Memory → ℕ → Option ℕ → Ret × Memory
unfolding guest_ivshmem_g2h_write_msg
bpf_guest_ivshmem_g2h_write g bar index gh_msg = guest_ivshmem_g2h_write_msg g bar index gh_msg
