-- ===== src/Shmem/Guest/Mmap.antt =====
-- pvsched-shmem/guest/guest_ivshmem.c: which physical memory userspace can map.
use phantom_tracker.Common.{ℕ, ◌+◌, ◌-◌, ◌*◌, ◌/◌, ◌%◌, ◌^◌, ◌≤◌, ◌<◌, ◌≡◌, arith, u64}
use phantom_tracker.Abi.{page_size}
use phantom_tracker.Shmem.Guest.{GuestDevice, GuestVma, remap, guest_ivshmem_mmap}

-- A device whose host page has one page, behind a BAR that starts on a page and ends below 2 ^ 64.
pub record OnePage (d : GuestDevice) : Type 0 where
  pub one_page : d.h2g_page_size ≡ page_size
  pub aligned : d.metadata_phy_page % page_size ≡ 0
  pub below : d.metadata_phy_page + 2 * page_size < 2 ^ 64

page_of :
    (meta off : ℕ)
    → meta % page_size ≡ 0
    → off % page_size ≡ 0
    → (meta + off) / page_size * page_size ≡ meta + off
page_of meta off p q = omega arith

module _ (d : GuestDevice) (o : OnePage d) (vma : GuestVma) where
  abbrev offset : ℕ
  offset = u64 (vma.vm_pgoff * page_size)

  granted :
      (pfn len : ℕ)
      → guest_ivshmem_mmap d vma ≡ remap pfn len
      → (offset < 2 * page_size)
        × (len ≤ 2 * page_size - offset)
        × (pfn ≡ u64 (d.metadata_phy_page + offset) / page_size)
  unfolding guest_ivshmem_mmap
  granted pfn len h =
      (ground (arith, o.one_page), ground (arith, o.one_page), ground (arith, o.one_page))

  -- For a device with one host page, behind a BAR that starts on a page and ends below 2^64, a
  -- mapping that is granted lies in the metadata page and the host's page, whatever the offset and
  -- the length wrap to: userspace never maps the page that the guest kernel writes.
  pub mmap-bounds :
      (pfn len : ℕ)
      → guest_ivshmem_mmap d vma ≡ remap pfn len
      → (d.metadata_phy_page ≤ pfn * page_size)
        × (pfn * page_size + len ≤ d.metadata_phy_page + 2 * page_size)
  mmap-bounds pfn len h =
      let (inside, short, frame) = granted pfn len h in
      let aligned : offset % page_size ≡ 0 = omega arith in
      let unwrapped : u64 (d.metadata_phy_page + offset) ≡ d.metadata_phy_page + offset =
        omega (arith, o.below, inside) in
      let start = page_of d.metadata_phy_page offset o.aligned aligned in
      let same : pfn * page_size ≡ d.metadata_phy_page + offset = rw (frame, unwrapped) start in
      (omega (arith, same), omega (arith, same, short, inside))
