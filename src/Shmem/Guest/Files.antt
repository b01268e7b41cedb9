-- ===== src/Shmem/Guest/Files.antt =====
-- pvsched-shmem/guest/guest_ivshmem.c: the files that are open on the character device. A pointer to
-- a device is the number of its PCI device, and is followed through the driver data.
use mathlib.Core.Option
use phantom_tracker.Common.{
  ℕ, ◌+◌, ◌*◌, ◌%◌, ◌^◌, ◌≤◌, ◌<◌, ◌≡◌, refl, ap, arith, Option, none, some, lookup,
  lookup-insert_self, lookup-delete_self, ℕ_discrete,
}
use phantom_tracker.Abi.{page_size, Header, load_header, Ret, ok}
use phantom_tracker.Shmem.Host.{Backend}
use phantom_tracker.Shmem.Host.Register.Valid.{Live}
use phantom_tracker.Shmem.Guest.{
  GuestModule, GuestDevice, GuestVma, Mapping, refused, remap, guest_ivshmem_mmap,
}
use phantom_tracker.Shmem.Guest.Driver.{
  PciDevice, device_of, guest_ivshmem_probe, guest_ivshmem_remove,
}
use phantom_tracker.Shmem.Guest.Undone.{probe-ok}
use phantom_tracker.Shmem.Guest.Accepted.{Shows, host_header}
use phantom_tracker.Shmem.Guest.Mmap.{mmap-bounds}

-- The `private_data` of a file.
abbrev pub Pointer : Type 0
Pointer = Option ℕ

unfoldable pub guest_ivshmem_open : GuestModule → Ret × Pointer
guest_ivshmem_open g = (ok, Option.map (λ d. d.pdev) g.guest_ivshmem)

abbrev pub guest_ivshmem_release : Pointer → Pointer
guest_ivshmem_release d = none

-- What a system call does: it follows a pointer to nothing, or it returns.
pub data Call : Type 0 where
  fault : Call
  returned : Mapping → Call

-- `struct guest_ivshmem_device *guest = file->private_data`, which is not compared with NULL.
unfoldable pub follow : GuestModule → Pointer → GuestVma → Call
follow g none vma = fault
follow g (some pdev) vma = elim (lookup ℕ_discrete pdev g.drvdata) [
  | none ↦ fault
  | some guest ↦ returned (guest_ivshmem_mmap guest vma)
]

-- A call that returns, and maps no more than two pages from `start` on.
abbrev pub Inside : ℕ → Call → Type 0
Inside start fault = ⊥
Inside start (returned (refused e)) = Unit
Inside start (returned (remap pfn len)) =
    (start ≤ pfn * page_size) × (pfn * page_size + len ≤ start + 2 * page_size)

probe-drvdata :
    (p : PciDevice) (g g' : GuestModule)
    → guest_ivshmem_probe p g ≡ (ok, g')
    → lookup ℕ_discrete p.pdev g'.drvdata ≡ some (device_of p (load_header p.bar))
unfolding guest_ivshmem_probe
probe-drvdata p g g' h =
    ground (arith, lookup-insert_self ℕ_discrete p.pdev (device_of p (load_header p.bar)) g.drvdata)

returned-Inside :
    (start : ℕ) (m : Mapping)
    → ((pfn len : ℕ)
        → m ≡ remap pfn len
        → (start ≤ pfn * page_size) × (pfn * page_size + len ≤ start + 2 * page_size))
    → Inside start (returned m)
returned-Inside start (refused e) h = tt
returned-Inside start (remap pfn len) h = h pfn len refl

opened :
    (g : GuestModule) (d : GuestDevice)
    → g.guest_ivshmem ≡ some d
    → (guest_ivshmem_open g).1 ≡ some d.pdev
unfolding guest_ivshmem_open
opened g d e = ap (Option.map (λ (x : GuestDevice). x.pdev)) e

opened_none : (g : GuestModule) → g.guest_ivshmem ≡ none → (guest_ivshmem_open g).1 ≡ none
unfolding guest_ivshmem_open
opened_none g e = ap (Option.map (λ (x : GuestDevice). x.pdev)) e

follow-some :
    (g : GuestModule) (pdev : ℕ) (d : GuestDevice) (vma : GuestVma)
    → lookup ℕ_discrete pdev g.drvdata ≡ some d
    → follow g (some pdev) vma ≡ returned (guest_ivshmem_mmap d vma)
unfolding follow
follow-some g pdev d vma e = rw (e, follow) refl

follow-none :
    (g : GuestModule) (pdev : ℕ) (vma : GuestVma)
    → lookup ℕ_discrete pdev g.drvdata ≡ none
    → follow g (some pdev) vma ≡ fault
unfolding follow
follow-none g pdev vma e = rw (e, follow) refl

-- A removed device is neither published nor found.
removed :
    (p : PciDevice) (g : GuestModule) (d : GuestDevice)
    → lookup ℕ_discrete p.pdev g.drvdata ≡ some d
    → g.guest_ivshmem ≡ some d
    → ((guest_ivshmem_remove p.pdev g).guest_ivshmem ≡ none)
      × (lookup ℕ_discrete p.pdev (guest_ivshmem_remove p.pdev g).drvdata ≡ none)
unfolding guest_ivshmem_remove
removed p g d found published = (
  rw (found, guest_ivshmem_remove) (ground (arith, published)),
  rw (found, guest_ivshmem_remove)
      (ground (arith, published, lookup-delete_self ℕ_discrete p.pdev g.drvdata)),
)

module _ (minor : ℕ) (b : Backend) (p : PciDevice) (live : Live minor b) (shows : Shows b p)
    (aligned : p.start % page_size ≡ 0) (below : p.start + 2 * page_size < 2 ^ 64)
    (g g' : GuestModule) (probed : guest_ivshmem_probe p g ≡ (ok, g')) where
  inside :
      (vma : GuestVma)
      → Inside p.start (returned (guest_ivshmem_mmap (device_of p (load_header p.bar)) vma))
  inside vma =
      let d : GuestDevice = device_of p (load_header p.bar) in
      let meta : d.metadata_phy_page ≡ p.start = omega (arith, below) in
      returned-Inside p.start (guest_ivshmem_mmap d vma) (λ pfn len e.
        let (low, high) =
          mmap-bounds d
            (record {
              one_page = ap (λ (h : Header). h.h2g_page_size) (host_header minor b p live shows);
              aligned = rw meta aligned;
              below = rw meta below;
            })
            vma pfn len e in
        (omega (arith, low), omega (arith, high)))

  -- With the region of a host behind a device that the guest has probed, in a BAR that starts on a
  -- page and ends below 2^64: a file that is opened maps no more than the metadata page and the
  -- host's page, whatever it asks for. Once the device is removed, every mmap of that file, and of
  -- a file that is opened then, follows a pointer to nothing, as the driver neither counts its
  -- files nor compares the pointer with NULL.
  pub mmap-opened :
      (vma : GuestVma)
      → let file = (guest_ivshmem_open g').1 in
        let gone = guest_ivshmem_remove p.pdev g' in
        Inside p.start (follow g' file vma)
        × (follow gone file vma ≡ fault)
        × (follow gone (guest_ivshmem_open gone).1 vma ≡ fault)
  unfolding follow
  mmap-opened vma =
      let (_, _, _, _, published) = probe-ok p g g' probed in
      let found = probe-drvdata p g g' probed in
      let (unpublished, deleted) = removed p g' _ found published in
      let file = opened g' _ published in
      (
        rw (file, follow-some g' p.pdev _ vma found) (inside vma),
        rw file (follow-none (guest_ivshmem_remove p.pdev g') p.pdev vma deleted),
        rw (opened_none (guest_ivshmem_remove p.pdev g') unpublished, follow) refl,
      )
