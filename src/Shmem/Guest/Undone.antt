-- ===== src/Shmem/Guest/Undone.antt =====
-- pvsched-shmem/guest/guest_ivshmem.c: probe where it fails and where it succeeds, remove after it,
-- and a second device.
use phantom_tracker.Common.{
  ◌+◌, ◌≤◌, ◌≡◌, false, none, some, arith, [], u64, lookup, insert, delete,
}
use phantom_tracker.Abi.{page_size, pvsched_magic, pvsched_version, load_header, ok, err, Errno}
use phantom_tracker.Shmem.Guest.{GuestDevice, GuestModule}
use phantom_tracker.Shmem.Guest.Driver.{
  PciDevice, device_of, guest_ivshmem_probe, guest_ivshmem_remove,
}

module _ (p : PciDevice) (g : GuestModule) where
  -- A probe that fails leaves the module as it was: everything that it took is given back, and
  -- nothing is published.
  pub probe-err : (e : Errno) (g' : GuestModule) → guest_ivshmem_probe p g ≡ (err e, g') → g' ≡ g
  unfolding guest_ivshmem_probe
  probe-err e g' h = ground arith

  -- A probe that succeeds has found the magic number and the version in the header, the host's page
  -- right behind it, and the end of the guest's part, a sum of 64-bit words, inside the BAR; it
  -- publishes the device that the header describes.
  pub probe-ok :
      (g' : GuestModule)
      → guest_ivshmem_probe p g ≡ (ok, g')
      → let hdr = load_header p.bar in
        (hdr.magic ≡ pvsched_magic)
        × (hdr.version ≡ pvsched_version)
        × (hdr.h2g_page_offset ≡ page_size)
        × (u64 (hdr.g2h_page_offset + hdr.g2h_page_size) ≤ p.len)
        × (g'.guest_ivshmem ≡ some (device_of p hdr))
  unfolding guest_ivshmem_probe
  probe-ok g' h = (ground arith, ground arith, ground arith, ground arith, ground arith)

  -- Removing the only device undoes its probe.
  pub remove-probe :
      (g' : GuestModule)
      → g.guest_ivshmem ≡ none
      → g.drvdata ≡ []
      → g.lock.locked ≡ false
      → guest_ivshmem_probe p g ≡ (ok, g')
      → guest_ivshmem_remove p.pdev g' ≡ g
  unfolding guest_ivshmem_probe guest_ivshmem_remove lookup insert delete
  remove-probe g' none_yet no_data unlocked h = ground arith

  -- While a device is published, a second one is not refused: its probe, where nothing else fails,
  -- replaces the published device, and unlocks the mutex once more than it locked it.
  pub second_device :
      (d : GuestDevice) (g' : GuestModule)
      → g.guest_ivshmem ≡ some d
      → guest_ivshmem_probe p g ≡ (ok, g')
      → (g'.guest_ivshmem ≡ some (device_of p (load_header p.bar)))
        × (g'.lock.stray_unlocks ≡ g.lock.stray_unlocks + 1)
  unfolding guest_ivshmem_probe
  second_device d g' there h = (ground arith, ground arith)
