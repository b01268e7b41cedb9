-- ===== src/Shmem/Guest/Driver.antt =====
-- pvsched-shmem/guest/guest_ivshmem.c: `guest_ivshmem_probe` and `guest_ivshmem_remove`, each label of
-- the error path a function, and what the PCI core answers in a record.
use phantom_tracker.Common.{
  ℕ, ◌+◌, ◌-◌, Bool, true, false, ◌||◌, not, Option, none, some, if◌then◌else◌, ltb, ◌==◌,
  ℕ_discrete, lookup, insert, delete, u64,
}
use phantom_tracker.Abi.{
  pvsched_magic, pvsched_version, Memory, Header, load_header, Ret, ok, err, enodev, einval, enomem,
  ebusy,
}
use phantom_tracker.Shmem.Guest.{metadata_offset, metadata_size, GuestDevice, GuestModule}

-- A PCI device: where its BAR lies and what is in it, and what the calls for it answer.
pub record PciDevice : Type 0 where
  pub pdev : ℕ
  pub start : ℕ
  pub len : ℕ
  pub bar : Memory
  pub kzalloc : Bool
  pub enable_device : Ret
  pub is_memory : Bool
  pub request_region : Ret
  pub map_metadata : Bool
  pub map_g2h : Bool

abbrev pub mutex_lock : GuestModule → GuestModule
mutex_lock g = record g { lock = record g.lock { locked = true } }

abbrev pub mutex_unlock : GuestModule → GuestModule
mutex_unlock g =
    if g.lock.locked
    then record g { lock = record g.lock { locked = false } }
    else record g { lock = record g.lock { stray_unlocks = g.lock.stray_unlocks + 1 } }

abbrev pub err_free_guest : GuestModule → GuestModule
err_free_guest g = record g { held = record g.held { structs = g.held.structs - 1 } }

abbrev pub err_disable_device : GuestModule → GuestModule
err_disable_device g =
    err_free_guest (record g { held = record g.held { enabled = g.held.enabled - 1 } })

abbrev pub err_release_region : GuestModule → GuestModule
err_release_region g =
    err_disable_device (record g { held = record g.held { regions = g.held.regions - 1 } })

-- The device that the header describes.
abbrev pub device_of : PciDevice → Header → GuestDevice
device_of p hdr = record {
  pdev = p.pdev;
  g2h_page = some hdr.g2h_page_offset;
  size = p.len;
  h2g_phy_page = u64 (p.start + hdr.h2g_page_offset);
  h2g_page_size = hdr.h2g_page_size;
  metadata_phy_page = u64 (p.start + metadata_offset);
}

-- The test for a published device, with its early unlock; it does not leave the function.
abbrev pub check_published : GuestModule → Ret × GuestModule
check_published g = elim g.guest_ivshmem [ none ↦ (ok, g) | some d ↦ (err ebusy, mutex_unlock g) ]

-- From the mapping of the guest's page on; `ret` is overwritten by the final `return 0`.
unfoldable pub probe_publish : PciDevice → Header → GuestModule → Ret × GuestModule
probe_publish p hdr g =
    if not p.map_g2h
    then (err enomem, err_release_region g)
    else (let mapped : GuestModule = record g {
      held = record g.held { mappings = g.held.mappings + 1 };
    } in
        let (ret, checked) = check_published (mutex_lock mapped) in
        (
          ok,
          mutex_unlock (record checked {
            drvdata = insert ℕ_discrete p.pdev (device_of p hdr) checked.drvdata;
            guest_ivshmem = some (device_of p hdr);
          }),
        ))

-- The three tests of the header; the sum in the last one is of 64-bit words.
unfoldable pub probe_header : PciDevice → Header → GuestModule → Ret × GuestModule
unfolding probe_publish
probe_header p hdr g =
    if not (hdr.magic == pvsched_magic) || not (hdr.version == pvsched_version)
    then (err einval, err_release_region g)
    else (if not (hdr.h2g_page_offset == metadata_offset + metadata_size)
        then (err einval, err_release_region g)
        else (if ltb p.len (u64 (hdr.g2h_page_offset + hdr.g2h_page_size))
            then (err einval, err_release_region g)
            else probe_publish p hdr g))

-- The metadata page is mapped, read and unmapped.
unfoldable pub probe_region : Ret → PciDevice → GuestModule → Ret × GuestModule
unfolding probe_header
probe_region (err e) p g = (err e, err_disable_device g)
probe_region ok p g =
    let reserved : GuestModule = record g {
      held = record g.held { regions = g.held.regions + 1 };
    } in
    if not p.map_metadata
    then (err enomem, err_release_region reserved)
    else probe_header p (load_header p.bar) reserved

unfoldable pub probe_enabled : Ret → PciDevice → GuestModule → Ret × GuestModule
unfolding probe_region
probe_enabled (err e) p g = (err e, err_free_guest g)
probe_enabled ok p g =
    let enabled : GuestModule = record g {
      held = record g.held { enabled = g.held.enabled + 1 };
    } in
    if not p.is_memory
    then (err enodev, err_disable_device enabled)
    else (if ltb p.len metadata_size
        then (err einval, err_disable_device enabled)
        else probe_region p.request_region p enabled)

unfoldable pub guest_ivshmem_probe : PciDevice → GuestModule → Ret × GuestModule
unfolding probe_enabled
guest_ivshmem_probe p g =
    if not p.kzalloc
    then (err enomem, g)
    else probe_enabled p.enable_device p
        (record g { held = record g.held { structs = g.held.structs + 1 } })

-- The device is taken back unless another one is published.
abbrev pub withdraw : Option GuestDevice → GuestDevice → GuestModule → GuestModule
withdraw none guest g = g
withdraw (some tmp) guest g =
    if not (tmp.pdev == guest.pdev) then g else record g { guest_ivshmem = none }

abbrev pub release_device : GuestModule → GuestModule
release_device g =
    err_release_region (record g { held = record g.held { mappings = g.held.mappings - 1 } })

unfoldable pub guest_ivshmem_remove : ℕ → GuestModule → GuestModule
guest_ivshmem_remove pdev g = elim (lookup ℕ_discrete pdev g.drvdata) [
  | none ↦ g
  | some guest ↦
      (let cleared = mutex_lock (record g { drvdata = delete ℕ_discrete pdev g.drvdata }) in
        release_device (mutex_unlock (withdraw cleared.guest_ivshmem guest cleared)))
]
