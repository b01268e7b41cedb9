-- ===== src/Shmem/Guest/Accepted.antt =====
-- pvsched-shmem/guest/guest_ivshmem.c on a region that host_ivshmem.c created: the header that one
-- writes and the other checks, and the run states that one stores and the other reads.
use phantom_tracker.Common.{
  ℕ, ◌+◌, ◌-◌, ◌^◌, ◌≤◌, ◌<◌, ◌≡◌, true, some, arith, if◌then◌else◌, ◌==◌, u64,
}
use phantom_tracker.Abi.{nr_guest_ivshmem_msgs, load_header, ok}
use phantom_tracker.Shmem.Host.{Backend, g2h_offset, g2h_slot, host_ivshmem_g2h_read}
use phantom_tracker.Shmem.Host.Register.{backend_header}
use phantom_tracker.Shmem.Host.Register.Valid.{Live}
use phantom_tracker.Shmem.Guest.{GuestModule, bpf_guest_ivshmem_g2h_write}
use phantom_tracker.Shmem.Guest.Driver.{PciDevice, device_of, guest_ivshmem_probe}
use phantom_tracker.Shmem.Guest.Undone.{probe-ok}

-- QEMU shows a backend as the BAR of a PCI device: the same memory, the same size.
pub record Shows (b : Backend) (p : PciDevice) : Type 0 where
  pub memory : b.mem ≡ some p.bar
  pub length : p.len ≡ b.size
  pub addressable : b.size < 2 ^ 64

-- A PCI core that refuses nothing.
pub record Willing (p : PciDevice) : Type 0 where
  pub kzalloc : p.kzalloc ≡ true
  pub enable_device : p.enable_device ≡ ok
  pub is_memory : p.is_memory ≡ true
  pub request_region : p.request_region ≡ ok
  pub map_metadata : p.map_metadata ≡ true
  pub map_g2h : p.map_g2h ≡ true

module _ (minor : ℕ) (b : Backend) (p : PciDevice) (live : Live minor b) (shows : Shows b p) where
  -- The guest reads the header that the host wrote.
  pub host_header : load_header p.bar ≡ backend_header b.size
  host_header = ground (arith, live.mapped, live.described, shows.memory)

  g2h_end : u64 (g2h_offset + u64 (b.size + 2 ^ 64 - g2h_offset)) ≤ p.len
  g2h_end = omega (arith, shows.length, shows.addressable, live.two_pages)

  -- The driver of the guest accepts every region that the host created and whose size is below
  -- 2^64, unless the PCI core refuses a call: it finds the guest's part behind two pages.
  pub probe-accepts :
      (g : GuestModule)
      → Willing p
      → let (ret, g') = guest_ivshmem_probe p g in
        (ret ≡ ok) × (g'.guest_ivshmem ≡ some (device_of p (backend_header b.size)))
  unfolding guest_ivshmem_probe
  probe-accepts g w = ground (
    arith, host_header, g2h_end, w.kzalloc, w.enable_device, w.is_memory, w.request_region,
    w.map_metadata, w.map_g2h,
  )

  -- With the region of a host behind a device that the guest has probed, a run state that the guest
  -- stores for one of the first 64 CPUs is what the host reads for it; the host reads the others as
  -- before; and nothing in front of the guest's part changes, neither the header nor a message of
  -- the host.
  pub g2h_read-g2h_write :
      (g g' : GuestModule) (index j msg old x : ℕ)
      → guest_ivshmem_probe p g ≡ (ok, g')
      → index < nr_guest_ivshmem_msgs
      → j < nr_guest_ivshmem_msgs
      → x < g2h_offset
      → let (ret, mem) = bpf_guest_ivshmem_g2h_write g' p.bar index (some msg) in
        (ret ≡ ok)
        × (host_ivshmem_g2h_read (some (record b { mem = some mem })) j (some old)
            ≡ (ok, some (if j == index then msg else p.bar (g2h_slot j))))
        × (mem x ≡ p.bar x)
  unfolding bpf_guest_ivshmem_g2h_write host_ivshmem_g2h_read
  g2h_read-g2h_write g g' index j msg old x probed i k h =
      let (_, _, _, _, published) = probe-ok p g g' probed in ground (arith, published, host_header)
