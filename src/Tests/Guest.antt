-- ===== src/Tests/Guest.antt =====
-- The driver of the guest at concrete inputs: one device that shows a region of 16384 bytes.
use phantom_tracker.Common.{◌≡◌, refl, true, false, some, arith, [], ◌∷◌}
use phantom_tracker.Abi.{ok, err, enodev, zero_memory, load_header}
use phantom_tracker.Shmem.Host.{Backend, host_ivshmem_g2h_read}
use phantom_tracker.Shmem.Host.Register.{zero_backend, store_header, backend_header}
use phantom_tracker.Shmem.Host.Register.Valid.{Live}
use phantom_tracker.Shmem.Guest.{GuestModule, unloaded, bpf_guest_ivshmem_g2h_write}
use phantom_tracker.Shmem.Guest.Driver.{PciDevice, device_of, guest_ivshmem_probe}
use phantom_tracker.Shmem.Guest.Chardev.{CharAnswers, guest_ivshmem_register_chardev}
use phantom_tracker.Shmem.Guest.Load.{
  LoadAnswers, probe_all, guest_ivshmem_init, guest_ivshmem_exit,
}
use phantom_tracker.Shmem.Guest.Load.Balance.{Fresh, init-err, exit-init}
use phantom_tracker.Shmem.Guest.Accepted.{Shows, Willing, probe-accepts, g2h_read-g2h_write}

abbrev pub region : Backend
region = record zero_backend {
  mem = some (store_header zero_memory (backend_header 16384));
  size = 16384;
  minor = 1;
  cdev = true;
}

pub region-Live : Live 1 region
unfolding load_header store_header
region-Live = record {
  memory = store_header zero_memory (backend_header 16384);
  mapped = refl;
  described = refl;
  two_pages = omega arith;
  power = (14, refl);
  numbered = refl;
  added = refl;
}

abbrev pub pci : PciDevice
pci = record {
  pdev = 3;
  start = 0x1000000;
  len = 16384;
  bar = store_header zero_memory (backend_header 16384);
  kzalloc = true;
  enable_device = ok;
  is_memory = true;
  request_region = ok;
  map_metadata = true;
  map_g2h = true;
}

pub pci-Shows : Shows region pci
pci-Shows = record { memory = refl; length = refl; addressable = omega arith }

pci-Willing : Willing pci
pci-Willing = record {
  kzalloc = refl;
  enable_device = refl;
  is_memory = refl;
  request_region = refl;
  map_metadata = refl;
  map_g2h = refl;
}

abbrev pub bound : GuestModule
bound = (guest_ivshmem_probe pci unloaded).1

pub bound-ok : guest_ivshmem_probe pci unloaded ≡ (ok, bound)
unfolding guest_ivshmem_probe load_header store_header
bound-ok = refl

probe-accepts_example :
    let (ret, g') = guest_ivshmem_probe pci unloaded in
    (ret ≡ ok) × (g'.guest_ivshmem ≡ some (device_of pci (backend_header 16384)))
probe-accepts_example = probe-accepts 1 region pci region-Live pci-Shows unloaded pci-Willing

g2h_read-g2h_write_example :
    let (ret, mem) = bpf_guest_ivshmem_g2h_write bound pci.bar 2 (some 1) in
    (ret ≡ ok)
    × (host_ivshmem_g2h_read (some (record region { mem = some mem })) 2 (some 0) ≡ (ok, some 1))
    × (mem 4096 ≡ pci.bar 4096)
g2h_read-g2h_write_example =
    g2h_read-g2h_write 1 region pci region-Live pci-Shows unloaded bound 2 2 1 0 4096 bound-ok
      (omega arith) (omega arith) (omega arith)

-- The guest's page cannot be mapped.
abbrev unmapped : PciDevice
unmapped = record pci { map_g2h = false }

-- A second device, with its own region.
abbrev second : PciDevice
second = record pci { pdev = 4; start = 0x2000000 }

abbrev no_node : CharAnswers
no_node = record {
  alloc_chrdev_region = ok;
  class_create = ok;
  cdev_add = ok;
  device_create = err enodev;
}

abbrev fails_late : LoadAnswers
fails_late = record { register_driver = ok; register_kfuncs = ok; char_answers = no_node }

abbrev loads : LoadAnswers
loads = record fails_late { char_answers = record no_node { device_create = ok } }

unloaded-Fresh : Fresh unloaded
unloaded-Fresh = record { none_yet = refl; no_data = refl; unlocked = refl; no_class = refl }

init-err_example : (guest_ivshmem_init fails_late (pci ∷ []) unloaded).1 ≡ unloaded
unfolding guest_ivshmem_init guest_ivshmem_probe load_header store_header probe_all
    guest_ivshmem_register_chardev
init-err_example =
    init-err fails_late pci unloaded unloaded-Fresh enodev
      (guest_ivshmem_init fails_late (pci ∷ []) unloaded).1 refl

exit-init_example :
    guest_ivshmem_exit (pci ∷ []) (guest_ivshmem_init loads (pci ∷ []) unloaded).1 ≡ unloaded
unfolding guest_ivshmem_init guest_ivshmem_probe load_header store_header probe_all
    guest_ivshmem_register_chardev
exit-init_example =
    exit-init loads pci unloaded unloaded-Fresh (guest_ivshmem_init loads (pci ∷ []) unloaded).1
      refl
