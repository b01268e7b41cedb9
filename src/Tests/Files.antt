-- ===== src/Tests/Files.antt =====
-- Files that are open on the devices of the host and of the guest.
use phantom_tracker.Common.{◌≡◌, refl, arith, true, some}
use phantom_tracker.Abi.{ok}
use phantom_tracker.Shmem.Host.Register.{host_register_vm, host_ivshmem_create_static_backend}
use phantom_tracker.Shmem.Host.History.{register}
use phantom_tracker.Shmem.Host.Files.{
  backend, Vma, host_ivshmem_open, host_ivshmem_mmap, host_ivshmem_fops, fops_of, OpenFile, Devices,
  put, FileStep, served, opened, mapped,
}
use phantom_tracker.Shmem.Host.Files.Safe.{Safe, fresh, loaded, later, FileReach-Safe}
use phantom_tracker.Shmem.Guest.{GuestVma, unloaded}
use phantom_tracker.Shmem.Guest.Driver.{guest_ivshmem_remove}
use phantom_tracker.Shmem.Guest.Files.{Inside, guest_ivshmem_open, follow, fault, mmap-opened}
use phantom_tracker.Tests.Rounding.{round_up, round_from, round_up-RoundsUp}
use phantom_tracker.Tests.Shmem.{all_well, four_cpus, first_vm}
use phantom_tracker.Tests.Guest.{region, region-Live, pci, pci-Shows, bound, bound-ok}

abbrev with_vm : Devices
with_vm = record fresh { registry = first_vm.2 }

abbrev file_1 : OpenFile
file_1 = record { minor = 1; private_data = backend 1 }

abbrev with_file : Devices
with_file = record with_vm { files = put 7 (some file_1) with_vm.files }

abbrev whole : Vma
whole = record { vm_pgoff = 0; len = 16384; shared = true }

abbrev with_mapping : Devices
with_mapping = record with_file {
  mappings = put 0 (some (record { fd = 7; len = 16384 })) with_file.mappings;
}

opens : FileStep round_up with_vm with_file
unfolding fops_of host_ivshmem_fops host_ivshmem_open host_register_vm
    host_ivshmem_create_static_backend
opens = opened 7 1 (backend 1) refl refl

maps : FileStep round_up with_file with_mapping
unfolding fops_of host_ivshmem_fops host_ivshmem_mmap host_register_vm
    host_ivshmem_create_static_backend round_up round_from
maps = mapped 0 7 file_1 host_ivshmem_mmap ok whole refl refl refl

FileReach-Safe_example : Safe with_mapping
FileReach-Safe_example =
    FileReach-Safe round_up round_up-RoundsUp
      (later (later (later loaded (served first_vm.2 (register all_well four_cpus))) opens) maps)

abbrev one_page : GuestVma
one_page = record { vm_pgoff = 1; vma_pages = 1 }

mmap-opened_example :
    Inside 0x1000000 (follow bound (guest_ivshmem_open bound).1 one_page)
    × (follow (guest_ivshmem_remove 3 bound) (guest_ivshmem_open bound).1 one_page ≡ fault)
    × (follow
          (guest_ivshmem_remove 3 bound)
          (guest_ivshmem_open (guest_ivshmem_remove 3 bound)).1
          one_page
        ≡ fault)
mmap-opened_example =
    mmap-opened 1 region pci region-Live pci-Shows (omega arith) (omega arith) unloaded bound
      bound-ok one_page
