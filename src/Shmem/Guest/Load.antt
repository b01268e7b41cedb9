-- ===== src/Shmem/Guest/Load.antt =====
-- pvsched-shmem/guest/guest_ivshmem.c: loading and unloading of the module. The PCI core probes the
-- devices on the bus when the driver is registered, and removes them when it is unregistered; a
-- device that the driver refused has no driver data, so its removal would do nothing.
pub mod Balance
use phantom_tracker.Common.{
  ℕ, ◌+◌, ◌%◌, ◌≡◌, Bool, true, false, not, Option, none, some, if◌then◌else◌, ◌==◌, List, [], ◌∷◌,
}
use phantom_tracker.Abi.{page_size, msg_size, Ret, ok, err, einval, enodev}
use phantom_tracker.Shmem.Guest.{GuestDevice, CharState, GuestModule}
use phantom_tracker.Shmem.Guest.Driver.{PciDevice, guest_ivshmem_probe, guest_ivshmem_remove}
use phantom_tracker.Shmem.Guest.Chardev.{
  CharAnswers, guest_ivshmem_register_chardev, guest_ivshmem_unregister_chardev,
}

-- What loading gets from the kernel.
pub record LoadAnswers : Type 0 where
  pub register_driver : Ret
  pub register_kfuncs : Ret
  pub char_answers : CharAnswers

unfoldable pub probe_all : List PciDevice → GuestModule → GuestModule
probe_all [] g = g
probe_all (p ∷ ps) g = probe_all ps (guest_ivshmem_probe p g).1

unfoldable pub pci_unregister_driver : List PciDevice → GuestModule → GuestModule
pci_unregister_driver [] g = g
pci_unregister_driver (p ∷ ps) g = pci_unregister_driver ps (guest_ivshmem_remove p.pdev g)

init_chardev : List PciDevice → Ret × CharState → GuestModule → Ret × GuestModule
init_chardev bus (err e, c) g = (err e, pci_unregister_driver bus (record g { chardev = c }))
init_chardev bus (ok, c) g = (ok, record g { chardev = c })

init_kfuncs : LoadAnswers → Ret → List PciDevice → GuestModule → Ret × GuestModule
unfolding init_chardev
init_kfuncs a (err e) bus g = (err e, pci_unregister_driver bus g)
init_kfuncs a ok bus g =
    init_chardev bus (guest_ivshmem_register_chardev a.char_answers g.chardev) g

init_published : LoadAnswers → Option GuestDevice → List PciDevice → GuestModule → Ret × GuestModule
unfolding init_kfuncs
init_published a none bus g = (err enodev, pci_unregister_driver bus g)
init_published a (some d) bus g = init_kfuncs a a.register_kfuncs bus g

init_driver : LoadAnswers → Ret → List PciDevice → GuestModule → Ret × GuestModule
unfolding init_published
init_driver a (err e) bus g = (err e, g)
init_driver a ok bus g =
    let probed = probe_all bus g in init_published a probed.guest_ivshmem bus probed

unfoldable pub guest_ivshmem_init : LoadAnswers → List PciDevice → GuestModule → Ret × GuestModule
unfolding init_driver
guest_ivshmem_init a bus g =
    if not (page_size % msg_size == 0)
    then (err einval, g)
    else init_driver a a.register_driver bus g

unfoldable pub guest_ivshmem_exit : List PciDevice → GuestModule → GuestModule
guest_ivshmem_exit bus g =
    pci_unregister_driver bus (record g { chardev = guest_ivshmem_unregister_chardev g.chardev })
