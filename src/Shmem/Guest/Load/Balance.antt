-- ===== src/Shmem/Guest/Load/Balance.antt =====
-- pvsched-shmem/guest/guest_ivshmem.c: loading and unloading with one device on the bus, which is what
-- the driver assumes.
use phantom_tracker.Common.{ℕ, ◌≡◌, ap, ◌∙◌, false, none, arith, [], ◌∷◌, inl, inr, lookup}
use phantom_tracker.Abi.{Ret, ok, err, Errno, Ret-cases}
use phantom_tracker.Shmem.Guest.{GuestModule, CharState}
use phantom_tracker.Shmem.Guest.Driver.{PciDevice, guest_ivshmem_probe, guest_ivshmem_remove}
use phantom_tracker.Shmem.Guest.Chardev.{
  guest_ivshmem_register_chardev, guest_ivshmem_unregister_chardev, undo, undo-register_chardev,
}
use phantom_tracker.Shmem.Guest.Undone.{probe-err, remove-probe}
use phantom_tracker.Shmem.Guest.Load.{
  LoadAnswers, guest_ivshmem_init, guest_ivshmem_exit, pci_unregister_driver, probe_all,
}

-- A module that is not loaded: no device, no driver data, no lock held, no class.
pub record Fresh (g : GuestModule) : Type 0 where
  pub none_yet : g.guest_ivshmem ≡ none
  pub no_data : g.drvdata ≡ []
  pub unlocked : g.lock.locked ≡ false
  pub no_class : g.chardev.class_set ≡ false

-- The driver's part and the character device do not touch each other.
remove-chardev :
    (i : ℕ) (g : GuestModule) (c : CharState)
    → guest_ivshmem_remove i (record g { chardev = c })
      ≡ record (guest_ivshmem_remove i g) { chardev = c }
unfolding guest_ivshmem_remove
remove-chardev i g c = ground arith

probe-chardev : (p : PciDevice) (g : GuestModule) → (guest_ivshmem_probe p g).1.chardev ≡ g.chardev
unfolding guest_ivshmem_probe
probe-chardev p g = ground arith

remove_nothing : (i : ℕ) (g : GuestModule) → g.drvdata ≡ [] → guest_ivshmem_remove i g ≡ g
unfolding guest_ivshmem_remove lookup
remove_nothing i g h = ground arith

module _ (a : LoadAnswers) (p : PciDevice) (g : GuestModule) (fresh : Fresh g) where
  abbrev probed : GuestModule
  probed = (guest_ivshmem_probe p g).1

  -- Whatever the probe did, unregistering the driver takes it back.
  undo_probe : guest_ivshmem_remove p.pdev probed ≡ g
  undo_probe = elim (Ret-cases (guest_ivshmem_probe p g).0) [
    | inl fine ↦ remove-probe p g probed fresh.none_yet fresh.no_data fresh.unlocked (ground arith)
    | inr (e, bad) ↦
        (let same = probe-err p g e probed (ground arith) in
          rw same (remove_nothing p.pdev g fresh.no_data))
  ]

  undo_probe-chardev :
      (c : CharState)
      → guest_ivshmem_remove p.pdev (record probed { chardev = c }) ≡ record g { chardev = c }
  undo_probe-chardev c =
      remove-chardev p.pdev probed c ∙ ap (λ (x : GuestModule). record x { chardev = c }) undo_probe

  abbrev char_outcome : Ret × CharState
  char_outcome = guest_ivshmem_register_chardev a.char_answers g.chardev

  -- Loading a module that is not loaded, with one device on the bus, either succeeds, or leaves the
  -- module as it was, on every error: of the probe, of the kfuncs, or of the character device.
  pub init-err :
      (e : Errno) (g' : GuestModule) → guest_ivshmem_init a (p ∷ []) g ≡ (err e, g') → g' ≡ g
  unfolding guest_ivshmem_init probe_all pci_unregister_driver undo
  init-err e g' h = ground (
    arith,
    undo_probe,
    probe-chardev p g,
    undo_probe-chardev char_outcome.1,
    undo-register_chardev a.char_answers g.chardev fresh.no_class,
  )

  -- Loading a module that is not loaded, with one device on the bus, and then unloading it leaves
  -- the module as it was.
  pub exit-init :
      (g' : GuestModule)
      → guest_ivshmem_init a (p ∷ []) g ≡ (ok, g')
      → guest_ivshmem_exit (p ∷ []) g' ≡ g
  unfolding guest_ivshmem_init guest_ivshmem_exit probe_all pci_unregister_driver undo
  exit-init g' h = ground (
    arith,
    probe-chardev p g,
    undo_probe-chardev (guest_ivshmem_unregister_chardev char_outcome.1),
    undo-register_chardev a.char_answers g.chardev fresh.no_class,
  )
