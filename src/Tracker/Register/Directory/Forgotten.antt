-- ===== src/Tracker/Register/Directory/Forgotten.antt =====
-- pvsched-ebpf/host/user/cleanup.c behind pvsched-ebpf/host/include/register_vm.h: the tool on what
-- set-ups of the VM left, in the directory and in the map of buffers.
use phantom_tracker.Common.{
  ℕ, ◌≤◌, ◌≡◌, refl, ◌∙◌, arith, true, none, some, List, length, lookup, delete, lookup-delete_self,
  lookup-delete_ne, ◌&&◌, Bool,
}
use phantom_tracker.Tracker.State.{Name, Name-discrete, Buffer, Tracker}
use phantom_tracker.Tracker.Keys.{digit_1, digit_2, collection_key}
use phantom_tracker.Tracker.Register.{vm_key, registry_key}
use phantom_tracker.Tracker.Register.Keys.{no_nul, collection_key-vm_key}
use phantom_tracker.Tracker.Register.Cleanup.{CleanupAnswers, opened, cleanup}
use phantom_tracker.Tracker.Register.Directory.{
  Directory, files_of, DirAnswers, unlink_dir_contents, remove_dir, cleanup_vm, SetupAnswers,
  setups,
}
use phantom_tracker.Tracker.Register.Directory.Cleared.{
  refused, is_empty, holding, Undotted, cleared, removed, Undotted-setups,
}

twice_deleted :
    (k1 k2 : Name) (m : List (Name × Buffer))
    → let rest = delete Name-discrete k2 (delete Name-discrete k1 m) in
      (lookup Name-discrete k1 rest ≡ none) × (lookup Name-discrete k2 rest ≡ none)
twice_deleted k1 k2 m = (
  ground (
    arith,
    lookup-delete_self Name-discrete k1 m,
    lookup-delete_self Name-discrete k2 (delete Name-discrete k1 m),
    lookup-delete_ne Name-discrete k2 k1 (delete Name-discrete k1 m),
  ),
  lookup-delete_self Name-discrete k2 (delete Name-discrete k1 m),
)

module _ (vm_name : List ℕ) (a : DirAnswers) (c : CleanupAnswers) (opens : a.opendir ≡ true)
    (removes : a.rmdir ≡ true) (registry : c.registry ≡ opened) (vms : c.vms ≡ opened)
    (vcpus : c.vcpus ≡ opened) where
  both :
      (d : Directory)
      → Undotted (files_of d)
      → let stay = refused a.unlink (files_of d) in
        let (unlinked, emptied) = unlink_dir_contents a d in
        let (taken, left) = remove_dir a.rmdir emptied in
        (unlinked && taken ≡ is_empty stay) × (left ≡ holding stay)
  unfolding unlink_dir_contents remove_dir refused
  both none h = (rw (opens, removes) refl, refl)
  both (some files) h =
      rw (cleared a files h opens, removes, removed (refused a.unlink files)) (ground arith, refl)

  cleanup-outcome :
      (t : Tracker) (unlinked taken : Bool)
      → let (ret, t') =
          cleanup (record c { unlink_contents = unlinked; rmdir = taken }) vm_name t in
        (ret ≡ (unlinked && taken))
        × (t'.map_registry
            ≡ delete Name-discrete
                (registry_key digit_2 vm_name)
                (delete Name-discrete (registry_key digit_1 vm_name) t.map_registry))
  unfolding cleanup
  cleanup-outcome t unlinked taken =
      (ground (arith, registry, vms, vcpus), ground (arith, registry))

  module _ (string : no_nul vm_name ≡ true) (short : length vm_name ≤ 61) where
    -- After any set-ups of a VM, whatever fails in them, also the unlink of an old file, on a
    -- directory that may hold other files too, the clean-up leaves exactly the files whose unlink
    -- is refused; where there are none, the directory is gone and the tool exits with 0, and else
    -- it exits with 1. The eBPF programs find neither buffer of the VM any more. It needs a name of
    -- at most 61 bytes without NUL, and maps that can be opened; opendir, and the rmdir of an empty
    -- directory, succeed.
    pub cleanup_vm-setups :
        (runs : List SetupAnswers) (d : Directory) (t : Tracker)
        → Undotted (files_of d)
        → let (d', t') = setups runs vm_name d t in
          let stay = refused a.unlink (files_of d') in
          let (ret, left, t'') = cleanup_vm a c vm_name d' t' in
          (ret ≡ is_empty stay)
          × (left ≡ holding stay)
          × (lookup Name-discrete (collection_key digit_1 (vm_key vm_name)) t''.map_registry ≡ none)
          × (lookup Name-discrete (collection_key digit_2 (vm_key vm_name)) t''.map_registry ≡ none)
    unfolding cleanup_vm
    cleanup_vm-setups runs d t h =
        let (d', t') = setups runs vm_name d t in
        let (unlinked, emptied) = unlink_dir_contents a d' in
        let (taken, left) = remove_dir a.rmdir emptied in
        let (all, gone) = both d' (Undotted-setups runs vm_name d t h) in
        let (exit, maps) = cleanup-outcome t' unlinked taken in
        let (one, two) =
          twice_deleted (registry_key digit_1 vm_name) (registry_key digit_2 vm_name)
            t'.map_registry in
        let key = collection_key-vm_key vm_name string short in
        (exit ∙ all, gone, rw (maps, key digit_1) one, rw (maps, key digit_2) two)
