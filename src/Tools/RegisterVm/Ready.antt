-- ===== src/Tools/RegisterVm/Ready.antt =====
-- pvsched-ebpf/host/user/register_vm.c and include/register_vm.h against the eBPF programs: a VM that
-- the tool has registered.
use phantom_tracker.Common.{
  ℕ, ◌^◌, ◌≤◌, ◌<◌, ◌≡◌, ap, ◌∙◌, sym, arith, true, some, List, lookup, length,
}
use phantom_tracker.Tracker.State.{Name-discrete, Tracker}
use phantom_tracker.Tracker.Keys.{digit_1, digit_2, collection_key}
use phantom_tracker.Tracker.Switch.Exact.{Exact}
use phantom_tracker.Tracker.Register.{
  QmpVcpu, MapAnswers, vm_key, delete_of, new_buffer, register_vm, setup_vm_maps,
}
use phantom_tracker.Tracker.Register.Keys.{no_nul, setup-found}
use phantom_tracker.Tracker.Register.Fresh.{AllPadded, Unused, register_vm-Exact}
use phantom_tracker.Tools.RegisterVm.{
  MainAnswers, Process, exit, cleanup_buff, cleanup_fd, register_and_setup,
}

-- Setting up the buffers leaves the VMs and the vCPUs alone.
pub setup-same :
    (a : MapAnswers) (vm_name : List ℕ) (t : Tracker)
    → ((setup_vm_maps a vm_name t).1.vms ≡ t.vms) × ((setup_vm_maps a vm_name t).1.vcpus ≡ t.vcpus)
unfolding setup_vm_maps
setup-same a vm_name t = (ground arith, ground arith)

Exact-same : (t t' : Tracker) → t'.vms ≡ t.vms → t'.vcpus ≡ t.vcpus → Exact t → Exact t'
Exact-same t t' vms vcpus exact = record {
  counts = λ n vm e. rw vcpus (exact.counts n vm (sym (ap (lookup Name-discrete n) vms) ∙ e));
  room = λ n vm e. rw vcpus (exact.room n vm (sym (ap (lookup Name-discrete n) vms) ∙ e));
}

-- An exit with 0 means that both steps succeeded.
pub exits-zero :
    (a : MainAnswers) (path vm_name : List ℕ) (nb_vcpus : ℕ) (vcpus : List QmpVcpu) (p p' : Process)
    → register_and_setup a path vm_name nb_vcpus vcpus p ≡ exit 0 p'
    → (t : Tracker) × (register_vm a.tool vcpus vm_name path nb_vcpus p.tracker ≡ (true, t))
      × (setup_vm_maps a.maps vm_name t ≡ (true, p'.tracker))
unfolding register_and_setup cleanup_fd cleanup_buff
exits-zero a path vm_name nb_vcpus vcpus p p' h =
    let r = register_vm a.tool vcpus vm_name path nb_vcpus p.tracker in
    (r.1, ground arith, ground arith)

module _ (a : MainAnswers) (path vm_name : List ℕ) (nb_vcpus : ℕ) (vcpus : List QmpVcpu)
    (p p' : Process) (string : no_nul vm_name ≡ true) (short : length vm_name ≤ 61)
    (padded : AllPadded p.tracker.vcpus)
    (unused : Unused vm_name vcpus (delete_of vm_name p.tracker.vcpus))
    (enough : length vcpus ≤ nb_vcpus) (fits : nb_vcpus < 2 ^ 32) (keys : a.tool.keys ≡ true) where
  -- Where the tool registers the vCPUs of a VM and exits with 0, the VM is ready: every counter is
  -- the number of its VM's phantoms, and the eBPF programs find both buffers of the VM, empty. It
  -- needs counters that were exact before, a name of at most 61 bytes without NUL, padded names in
  -- the map, threads that are not in the map once the VM's stale vCPUs are gone and that differ
  -- from each other, a number of vCPUs that covers the list and fits in 32 bits, and memory for the
  -- list of stale keys.
  pub register_and_setup-Exact :
      Exact p.tracker
      → register_and_setup a path vm_name nb_vcpus vcpus p ≡ exit 0 p'
      → Exact p'.tracker
        × (lookup Name-discrete (collection_key digit_1 (vm_key vm_name)) p'.tracker.map_registry
            ≡ some new_buffer)
        × (lookup Name-discrete (collection_key digit_2 (vm_key vm_name)) p'.tracker.map_registry
            ≡ some new_buffer)
  register_and_setup-Exact exact h =
      let (t, registered, set_up) = exits-zero a path vm_name nb_vcpus vcpus p p' h in
      let (exact', _, _, _) =
        register_vm-Exact a.tool vcpus vm_name path nb_vcpus p.tracker t string (omega arith) padded
          unused enough fits keys (vm_key vm_name) exact registered in
      let (vms, kept) = setup-same a.maps vm_name t in
      let found = setup-found vm_name string short a.maps t p'.tracker set_up in
      (
        Exact-same t p'.tracker (sym (ap (λ r. r.1.vms) set_up) ∙ vms)
            (sym (ap (λ r. r.1.vcpus) set_up) ∙ kept) exact',
        found.0,
        found.1,
      )
