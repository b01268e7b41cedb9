-- ===== src/Tools/RegisterVm/Watched.antt =====
-- pvsched-ebpf/host/user/register_vm.c, the eBPF programs and host_ivshmem.c together: a VM from its
-- registration to what its guest reads.
use phantom_tracker.Common.{
  ℕ, ◌*◌, ◌^◌, ◌<◌, ◌≡◌, ap, ◌∙◌, sym, arith, true, Option, some, List, lookup, lookup-insert_self,
  lookup-insert_ne, insert,
}
use phantom_tracker.Tracker.State.{Name, Name-discrete, Vm, GlobalState, Tracker}
use phantom_tracker.Tracker.Timer.{Readings}
use phantom_tracker.Tracker.Timer.Seen.{Mapped}
use phantom_tracker.Tracker.Register.{
  QmpVcpu, ToolAnswers, MapAnswers, vm_key, new_vm, new_buffer, register_vm, setup_vm_maps,
}
use phantom_tracker.Tracker.Register.Keys.{setup-found}
use phantom_tracker.Tracker.Register.Apart.{IsShort, own_keys, other_keys}
use phantom_tracker.Tracker.History.{TrackerEvent, call, run_tracker, Fits}
use phantom_tracker.Tracker.History.Located.{Located}
use phantom_tracker.Tracker.History.Collects.{new-Collects}
use phantom_tracker.Tracker.History.Sampled.{Sampled}
use phantom_tracker.Tracker.History.Published.{Shows, run_tracker-published}
use phantom_tracker.Tools.RegisterVm.{MainAnswers, Process, exit, register_and_setup}
use phantom_tracker.Tools.RegisterVm.Ready.{exits-zero, setup-same}

-- Every VM in the map has a name that the tools store whole.
abbrev pub AllShort : List (Name × Vm) → Type 0
AllShort vms =
    (n : Name) (v : Vm)
    → lookup Name-discrete n vms ≡ some v
    → (m : List ℕ) × IsShort m × (n ≡ vm_key m)

register_vm-vms :
    (a : ToolAnswers) (qs : List QmpVcpu) (vm_name path : List ℕ) (nb : ℕ) (t t' : Tracker)
    → register_vm a qs vm_name path nb t ≡ (true, t')
    → (t'.vms ≡ insert Name-discrete (vm_key vm_name) (new_vm path nb) t.vms) × (t'.shmem ≡ t.shmem)
unfolding register_vm
register_vm-vms a qs vm_name path nb t t' h = (ground arith, ground arith)

setup-shmem :
    (a : MapAnswers) (vm_name : List ℕ) (t : Tracker)
    → (setup_vm_maps a vm_name t).1.shmem ≡ t.shmem
unfolding setup_vm_maps
setup-shmem a vm_name t = ground arith

module _ (a : MainAnswers) (path vm_name : List ℕ) (nb : ℕ) (vcpus : List QmpVcpu) (p p' : Process)
    (name : IsShort vm_name) (others : AllShort p.tracker.vms) (fits : nb < 2 ^ 32)
    (done : register_and_setup a path vm_name nb vcpus p ≡ exit 0 p') where
  after :
      (p'.tracker.vms ≡ insert Name-discrete (vm_key vm_name) (new_vm path nb) p.tracker.vms)
      × (p'.tracker.shmem ≡ p.tracker.shmem)
  after =
      let (t, registered, set_up) = exits-zero a path vm_name nb vcpus p p' done in
      let (vms, shmem) = register_vm-vms a.tool vcpus vm_name path nb p.tracker t registered in
      (
        sym (ap (λ r. r.1.vms) set_up) ∙ (setup-same a.maps vm_name t).0 ∙ vms,
        sym (ap (λ r. r.1.shmem) set_up) ∙ setup-shmem a.maps vm_name t ∙ shmem,
      )

  new-Located :
      Located
        (vm_key vm_name)
        p'.tracker.vms
        p'.tracker.map_registry
        (new_vm path nb)
        new_buffer
        new_buffer
  new-Located =
      let (t, registered, set_up) = exits-zero a path vm_name nb vcpus p p' done in
      let (one, two) = setup-found vm_name name.string name.short a.maps t p'.tracker set_up in
      let at = λ (n : Name). ap (lookup Name-discrete n) after.0 in
      record {
        found =
            at (vm_key vm_name)
            ∙ lookup-insert_self Name-discrete (vm_key vm_name) (new_vm path nb) p.tracker.vms;
        one = one;
        two = two;
        own = own_keys vm_name name;
        apart = λ other v e ne.
            let old =
              sym (
                lookup-insert_ne Name-discrete (vm_key vm_name) other (new_vm path nb) p.tracker.vms
                  (λ q. ne (sym q)))
              ∙ sym (at other)
              ∙ e in
            let (m, short, same) = others other v old in
            rw same (other_keys vm_name name m short (λ q. ne (same ∙ q)));
      }

  -- The VM that the tool has registered is in the maps, with empty buffers that are its own.
  new-Sampled : Sampled (vm_key vm_name) nb p'.tracker 0 0
  new-Sampled = record {
    vm = new_vm path nb;
    buff_1 = new_buffer;
    buff_2 = new_buffer;
    located = new-Located;
    collects = new-Collects path nb fits;
  }

  -- Once the tool has registered a VM and exits with 0, any run of context switches and callbacks
  -- keeps the VM's samples in order, and after a callback of the VM the guest reads in the latest
  -- slot the time of that callback and a phantom average that does not exceed the number of vCPUs
  -- that was given to the tool. It needs names of at most 61 bytes without NUL, a number of vCPUs
  -- below 2^32, a mapped region at minor 1, and a run that is in order of time, in which other CPUs
  -- keep the VM's counter between zero and that number and a callback of the VM comes before 2^32
  -- samples. The end of the last span is below 2^64, and so is its product with that number.
  pub register_and_setup-published :
      (es : List TrackerEvent) (k : Readings) (g : Option GlobalState)
      → Mapped p.tracker
      → Fits (vm_key vm_name) nb k.end_time es 0 0
      → k.end_time < 2 ^ 64
      → nb * k.end_time < 2 ^ 64
      → let t = call k g (vm_key vm_name) (run_tracker es p'.tracker) in
        Sampled (vm_key vm_name) nb t k.start_time 1 × Shows k.ts nb t
  register_and_setup-published es k g m f stamped small =
      run_tracker-published (vm_key vm_name) nb es p'.tracker 0 0 k g f stamped small new-Sampled
        (record { backend = m.backend; mem = m.mem; there = rw after.1 m.there; mapped = m.mapped })
