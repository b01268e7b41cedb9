-- ===== src/Tests/Tracker.antt =====
-- The phantom tracker at concrete inputs: one VM with two vCPUs, both running OpenMP threads.
use phantom_tracker.Common.{
  ℕ, List, false, refl, pos, some, arith, [], ◌∷◌, replicate, lookup, count_if,
}
use phantom_tracker.Shmem.Host.{Registry, empty_registry, set_device}
use phantom_tracker.Tracker.State.{Name, Vm, Vcpu, Tracker}
use phantom_tracker.Tracker.Counter.{quiet}
use phantom_tracker.Tracker.Switch.{Event, run}
use phantom_tracker.Tracker.Switch.Exact.{Exact, run-Exact}
use phantom_tracker.Tracker.Switch.Spec.{Phantoms}
use phantom_tracker.Tracker.Switch.Represents.{Represents}
use phantom_tracker.Tests.Shmem.{small_backend}

abbrev pub name_a : Name
name_a = b'a' ∷ replicate 63 0

abbrev pub vm_a : Vm
vm_a = record {
  qmp_socket = [];
  phantom_count = pos 0;
  collection_buff_1_index = 1;
  collection_buff_2_index = 0;
  is_collectx_in_buff_1 = 1;
  nb_vcpus = 2;
  h2g_history_index = 0;
}

abbrev pub vcpu_a : ℕ → Vcpu
vcpu_a index = record { vcpu_index = index; vm_name = name_a; is_phantom = 0 }

-- The guest reports an OpenMP thread on every CPU.
abbrev pub busy_registry : Registry
busy_registry = set_device empty_registry 1 (some (record small_backend { mem = some (λ x. 1) }))

abbrev pub two_vcpus : Tracker
two_vcpus = record {
  vms = (name_a, vm_a) ∷ [];
  vcpus = (10, vcpu_a 0) ∷ (11, vcpu_a 1) ∷ [];
  map_registry = [];
  shmem = busy_registry;
}

-- Thread 10 leaves its CPU to a task that is no vCPU, in a state (1) that is not running.
abbrev pub sleeps : Event
sleeps = record {
  prev_pid = 10;
  next_pid = 5;
  prev_state = 1;
  in_time = 100;
  out_time = 101;
  others_in = quiet;
  others_out = quiet;
}

pub two_vcpus-Exact : Exact two_vcpus
unfolding lookup count_if
two_vcpus-Exact = record { counts = λ n vm e. ground arith; room = λ n vm e. ground arith }

run-Exact_example : Exact (run (sleeps ∷ sleeps ∷ []) two_vcpus)
run-Exact_example =
    run-Exact (sleeps ∷ sleeps ∷ []) two_vcpus ((refl, refl), ((refl, refl), tt)) two_vcpus-Exact

-- A host task preempts thread 10, thread 11 comes in, then thread 10 again as thread 11 sleeps.
abbrev trace : List Event
trace =
    record sleeps { prev_state = 0 }
    ∷ record sleeps { prev_pid = 5; next_pid = 11 }
    ∷ record sleeps { prev_pid = 11; next_pid = 10 }
    ∷ []

abbrev nobody : Phantoms
nobody = λ pid. false
