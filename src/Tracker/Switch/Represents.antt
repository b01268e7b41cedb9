-- ===== src/Tracker/Switch/Represents.antt =====
-- create_maps.bpf.c: any number of context switches against the specification.
use phantom_tracker.Common.{ℕ, ◌≡◌, some, List, pos}
use phantom_tracker.Tracker.State.{Name, Vcpu, Vm, Tracker}
use phantom_tracker.Tracker.Switch.Samples.{find}
use phantom_tracker.Tracker.Switch.Exact.{Exact}
use phantom_tracker.Tracker.Switch.Spec.{Phantoms, members, flag_all}
use phantom_tracker.Tracker.Switch.Refines.{Refines}

-- A state in which the flags of the vCPUs `m` are those of the set, and every VM's counter is the
-- number of its vCPUs in the set.
pub record Represents (s : Phantoms) (m : List (ℕ × Vcpu)) (t : Tracker) : Type 0 where
  pub vcpus : t.vcpus ≡ flag_all s m
  pub counts : (n : Name) (vm : Vm) → find t n ≡ some vm → vm.phantom_count ≡ pos (members n s m)
