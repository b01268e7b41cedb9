-- ===== src/Tracker/State.antt =====
-- The maps of pvsched-ebpf/host: register_vm_bpf.h, phantom_tracker.h, and the map declarations of
-- create_maps.bpf.c, which timer.bpf.c declares again for the same pinned maps.
use Prim.Native.Nat.{ℕ}
use phantom_tracker.Common.{Option, none, some, List, ℤ, if◌then◌else◌, ltb, ◌==◌, ℕ_discrete}
use phantom_tracker.Shmem.Host.{Registry}

abbrev pub vm_name_len : ℕ
vm_name_len = 64

-- `char[VM_NAME_LEN]`: its bytes.
abbrev pub Name : Type 0
Name = List ℕ

pub Name-discrete : Discrete Name
Name-discrete = hlevel ℕ_discrete

-- struct vm_t; the count is signed, the indices are 32 bits wide.
pub record Vm : Type 0 where
  pub qmp_socket : List ℕ
  pub phantom_count : ℤ
  pub collection_buff_1_index : ℕ
  pub collection_buff_2_index : ℕ
  pub is_collectx_in_buff_1 : ℕ
  pub nb_vcpus : ℕ
  pub h2g_history_index : ℕ

-- struct vcpu_t
pub record Vcpu : Type 0 where
  pub vcpu_index : ℕ
  pub vm_name : Name
  pub is_phantom : ℕ

-- struct phantom_count, and struct global_runnx_sample, which has the same fields.
pub record Sample : Type 0 where
  pub count : ℤ
  pub timestamp : ℕ

-- BPF_MAP_TYPE_ARRAY: every index below `max_entries` has a value, and no other one.
pub record Buffer : Type 0 where
  pub max_entries : ℕ
  pub elem : ℕ → Sample

abbrev pub lookup_elem : Buffer → ℕ → Option Sample
lookup_elem b k = if ltb k b.max_entries then some (b.elem k) else none

-- An index out of range is refused; no caller looks at the result.
abbrev pub update_elem : Buffer → ℕ → Sample → Buffer
update_elem b k s =
    if ltb k b.max_entries then record b { elem = λ j. if j == k then s else b.elem j } else b

-- struct global_runnx_tracker_state; `last_idle_avg` is what the timer of the tracker reads.
pub record GlobalState : Type 0 where
  pub global_runnx_count : ℤ
  pub collection_buff_1_index : ℕ
  pub collection_buff_2_index : ℕ
  pub is_collectx_in_buff_1 : ℕ
  pub nb_cpus : ℕ
  pub last_idle_avg : ℕ
  pub global_runnx_avg : ℕ

-- The pinned maps, and the registry of host_ivshmem.ko. A buffer of `map_registry` belongs to its
-- key alone, so it stands in the map itself.
pub record Tracker : Type 0 where
  pub vms : List (Name × Vm)
  pub vcpus : List (ℕ × Vcpu)
  pub map_registry : List (Name × Buffer)
  pub shmem : Registry
