-- ===== src/Tracker/Register.antt =====
-- pvsched-ebpf/host/include/register_vm.h: the registration of a VM in the pinned maps, by the command
-- line tools of pvsched-ebpf/host/user. A call that can fail is a Boolean, true where it succeeds.
pub mod Keys
pub mod Fresh
pub mod Apart
pub mod Cleanup
pub mod Directory
use phantom_tracker.Common.{
  ℕ, zero, suc, ◌+◌, ◌-◌, ◌≡◌, Bool, true, false, not, ◌&&◌, List, [], ◌∷◌, ◌++◌, if◌then◌else◌,
  ◌==◌, pos, ℕ_discrete, ite, insert, delete, take, u32,
}
use phantom_tracker.Tracker.State.{
  vm_name_len, Name, Name-discrete, Vm, Vcpu, Sample, Buffer, Tracker,
}
use phantom_tracker.Tracker.Keys.{underscore, digit_1, digit_2}

-- A zeroed array of `n` bytes into which the bytes of a string are copied.
unfoldable pub pad : ℕ → List ℕ → Name
pad zero xs = []
pad (suc n) [] = 0 ∷ pad n []
pad (suc n) (x ∷ xs) = x ∷ pad n xs

-- The bytes in front of the first NUL.
unfoldable pub c_string : Name → List ℕ
c_string [] = []
c_string (x ∷ xs) = if x == 0 then [] else x ∷ c_string xs

-- `memset(vm_key, 0, 64)` and `strncpy(vm_key, vm_name, 63)`.
unfoldable pub vm_key : List ℕ → Name
vm_key vm_name = pad vm_name_len (take (vm_name_len - 1) vm_name)

-- `memset(key, 0, 64)` and `snprintf(key, 64, "%s_1", vm_name)`.
unfoldable pub registry_key : ℕ → List ℕ → Name
registry_key digit vm_name =
    pad vm_name_len (take (vm_name_len - 1) (vm_name ++ (underscore ∷ digit ∷ [])))

-- struct qmp_vpcu, as unsigned numbers.
pub record QmpVcpu : Type 0 where
  pub cpu_index : ℕ
  pub thread_id : ℕ

-- `keys` stands for the allocation and every growth of the list of keys.
pub record ToolAnswers : Type 0 where
  pub malloc_vm : Bool
  pub open_vms : Bool
  pub open_vcpus : Bool
  pub keys : Bool
  pub update_vm : Bool
  pub add_vcpu : ℕ → Bool

-- The two loops: the keys whose VM name compares equal as a string, and their deletion.
unfoldable pub delete_of : List ℕ → List (ℕ × Vcpu) → List (ℕ × Vcpu)
delete_of vm_name [] = []
delete_of vm_name ((k, v) ∷ m) =
    let rest = delete_of vm_name m in
    ite (Name-discrete (c_string v.vm_name) vm_name) rest ((k, v) ∷ rest)

unfoldable pub cleanup_stale_vcpus : Bool → List ℕ → List (ℕ × Vcpu) → List (ℕ × Vcpu)
unfolding delete_of
cleanup_stale_vcpus keys vm_name vcpus = if keys then delete_of vm_name vcpus else vcpus

abbrev pub new_vcpu : List ℕ → QmpVcpu → Vcpu
new_vcpu vm_name q = record { vcpu_index = q.cpu_index; vm_name = vm_key vm_name; is_phantom = 0 }

-- The loop over the list behind its dummy head; it stops at the first failure, keeping what it
-- added.
unfoldable pub add_vcpus :
    (ℕ → Bool) → ℕ → List ℕ → List QmpVcpu → List (ℕ × Vcpu) → Bool × List (ℕ × Vcpu)
add_vcpus add i vm_name [] vcpus = (true, vcpus)
add_vcpus add i vm_name (q ∷ qs) vcpus =
    let rest =
      add_vcpus add (i + 1) vm_name qs (insert ℕ_discrete q.thread_id (new_vcpu vm_name q) vcpus) in
    if add i then rest else (false, vcpus)

abbrev pub new_vm : List ℕ → ℕ → Vm
new_vm qmp_socket nb_vcpus = record {
  qmp_socket = pad 128 (take 127 qmp_socket);
  phantom_count = pos 0;
  collection_buff_1_index = 0;
  collection_buff_2_index = 0;
  is_collectx_in_buff_1 = 0;
  nb_vcpus = u32 nb_vcpus;
  h2g_history_index = 0;
}

unfoldable pub register_vm :
    ToolAnswers → List QmpVcpu → List ℕ → List ℕ → ℕ → Tracker → Bool × Tracker
unfolding cleanup_stale_vcpus
register_vm a vcpus vm_name qmp_socket nb_vcpus t =
    if not (a.malloc_vm && a.open_vms && a.open_vcpus)
    then (false, t)
    else (let cleaned = cleanup_stale_vcpus a.keys vm_name t.vcpus in
        let (ret, added) = add_vcpus a.add_vcpu 0 vm_name vcpus cleaned in
        if not a.update_vm then (false, record t { vcpus = cleaned }) else (
          ret,
          record t {
            vms = insert Name-discrete (vm_key vm_name) (new_vm qmp_socket nb_vcpus) t.vms;
            vcpus = added;
          },
        ))

-- What setting up the buffers calls, in order.
pub record MapAnswers : Type 0 where
  pub open_registry : Bool
  pub mkdir : Bool
  pub create_1 : Bool
  pub pin_1 : Bool
  pub create_2 : Bool
  pub pin_2 : Bool
  pub update_1 : Bool
  pub update_2 : Bool

-- bpf_map_create: an array of VM_MAP_MAX_ENTRIES zeroed samples.
abbrev pub new_buffer : Buffer
new_buffer = record { max_entries = 1000000; elem = λ k. record { count = pos 0; timestamp = 0 } }

unfoldable pub setup_vm_maps : MapAnswers → List ℕ → Tracker → Bool × Tracker
setup_vm_maps a vm_name t =
    if not
      (a.open_registry && a.mkdir && a.create_1 && a.pin_1 && a.create_2 && a.pin_2 && a.update_1)
    then (false, t)
    else (let one = insert Name-discrete (registry_key digit_1 vm_name) new_buffer t.map_registry in
        if not a.update_2 then (false, record t { map_registry = one }) else (
          true,
          record t {
            map_registry = insert Name-discrete (registry_key digit_2 vm_name) new_buffer one;
          },
        ))
