-- ===== src/Tracker/Switch.antt =====
-- pvsched-ebpf/host/ebpf/create_maps/create_maps.bpf.c: the handler of `sched_switch`. The handler
-- runs as one step but for the phantom counter, which other CPUs may write while it retries.
pub mod Samples
pub mod Exact
pub mod Flags
pub mod Bounds
pub mod Spec
pub mod Documented
pub mod Refines
pub mod Represents
pub mod Recorded
pub mod Handled
use phantom_tracker.Common.{
  ℕ, ◌+◌, ◌*◌, ◌≡◌, ◌≢◌, Bool, true, false, ◌&&◌, ◌||◌, Option, none, some, List, [], ◌∷◌, ℤ,
  if◌then◌else◌, ◌==◌, ℕ_discrete, lookup, modify, u32,
}
use phantom_tracker.Abi.{Ret}
use phantom_tracker.Shmem.Host.{bpf_host_ivshmem_g2h_read}
use phantom_tracker.Tracker.State.{
  Name, Name-discrete, Vm, Vcpu, Sample, Buffer, update_elem, Tracker,
}
use phantom_tracker.Tracker.Keys.{digit_1, digit_2, collection_key}
use phantom_tracker.Tracker.Counter.{World, quiet, atomic_dec_if_pos, atomic_inc_if_lt_ceil}

abbrev pub task_running : ℕ
task_running = 0

abbrev pub task_waking : ℕ
task_waking = 0x200

-- struct trace_event_raw_sched_switch, with the clock readings of the two samples and what other
-- CPUs do to the counters meanwhile.
pub record Event : Type 0 where
  pub prev_pid : ℕ
  pub next_pid : ℕ
  pub prev_state : ℕ
  pub in_time : ℕ
  pub out_time : ℕ
  pub others_in : World
  pub others_out : World

abbrev msg_or_zero : Option ℕ → ℕ
msg_or_zero none = 0
msg_or_zero (some m) = m

-- `struct gh_message msg = {}` and the read whose result is ignored: an error leaves it at zero.
unfoldable pub run_state : Tracker → ℕ → ℕ
unfolding bpf_host_ivshmem_g2h_read
run_state t index = msg_or_zero (bpf_host_ivshmem_g2h_read t.shmem index (some 0)).1

-- `vm` is the value that the pointer into `vms` shows.
pub sample_in_buff_1 : Tracker → Name → Vm → Sample → Tracker
sample_in_buff_1 t name vm s =
    let key = collection_key digit_1 name in
    elim (lookup Name-discrete key t.map_registry) [
      | none ↦ t
      | some buff ↦ record t {
        vms =
            modify Name-discrete name
              (λ v. record v { collection_buff_1_index = u32 (vm.collection_buff_1_index + 1) })
              t.vms;
        map_registry =
            modify Name-discrete key (λ b. update_elem b vm.collection_buff_1_index s)
              t.map_registry;
      }
    ]

pub sample_in_buff_2 : Tracker → Name → Vm → Sample → Tracker
sample_in_buff_2 t name vm s =
    let key = collection_key digit_2 name in
    elim (lookup Name-discrete key t.map_registry) [
      | none ↦ t
      | some buff ↦ record t {
        vms =
            modify Name-discrete name
              (λ v. record v { collection_buff_2_index = u32 (vm.collection_buff_2_index + 1) })
              t.vms;
        map_registry =
            modify Name-discrete key (λ b. update_elem b vm.collection_buff_2_index s)
              t.map_registry;
      }
    ]

pub record_sample : Tracker → Name → Vm → ℤ → ℕ → Tracker
record_sample t name vm new_count now =
    let s : Sample = record { count = new_count; timestamp = now } in
    if vm.is_collectx_in_buff_1 == 1
    then sample_in_buff_1 t name vm s
    else sample_in_buff_2 t name vm s

-- What both halves do with the counter that the atomic operation gives: the value to record and
-- the word that stays.
pub store_count : Tracker → Name → Vm → ℤ × ℤ → ℕ → Tracker
store_count t name vm (new_count, word) now =
    record_sample
      (record t { vms = modify Name-discrete name (λ v. record v { phantom_count = word }) t.vms })
      name (record vm { phantom_count = word }) new_count now

pub set_phantom : Tracker → ℕ → ℕ → Tracker
set_phantom t pid flag = record t {
  vcpus = modify ℕ_discrete pid (λ v. record v { is_phantom = flag }) t.vcpus;
}

-- The compare-and-swap of the flag, and what follows where it succeeds.
pub clear_phantom : Event → Tracker → Vcpu → Tracker
clear_phantom e t vcpu =
    if run_state t vcpu.vcpu_index == 1 && vcpu.is_phantom == 1
    then elim (lookup Name-discrete vcpu.vm_name t.vms) [
      | none ↦ set_phantom t e.next_pid 0
      | some vm ↦
          store_count (set_phantom t e.next_pid 0) vcpu.vm_name vm
            (atomic_dec_if_pos e.others_in vm.phantom_count) e.in_time
    ]
    else t

-- The half for the incoming task. The number is the local `prev_state`, which only an incoming
-- vCPU sets.
pub switch_in : Event → Tracker → Tracker × ℕ
switch_in e t = elim (lookup ℕ_discrete e.next_pid t.vcpus) [
  | none ↦ (t, 0)
  | some vcpu ↦ (clear_phantom e t vcpu, e.prev_state)
]

-- The test of the outgoing half, the success of its compare-and-swap included.
abbrev pub marks : Tracker → ℕ → Vcpu → Bool
marks t prev_state vcpu =
    run_state t vcpu.vcpu_index == 1
    && (prev_state == task_running || prev_state == task_waking)
    && vcpu.is_phantom == 0

pub mark_phantom : Event → ℕ → Tracker → Vcpu → Tracker
mark_phantom e prev_state t vcpu =
    if marks t prev_state vcpu
    then elim (lookup Name-discrete vcpu.vm_name t.vms) [
      | none ↦ set_phantom t e.prev_pid 1
      | some vm ↦
          store_count (set_phantom t e.prev_pid 1) vcpu.vm_name vm
            (atomic_inc_if_lt_ceil e.others_out vm.phantom_count vm.nb_vcpus) e.out_time
    ]
    else t

-- The half for the outgoing task.
pub switch_out : Event → Tracker × ℕ → Tracker
switch_out e (t, prev_state) = elim (lookup ℕ_discrete e.prev_pid t.vcpus) [
  | none ↦ t
  | some vcpu ↦ mark_phantom e prev_state t vcpu
]

pub phantom_switch_handler : Event → Tracker → Tracker
phantom_switch_handler e t = switch_out e (switch_in e t)

-- Any number of context switches.
pub run : List Event → Tracker → Tracker
run [] t = t
run (e ∷ es) t = run es (phantom_switch_handler e t)
