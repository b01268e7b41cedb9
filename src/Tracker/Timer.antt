-- ===== src/Tracker/Timer.antt =====
-- pvsched-ebpf/host/ebpf/timer/timer.bpf.c: the timer that swaps the two buffers of every VM,
-- averages the one that ended and publishes a watermark. A callback for one VM runs as one step.
pub mod Collected
pub mod Swap
pub mod Exact
pub mod Seen
pub mod Called
pub mod Claim
use phantom_tracker.Common.{
  ℕ, zero, suc, ◌+◌, ◌≡◌, Bool, true, false, Option, none, some, List, [], ◌∷◌, if◌then◌else◌, ◌==◌,
  not, lookup, modify, u32, u64,
}
use phantom_tracker.Tracker.State.{
  Name, Name-discrete, Vm, Sample, Buffer, GlobalState, update_elem, Tracker,
}
use phantom_tracker.Tracker.Keys.{digit_1, digit_2, collection_key}
use phantom_tracker.Tracker.Average.{phantom_average}
use phantom_tracker.Tracker.Watermark.{next_history_slot, write_watermark}

-- The clock readings of one callback, in order.
pub record Readings : Type 0 where
  pub end_time : ℕ
  pub start_time : ℕ
  pub ts : ℕ

-- What a callback has done with the buffers: the VM, both buffers, and the average of the one
-- that ended.
pub record Swapped : Type 0 where
  pub vm : Vm
  pub buff_1 : Buffer
  pub buff_2 : Buffer
  pub avg : ℕ

abbrev pub sample_of : Vm → ℕ → Sample
sample_of vm time = record { count = vm.phantom_count; timestamp = time }

-- Collecting in buffer 1: start buffer 2, switch to it, close buffer 1.
unfoldable pub swap_to_2 : Readings → Vm → Buffer → Buffer → Swapped
swap_to_2 k vm buff_1 buff_2 =
    let end_idx = vm.collection_buff_1_index in
    let closed = update_elem buff_1 end_idx (sample_of vm k.end_time) in
    record {
      vm = record vm {
        collection_buff_2_index = 1;
        is_collectx_in_buff_1 =
            if vm.is_collectx_in_buff_1 == 1 then 0 else vm.is_collectx_in_buff_1;
        collection_buff_1_index = u32 (end_idx + 1);
      };
      buff_1 = closed;
      buff_2 = update_elem buff_2 0 (sample_of vm k.start_time);
      avg = phantom_average closed end_idx;
    }

-- Collecting in buffer 2: the other way round.
unfoldable pub swap_to_1 : Readings → Vm → Buffer → Buffer → Swapped
swap_to_1 k vm buff_1 buff_2 =
    let end_idx = vm.collection_buff_2_index in
    let closed = update_elem buff_2 end_idx (sample_of vm k.end_time) in
    record {
      vm = record vm {
        collection_buff_1_index = 1;
        is_collectx_in_buff_1 =
            if vm.is_collectx_in_buff_1 == 0 then 1 else vm.is_collectx_in_buff_1;
        collection_buff_2_index = u32 (end_idx + 1);
      };
      buff_1 = update_elem buff_1 0 (sample_of vm k.start_time);
      buff_2 = closed;
      avg = phantom_average closed end_idx;
    }

unfoldable pub swap_buffers : Readings → Vm → Buffer → Buffer → Swapped
swap_buffers k vm buff_1 buff_2 =
    if vm.is_collectx_in_buff_1 == 1
    then swap_to_2 k vm buff_1 buff_2
    else swap_to_1 k vm buff_1 buff_2

abbrev pub idle_avg_of : Option GlobalState → ℕ
idle_avg_of none = 0
idle_avg_of (some g) = g.last_idle_avg

-- The callback's tail: store the buffers, advance the history, publish.
pub publish : Readings → Option GlobalState → Name → Tracker → Swapped → Tracker
publish k gstate name t s =
    let (history_slot, vm) = next_history_slot s.vm in
    record t {
      vms = modify Name-discrete name (λ v. vm) t.vms;
      map_registry =
          modify Name-discrete (collection_key digit_2 name) (λ b. s.buff_2)
            (modify Name-discrete (collection_key digit_1 name) (λ b. s.buff_1) t.map_registry);
      shmem = write_watermark t.shmem history_slot k.ts s.avg (idle_avg_of gstate);
    }

-- `name` and `vm` are the key and the value of the entry that the iteration shows.
pub callback_fn : Readings → Option GlobalState → Tracker → Name → Vm → Tracker
callback_fn k gstate t name vm =
    elim (lookup Name-discrete (collection_key digit_1 name) t.map_registry) [
      | none ↦ t
      | some buff_1 ↦ elim (lookup Name-discrete (collection_key digit_2 name) t.map_registry) [
        | none ↦ t
        | some buff_2 ↦ publish k gstate name t (swap_buffers k vm buff_1 buff_2)
      ]
    ]

-- struct elem: the counter, whether the handler has claimed the timer, and whether it is set up and
-- armed.
pub record Elem : Type 0 where
  pub counter : ℕ
  pub started : ℕ
  pub armed : Bool

-- `bpf_for_each_map_elem` over `vms`: each name once, with the value that is there by then.
for_each_vm : (ℕ → Readings) → Option GlobalState → List (Name × Vm) → ℕ → Tracker → Tracker
for_each_vm clock gstate [] i t = t
for_each_vm clock gstate ((name, _) ∷ rest) i t =
    for_each_vm clock gstate rest (i + 1) (elim (lookup Name-discrete name t.vms) [
      | none ↦ t
      | some vm ↦ callback_fn (clock i) gstate t name vm
    ])

-- `clock` gives the readings of the callback for each VM in turn.
pub timer_cb : (ℕ → Readings) → Option GlobalState → Elem → Tracker → Elem × Tracker
unfolding for_each_vm
timer_cb clock gstate val t = (
  record val { counter = u64 (val.counter + 1); armed = true },
  for_each_vm clock gstate t.vms 0 t,
)

-- The handler of the first context switch; `init` says whether `bpf_timer_init` succeeds. The two
-- calls behind it, whose results are ignored, succeed here, and may fail in Claim.
pub phantom_timer_handler : Bool → Elem → Elem
phantom_timer_handler init e =
    if not (e.started == 0)
    then record e { started = 1 }
    else (if init then record e { started = 1; armed = true } else record e { started = 0 })
