-- ===== src/Tracker/Idle.antt =====
-- pvsched-ebpf/host/ebpf/idle_avg/global_running_tracker.bpf.c: how many tasks run on all CPUs, sampled
-- at every context switch, averaged by a timer, and taken from the number of CPUs. A handler runs as
-- one step.
pub mod Published
pub mod History
use phantom_tracker.Common.{
  ℕ, zero, suc, ◌+◌, ◌-◌, ◌≡◌, Bool, true, false, Option, none, some, List, [], ◌∷◌, ℤ, pos,
  if◌then◌else◌, ◌==◌, ltb, not, u32,
}
use phantom_tracker.Tracker.State.{Sample, Buffer, GlobalState, update_elem}
use phantom_tracker.Tracker.Average.{AvgCtx, phantom_avg_cb, for_each_elem, fresh_ctx, average}

-- The maps: the state, and two arrays of samples.
pub record IdleTracker : Type 0 where
  pub state : Option GlobalState
  pub buff_1 : Buffer
  pub buff_2 : Buffer

-- collectx_buff_1 and collectx_buff_2 when they are created.
abbrev pub collectx_buff : Buffer
collectx_buff = record { max_entries = 3000; elem = λ k. record { count = pos 0; timestamp = 0 } }

-- struct elem: claimed by a handler, and set up and armed.
pub record IdleElem : Type 0 where
  pub started : ℕ
  pub armed : Bool

-- The unrolled loop over the CPUs that the Makefile writes: each run queue's `nr_running`, or none
-- where `bpf_per_cpu_ptr` gives NULL.
unfoldable pub sum_running : List (Option ℕ) → ℕ
sum_running [] = 0
sum_running (none ∷ rqs) = sum_running rqs
sum_running (some nr_running ∷ rqs) = nr_running + sum_running rqs

-- The same text as `phantom_avg_cb` of timer.bpf.c, over samples of the same fields.
abbrev pub nr_running_avg_sample_cb : Buffer → ℕ → Sample → AvgCtx → AvgCtx
nr_running_avg_sample_cb = phantom_avg_cb

record_running : Sample → GlobalState → IdleTracker → IdleTracker
record_running s g t =
    if g.is_collectx_in_buff_1 == 1
    then record t {
      state = some (record g { collection_buff_1_index = u32 (g.collection_buff_1_index + 1) });
      buff_1 = update_elem t.buff_1 g.collection_buff_1_index s;
    }
    else record t {
      state = some (record g { collection_buff_2_index = u32 (g.collection_buff_2_index + 1) });
      buff_2 = update_elem t.buff_2 g.collection_buff_2_index s;
    }

unfoldable pub global_running_tracker_switch_handler :
    List (Option ℕ) → ℕ → IdleTracker → IdleTracker
unfolding record_running
global_running_tracker_switch_handler rqs now t = elim t.state [
  | none ↦ t
  | some g ↦ record_running (record { count = pos (sum_running rqs); timestamp = now }) g t
]

-- The buffers and the state after a swap, and which buffer ended at which index.
pub record Ended : Type 0 where
  pub state : GlobalState
  pub buff_1 : Buffer
  pub buff_2 : Buffer
  pub map_to_process : Buffer
  pub nb_samples : ℕ

unfoldable pub end_buff_1 : Sample → GlobalState → IdleTracker → Ended
end_buff_1 boundary g t =
    let end_idx = g.collection_buff_1_index in
    let closed = update_elem t.buff_1 end_idx boundary in
    record {
      state = record g {
        collection_buff_2_index = 1;
        is_collectx_in_buff_1 = if g.is_collectx_in_buff_1 == 1 then 0 else g.is_collectx_in_buff_1;
        collection_buff_1_index = u32 (end_idx + 1);
      };
      buff_1 = closed;
      buff_2 = update_elem t.buff_2 0 boundary;
      map_to_process = closed;
      nb_samples = end_idx;
    }

unfoldable pub end_buff_2 : Sample → GlobalState → IdleTracker → Ended
end_buff_2 boundary g t =
    let end_idx = g.collection_buff_2_index in
    let closed = update_elem t.buff_2 end_idx boundary in
    record {
      state = record g {
        collection_buff_1_index = 1;
        is_collectx_in_buff_1 = if g.is_collectx_in_buff_1 == 0 then 1 else g.is_collectx_in_buff_1;
        collection_buff_2_index = u32 (end_idx + 1);
      };
      buff_1 = update_elem t.buff_1 0 boundary;
      buff_2 = closed;
      map_to_process = closed;
      nb_samples = end_idx;
    }

-- The average of the buffer that ended, and the CPUs that it leaves.
unfoldable pub publish_idle : Ended → IdleTracker
publish_idle e =
    let avg = average (
      for_each_elem nr_running_avg_sample_cb e.map_to_process e.map_to_process.max_entries 0
        (fresh_ctx e.nb_samples)) in
    record {
      state = some (record e.state {
        global_runnx_avg = avg;
        last_idle_avg = if ltb e.state.nb_cpus avg then 0 else e.state.nb_cpus - avg;
      });
      buff_1 = e.buff_1;
      buff_2 = e.buff_2;
    }

unfoldable pub end_active : Sample → GlobalState → IdleTracker → Ended
unfolding end_buff_1 end_buff_2
end_active boundary g t =
    if g.is_collectx_in_buff_1 == 1 then end_buff_1 boundary g t else end_buff_2 boundary g t

unfoldable pub idle_avg_timer_cb :
    List (Option ℕ) → ℕ → IdleElem → IdleTracker → IdleElem × IdleTracker
unfolding publish_idle end_active
idle_avg_timer_cb rqs now val t = (
  record val { armed = true },
  elim t.state [
    | none ↦ t
    | some g ↦
        publish_idle (end_active (record { count = pos (sum_running rqs); timestamp = now }) g t)
  ],
)

-- The handler of the first context switch; `init` says whether `bpf_timer_init` succeeds.
pub global_running_tracker_timer_init : Bool → IdleElem → IdleElem
global_running_tracker_timer_init init e =
    if not (e.started == 0)
    then record e { started = 1 }
    else (if init then record e { started = 1; armed = true } else record e { started = 0 })
