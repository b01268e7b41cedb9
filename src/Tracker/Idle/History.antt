-- ===== src/Tracker/Idle/History.antt =====
-- global_running_tracker.bpf.c: the tracker over any sequence of context switches and ticks.
use phantom_tracker.Common.{
  ℕ, ◌+◌, ◌*◌, ◌≤◌, ◌<◌, ◌^◌, ◌≡◌, refl, ◌∙◌, arith, if◌then◌else◌, ltb, Option, some, List, [],
  ◌∷◌,
}
use phantom_tracker.Tracker.State.{GlobalState}
use phantom_tracker.Tracker.Idle.{
  IdleTracker, IdleElem, sum_running, idle_avg_timer_cb, global_running_tracker_switch_handler,
}
use phantom_tracker.Tracker.Idle.Published.{
  Sampling, active_index, moved, switch-Sampling, tick-Sampling, tick-idle,
}

-- What the programs are called for, with the run queues and the time that they find.
pub data IdleEvent : Type 0 where
  switched : List (Option ℕ) → ℕ → IdleEvent
  ticked : List (Option ℕ) → ℕ → IdleEvent

pub run_idle : IdleElem → List IdleEvent → IdleTracker → IdleTracker
run_idle val [] t = t
run_idle val (switched rqs time ∷ es) t =
    run_idle val es (global_running_tracker_switch_handler rqs time t)
run_idle val (ticked rqs time ∷ es) t = run_idle val es (idle_avg_timer_cb rqs time val t).1

-- The events are in order of time up to `end_time`, find at most `ceil_val` running tasks, and come
-- often enough for a tick before the 32-bit index of the active buffer, which is `n`, wraps around.
abbrev pub Fits : ℕ → ℕ → List IdleEvent → ℕ → ℕ → Type 0
Fits ceil_val end_time [] n now = now ≤ end_time
Fits ceil_val end_time (switched rqs time ∷ es) n now =
    ((now ≤ time) × (sum_running rqs ≤ ceil_val))
    × (n + 1 < 2 ^ 32)
    × Fits ceil_val end_time es (n + 1) time
Fits ceil_val end_time (ticked rqs time ∷ es) n now =
    ((now ≤ time) × (sum_running rqs ≤ ceil_val)) × Fits ceil_val end_time es 1 time

module _ (val : IdleElem) (ceil_val end_time : ℕ) where
  -- The tracker stays in order, and keeps its number of CPUs.
  run_idle-Sampling :
      (es : List IdleEvent) (t : IdleTracker) (g : GlobalState) (n now : ℕ)
      → Sampling t g now ceil_val
      → active_index g ≡ n
      → Fits ceil_val end_time es n now
      → (g' : GlobalState) × (last : ℕ) × (last ≤ end_time)
        × (g'.nb_cpus ≡ g.nb_cpus)
        × Sampling (run_idle val es t) g' last ceil_val
  unfolding run_idle
  run_idle-Sampling [] t g n now s e f = (g, now, f, refl, s)
  run_idle-Sampling (switched rqs time ∷ es) t g n now s e ((later, few), room, rest) =
      let (next, index) =
        switch-Sampling rqs t g now time ceil_val s later few (omega (arith, e)) in
      let (g', last, before, cpus, kept) =
        run_idle-Sampling es _ (moved g) (n + 1) time next (omega (arith, e, index)) rest in
      (g', last, before, cpus ∙ ground arith, kept)
  run_idle-Sampling (ticked rqs time ∷ es) t g n now s e ((later, few), rest) =
      let (next, index) = tick-Sampling rqs val t g now time ceil_val s later few in
      run_idle-Sampling es _ _ 1 time next index rest

  -- For a tracker whose active buffer holds samples in order of time, over any sequence of context
  -- switches and ticks that is in order of time, finds at most a given number of running tasks, and
  -- has a tick before 2^32 samples: a tick at its end publishes an average that does not exceed
  -- that number, also where the buffer has long been full, and what it publishes as idle makes it
  -- up to the number of CPUs, unless it is greater. The time of the tick is below 2^64, and so is
  -- its product with the number of tasks.
  pub run_idle-idle :
      (es : List IdleEvent) (t : IdleTracker) (g : GlobalState) (now : ℕ) (rqs : List (Option ℕ))
      → Sampling t g now ceil_val
      → Fits ceil_val end_time es (active_index g) now
      → sum_running rqs ≤ ceil_val
      → end_time < 2 ^ 64
      → ceil_val * end_time < 2 ^ 64
      → (g' : GlobalState) × ((idle_avg_timer_cb rqs end_time val (run_idle val es t)).1.state
          ≡ some g')
        × (g'.global_runnx_avg ≤ ceil_val)
        × (g'.nb_cpus ≡ g.nb_cpus)
        × (g'.last_idle_avg + g'.global_runnx_avg
            ≡ (if ltb g.nb_cpus g'.global_runnx_avg then g'.global_runnx_avg else g.nb_cpus))
  run_idle-idle es t g now rqs s f few stamped small =
      let (h, last, before, cpus, kept) = run_idle-Sampling es t g _ now s refl f in
      let (g', state, below, same, sum) =
        tick-idle rqs val (run_idle val es t) h last end_time ceil_val kept before few stamped
          small in
      (g', state, below, same ∙ cpus, rw cpus at sum)
