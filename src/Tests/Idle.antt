-- ===== src/Tests/Idle.antt =====
-- The tracker of running tasks at concrete inputs: two CPUs, three samples.
use phantom_tracker.Common.{
  ℕ, ◌+◌, ◌≤◌, ◌≡◌, refl, some, none, arith, [], ◌∷◌, List, Option, pos, if◌then◌else◌, ◌==◌, ltb,
  true,
}
use phantom_tracker.Tracker.State.{GlobalState}
use phantom_tracker.Tracker.Idle.{
  IdleTracker, IdleElem, collectx_buff, sum_running, idle_avg_timer_cb,
}
use phantom_tracker.Tracker.Idle.History.{
  IdleEvent, switched, ticked, run_idle, Fits, run_idle-idle,
}
use phantom_tracker.Tracker.Idle.Published.{Sampling}

abbrev two_cpus : GlobalState
two_cpus = record {
  global_runnx_count = pos 0;
  collection_buff_1_index = 2;
  collection_buff_2_index = 0;
  is_collectx_in_buff_1 = 1;
  nb_cpus = 2;
  last_idle_avg = 0;
  global_runnx_avg = 0;
}

-- One task from time 10 on, two from time 20 on.
abbrev two_samples : IdleTracker
two_samples = record {
  state = some two_cpus;
  buff_1 = record {
    max_entries = 3000;
    elem = λ k.
        if k == 0
        then record { count = pos 1; timestamp = 10 }
        else (if k == 1
            then record { count = pos 2; timestamp = 20 }
            else record { count = pos 0; timestamp = 0 });
  };
  buff_2 = collectx_buff;
}

abbrev busy : List (Option ℕ)
busy = some 1 ∷ none ∷ some 1 ∷ []

two_samples-Sampling : Sampling two_samples two_cpus 20 2
two_samples-Sampling = record {
  has_state = refl;
  flag = omega arith;
  collected = record {
    some_room = omega arith;
    indexed = omega arith;
    ascending = λ k l r. ground arith;
    past = λ k l r. ground arith;
    ranged = λ k l r. ground arith;
  };
  entries_1 = refl;
  entries_2 = refl;
}

busy-few : sum_running busy ≤ 2
unfolding sum_running
busy-few = omega arith

abbrev armed_timer : IdleElem
armed_timer = record { started = 1; armed = true }

-- A switch, a tick, and a switch.
abbrev three_events : List IdleEvent
three_events = switched busy 30 ∷ ticked busy 40 ∷ switched [] 50 ∷ []

three_events-Fits : Fits 2 60 three_events 2 20
unfolding sum_running
three_events-Fits = (
  (omega arith, omega arith),
  omega arith,
  ((omega arith, omega arith), ((omega arith, omega arith), omega arith, omega arith)),
)

run_idle-idle_example :
    (g' : GlobalState) × ((idle_avg_timer_cb busy 60 armed_timer
        (run_idle armed_timer three_events two_samples)).1.state
      ≡ some g')
    × (g'.global_runnx_avg ≤ 2)
    × (g'.nb_cpus ≡ 2)
    × (g'.last_idle_avg + g'.global_runnx_avg
        ≡ (if ltb 2 g'.global_runnx_avg then g'.global_runnx_avg else 2))
run_idle-idle_example =
    run_idle-idle armed_timer 2 60 three_events two_samples two_cpus 20 busy two_samples-Sampling
      three_events-Fits busy-few (omega arith) (omega arith)
