-- ===== src/Tracker/Idle/Published.antt =====
-- global_running_tracker.bpf.c: what the timer publishes.
use phantom_tracker.Common.{
  ℕ, ◌-◌, ◌*◌, ◌^◌, ◌≤◌, ◌<◌, ◌≡◌, refl, arith, if◌then◌else◌, ◌==◌, true, Bool-cases, inl, inr,
  ltb, ◌+◌, u32, Option, some, List, pos,
}
use phantom_tracker.Tracker.State.{Sample, Buffer, GlobalState, update_elem}
use phantom_tracker.Tracker.Average.{phantom_average}
use phantom_tracker.Tracker.Timer.Collected.{
  Collected, open-Collected, append-Collected, ended-average,
}
use phantom_tracker.Tracker.Idle.{
  IdleTracker, IdleElem, sum_running, end_active, end_buff_1, end_buff_2, publish_idle,
  idle_avg_timer_cb, global_running_tracker_switch_handler,
}

abbrev pub active : GlobalState → Buffer → Buffer → Buffer
active g buff_1 buff_2 = if g.is_collectx_in_buff_1 == 1 then buff_1 else buff_2

abbrev pub active_index : GlobalState → ℕ
active_index g =
    if g.is_collectx_in_buff_1 == 1 then g.collection_buff_1_index else g.collection_buff_2_index

-- The tracker between two events: the flag is 0 or 1, and the active buffer holds samples in order
-- of time, none later than `now`, of at most `ceil_val` tasks.
pub record Sampling (t : IdleTracker) (g : GlobalState) (now ceil_val : ℕ) : Type 0 where
  pub has_state : t.state ≡ some g
  pub flag : g.is_collectx_in_buff_1 ≤ 1
  pub collected : Collected (active g t.buff_1 t.buff_2) (active_index g) now ceil_val
  pub entries_1 : t.buff_1.max_entries ≡ 3000
  pub entries_2 : t.buff_2.max_entries ≡ 3000

abbrev pub taken : List (Option ℕ) → ℕ → Sample
taken rqs time = record { count = pos (sum_running rqs); timestamp = time }

-- The state after a context switch: the active buffer's index has moved.
abbrev pub moved : GlobalState → GlobalState
moved g =
    if g.is_collectx_in_buff_1 == 1
    then record g { collection_buff_1_index = u32 (g.collection_buff_1_index + 1) }
    else record g { collection_buff_2_index = u32 (g.collection_buff_2_index + 1) }

module _ (rqs : List (Option ℕ)) (t : IdleTracker) (g : GlobalState) (now time ceil_val : ℕ)
    (s : Sampling t g now ceil_val) (later : now ≤ time) (few : sum_running rqs ≤ ceil_val) where
  -- A context switch adds one sample to the active buffer, unless it is full, and what the tracker
  -- holds stays in order, as long as the 32-bit index does not wrap around.
  pub switch-Sampling :
      active_index g + 1 < 2 ^ 32
      → Sampling (global_running_tracker_switch_handler rqs time t) (moved g) time ceil_val
        × (active_index (moved g) ≡ active_index g + 1)
  unfolding global_running_tracker_switch_handler
  switch-Sampling more = rw s.has_state (elim (Bool-cases (g.is_collectx_in_buff_1 == 1)) [
    | inl one ↦
        (let next : u32 (g.collection_buff_1_index + 1) ≡ g.collection_buff_1_index + 1 =
            omega (arith, rw one at more) in
          rw (one, next)
            (
              record {
                has_state = refl;
                flag = s.flag;
                collected = rw one (
                    append-Collected t.buff_1 g.collection_buff_1_index now ceil_val
                      (taken rqs time) (rw one at s.collected) later (omega (arith, few)));
                entries_1 = ground (arith, s.entries_1);
                entries_2 = s.entries_2;
              },
              rw one refl,
            ))
    | inr two ↦
        (let next : u32 (g.collection_buff_2_index + 1) ≡ g.collection_buff_2_index + 1 =
            omega (arith, rw two at more) in
          rw (two, next)
            (
              record {
                has_state = refl;
                flag = s.flag;
                collected = rw two (
                    append-Collected t.buff_2 g.collection_buff_2_index now ceil_val
                      (taken rqs time) (rw two at s.collected) later (omega (arith, few)));
                entries_1 = s.entries_1;
                entries_2 = ground (arith, s.entries_2);
              },
              rw two refl,
            ))
  ])

-- The CPUs that an average of running tasks leaves idle.
abbrev pub left_over : ℕ → ℕ → ℕ
left_over nb_cpus avg = if ltb nb_cpus avg then 0 else nb_cpus - avg

-- The state after a swap, with the average of the buffer that ended.
abbrev pub swapped : GlobalState → ℕ → GlobalState
swapped g avg = record g {
  collection_buff_1_index =
      if g.is_collectx_in_buff_1 == 1 then u32 (g.collection_buff_1_index + 1) else 1;
  collection_buff_2_index =
      if g.is_collectx_in_buff_1 == 1 then 1 else u32 (g.collection_buff_2_index + 1);
  is_collectx_in_buff_1 = 1 - g.is_collectx_in_buff_1;
  global_runnx_avg = avg;
  last_idle_avg = left_over g.nb_cpus avg;
}

module _ (rqs : List (Option ℕ)) (val : IdleElem) (t : IdleTracker) (g : GlobalState)
    (now time ceil_val : ℕ) (s : Sampling t g now ceil_val) (later : now ≤ time)
    (few : sum_running rqs ≤ ceil_val) where
  abbrev closed : Buffer
  closed = update_elem (active g t.buff_1 t.buff_2) (active_index g) (taken rqs time)

  abbrev tick_average : ℕ
  tick_average = phantom_average closed (active_index g)

  -- A tick swaps the buffers, so that the other one starts with the tick's own sample, and the
  -- tracker stays in order.
  pub tick-Sampling :
      Sampling (idle_avg_timer_cb rqs time val t).1 (swapped g tick_average) time ceil_val
      × (active_index (swapped g tick_average) ≡ 1)
  unfolding idle_avg_timer_cb publish_idle end_active end_buff_1 end_buff_2 phantom_average
  tick-Sampling = rw s.has_state (elim (Bool-cases (g.is_collectx_in_buff_1 == 1)) [
    | inl one ↦
        (let flipped : 1 - g.is_collectx_in_buff_1 ≡ 0 = ground arith in
          rw (one, flipped)
            (
              record {
                has_state = refl;
                flag = omega arith;
                collected =
                    open-Collected t.buff_2 ceil_val (taken rqs time) (omega (arith, s.entries_2))
                      (omega (arith, s.entries_2)) (omega (arith, few));
                entries_1 = ground (arith, s.entries_1);
                entries_2 = ground (arith, s.entries_2);
              },
              refl,
            ))
    | inr two ↦
        (let flipped : 1 - g.is_collectx_in_buff_1 ≡ 1 = ground (arith, s.flag) in
          let zero_flag : (g.is_collectx_in_buff_1 == 0) ≡ true = ground (arith, s.flag) in
          rw (two, flipped, zero_flag)
            (
              record {
                has_state = refl;
                flag = omega arith;
                collected =
                    open-Collected t.buff_1 ceil_val (taken rqs time) (omega (arith, s.entries_1))
                      (omega (arith, s.entries_1)) (omega (arith, few));
                entries_1 = ground (arith, s.entries_1);
                entries_2 = ground (arith, s.entries_2);
              },
              refl,
            ))
  ])

  -- For a tracker whose active buffer holds samples in order of time, full or not, a tick publishes
  -- an average that does not exceed the greatest number of running tasks that was sampled, and what
  -- it publishes as idle makes it up to the number of CPUs, unless it is greater. That number times
  -- the time of the tick is below 2^64.
  pub tick-idle :
      time < 2 ^ 64
      → ceil_val * time < 2 ^ 64
      → (g' : GlobalState) × ((idle_avg_timer_cb rqs time val t).1.state ≡ some g')
        × (g'.global_runnx_avg ≤ ceil_val)
        × (g'.nb_cpus ≡ g.nb_cpus)
        × (g'.last_idle_avg + g'.global_runnx_avg
            ≡ (if ltb g.nb_cpus g'.global_runnx_avg then g'.global_runnx_avg else g.nb_cpus))
  tick-idle stamped small = (
    swapped g tick_average,
    tick-Sampling.0.has_state,
    ended-average (active g t.buff_1 t.buff_2) (active_index g) now ceil_val (taken rqs time)
        s.collected later stamped small,
    refl,
    ground arith,
  )
