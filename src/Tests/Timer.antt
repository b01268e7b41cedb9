-- ===== src/Tests/Timer.antt =====
-- The timer of the tracker at concrete inputs.
use phantom_tracker.Common.{
  ℕ, refl, Bool, ◌∷◌, [], List, false, ◌/◌, ◌%◌, ◌^◌, ◌≤◌, ◌<◌, ◌≡◌, pos, true, arith,
  if◌then◌else◌, ◌==◌,
}
use phantom_tracker.Tracker.State.{Vm, Buffer}
use phantom_tracker.Tracker.Average.{phantom_average}
use phantom_tracker.Tracker.Average.Weighted.{Ordered, phantom_average-eq}
use phantom_tracker.Tracker.Average.Unordered.{Within, phantom_average-unordered}
use phantom_tracker.Tracker.Watermark.{watermark}
use phantom_tracker.Tracker.Watermark.Fields.{watermark-fields}
use phantom_tracker.Tracker.Timer.{Readings, swap_buffers}
use phantom_tracker.Tracker.Timer.Collected.{Collected}
use phantom_tracker.Tracker.Timer.Swap.{Ready, active, active_index, swap_buffers-average}
use phantom_tracker.Tracker.Timer.Claim.{run_cpus, next_call, untouched}
use phantom_tracker.Tracker.Timer.Claim.Once.{Once, run_cpus-Once}
use phantom_tracker.Tests.Tracker.{vm_a}

-- Counts 2, 0, 1 at times 10, 20, 40; the last only ends the span.
abbrev three_samples : Buffer
three_samples = record {
  max_entries = 8;
  elem = λ k.
      if k == 0
      then record { count = pos 2; timestamp = 10 }
      else (if k == 1
          then record { count = pos 0; timestamp = 20 }
          else record { count = pos 1; timestamp = 40 });
}

three_samples-Ordered : Ordered three_samples 2
three_samples-Ordered = record {
  fits = omega arith;
  indexed = omega arith;
  ascending = λ k l. ground arith;
  stamped = omega arith;
}

-- 20 over 30, rounded down.
phantom_average-eq_example : phantom_average three_samples 2 ≡ 0
phantom_average-eq_example = phantom_average-eq three_samples 2 three_samples-Ordered (omega arith)

-- Counts 2, 0, 1 at times 20, 10, 40: the second CPU took its time first.
abbrev crossed : Buffer
crossed = record {
  max_entries = 8;
  elem = λ k.
      if k == 0
      then record { count = pos 2; timestamp = 20 }
      else (if k == 1
          then record { count = pos 0; timestamp = 10 }
          else record { count = pos 1; timestamp = 40 });
}

crossed-Within : Within crossed 2 10 30 2
crossed-Within = record {
  indexed = omega arith;
  early = λ k l r. ground arith;
  late = λ k l r. ground arith;
  counts = λ k l r. ground arith;
  small = omega arith;
  small_sum = omega arith;
}

phantom_average-unordered_example : phantom_average crossed 2 ≤ 2
phantom_average-unordered_example = phantom_average-unordered crossed 2 10 30 2 crossed-Within

watermark-fields_example :
    let w = watermark 7 3 2 in
    (w < 2 ^ 64) × (w / 2 ^ 32 ≡ 7) × (w / 2 ^ 16 % 2 ^ 16 ≡ 3) × (w % 2 ^ 16 ≡ 2)
watermark-fields_example = watermark-fields 7 3 2

abbrev pub tick : Readings
tick = record { end_time = 50; start_time = 51; ts = 52 }

abbrev closing_vm : Vm
closing_vm = record vm_a { phantom_count = pos 1; collection_buff_1_index = 3 }

abbrev blank : Buffer
blank = record { max_entries = 8; elem = λ k. record { count = pos 0; timestamp = 0 } }

closing_vm-Ready : Ready tick closing_vm three_samples blank 3 40 2
closing_vm-Ready = record {
  collected = record {
    some_room = omega arith;
    indexed = omega arith;
    ascending = λ k l r. ground arith;
    past = λ k l r. ground arith;
    ranged = λ k l r. ground arith;
  };
  idle_entries = (omega arith, omega arith);
  counted = omega arith;
  later = omega arith;
  small = omega arith;
  stamped = omega arith;
}

swap_buffers-average_example :
    let s = swap_buffers tick closing_vm three_samples blank in
    (s.vm.is_collectx_in_buff_1 ≡ 0)
    × (active_index s.vm ≡ 1)
    × Collected (active s.vm s.buff_1 s.buff_2) 1 51 2
    × (s.avg ≤ 2)
swap_buffers-average_example =
    swap_buffers-average tick closing_vm three_samples blank 40 2 (omega arith) closing_vm-Ready

-- Two CPUs race for the timer; the first set-up fails, and the second CPU tries again.
abbrev race : List (ℕ × Bool)
race =
    (0, true)
    ∷ (1, true)
    ∷ (0, false)
    ∷ (0, true)
    ∷ (1, true)
    ∷ (1, true)
    ∷ (1, true)
    ∷ (0, true)
    ∷ (1, true)
    ∷ []

run_cpus-Once_example : Once (run_cpus race untouched)
run_cpus-Once_example = run_cpus-Once race

race-runs : (run_cpus race untouched).starts ≡ 1
unfolding run_cpus next_call
race-runs = refl
