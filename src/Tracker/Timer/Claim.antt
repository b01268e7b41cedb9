-- ===== src/Tracker/Timer/Claim.antt =====
-- timer.bpf.c and global_running_tracker.bpf.c: the handler of the first context switch, which the two
-- programs hold in the same words, on many CPUs at once. A step is one call that other CPUs can see.
pub mod Once
pub mod Alone
use phantom_tracker.Common.{
  ℕ, ◌+◌, ◌≤◌, ◌<◌, ◌≡◌, ◌≢◌, refl, sym, ◌∙◌, arith, Bool, true, false, List, [], ◌∷◌,
  if◌then◌else◌, ◌||◌, ◌==◌, Bool-cases, inl, inr, ◌&&◌, ltb, ℕ_discrete,
}
use phantom_tracker.Tracker.Timer.{Elem, phantom_timer_handler}

-- Where a CPU is: outside, or behind the test of `started`, a failed or a successful
-- `bpf_timer_init`, or `bpf_timer_set_callback`.
pub data Phase : Type 0 where
  outside claimed failed set_up ready : Phase

-- struct elem as the CPUs share it, with how often the timer was set up and started, and how often
-- `bpf_timer_set_callback` or `bpf_timer_start` failed.
pub record Shared : Type 0 where
  pub started : ℕ
  pub inits : ℕ
  pub callback : Bool
  pub starts : ℕ
  pub refusals : ℕ
  pub phase : ℕ → Phase

abbrev pub move : ℕ → Phase → (ℕ → Phase) → ℕ → Phase
move cpu p phase = λ j. if j == cpu then p else phase j

-- `answer` is what the next call answers, if it can fail. The results of `bpf_timer_set_callback` and of
-- `bpf_timer_start` are ignored.
unfoldable pub next_call : Phase → Bool → ℕ → Shared → Shared
next_call outside answer cpu s = record s {
  started = 1;
  phase = if s.started == 0 then move cpu claimed s.phase else s.phase;
}
next_call claimed answer cpu s = record s {
  inits = if answer then s.inits + 1 else s.inits;
  phase = move cpu (if answer then set_up else failed) s.phase;
}
next_call failed answer cpu s = record s {
  started = if s.started == 1 then 0 else s.started;
  phase = move cpu outside s.phase;
}
next_call set_up answer cpu s = record s {
  callback = answer || s.callback;
  refusals = if answer then s.refusals else s.refusals + 1;
  phase = move cpu ready s.phase;
}
next_call ready answer cpu s = record s {
  starts = if answer then s.starts + 1 else s.starts;
  refusals = if answer then s.refusals else s.refusals + 1;
  phase = move cpu outside s.phase;
}

-- A schedule: which CPU makes its next call, and what a call that can fail answers.
unfoldable pub run_cpus : List (ℕ × Bool) → Shared → Shared
run_cpus [] s = s
run_cpus ((cpu, answer) ∷ rest) s = run_cpus rest (next_call (s.phase cpu) answer cpu s)

-- A timer that no CPU has touched.
abbrev pub untouched : Shared
untouched = record {
  started = 0;
  inits = 0;
  callback = false;
  starts = 0;
  refusals = 0;
  phase = λ cpu. outside;
}
