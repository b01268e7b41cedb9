-- ===== src/Tracker/Timer/Claim/Once.antt =====
-- timer.bpf.c: the timer is set up and started once, however the handlers of all CPUs interleave.
use mathlib.Core.Path.{subst}
use phantom_tracker.Common.{
  ℕ, ◌≤◌, ◌<◌, ◌≡◌, ◌≢◌, refl, sym, ◌∙◌, arith, Bool, true, false, List, [], ◌∷◌, ℕ_discrete,
}
use phantom_tracker.Tracker.Timer.Claim.{
  Phase, outside, claimed, failed, set_up, ready, Shared, next_call, run_cpus, untouched,
}

-- Nobody has it, a CPU is in the handler, or the timer runs.
data Stage : Type 0 where
  free : Stage
  held : ℕ → Phase → Stage
  running : Stage

-- What has been done when the CPU that holds the timer is in a phase.
abbrev Done : Phase → Shared → Type 0
Done outside s = ⊥
Done claimed s = (s.inits ≡ 0) × (s.refusals ≡ 0)
Done failed s = (s.inits ≡ 0) × (s.refusals ≡ 0)
Done set_up s = (s.inits ≡ 1) × (s.refusals ≡ 0)
Done ready s = (s.inits ≡ 1) × (s.refusals ≡ 0 → s.callback ≡ true)

abbrev At : Stage → Shared → Type 0
At free s =
    (s.started ≡ 0)
    × (s.inits ≡ 0)
    × (s.starts ≡ 0)
    × (s.refusals ≡ 0)
    × ((j : ℕ) → s.phase j ≡ outside)
At (held cpu p) s =
    (s.started ≡ 1)
    × (s.starts ≡ 0)
    × (s.phase cpu ≡ p)
    × ((j : ℕ) → j ≢ cpu → s.phase j ≡ outside)
    × Done p s
At running s =
    (s.started ≡ 1)
    × (s.inits ≡ 1)
    × (s.starts ≤ 1)
    × (s.refusals ≡ 0 → (s.starts ≡ 1) × (s.callback ≡ true))
    × ((j : ℕ) → s.phase j ≡ outside)

-- The step of the CPU that holds the timer, and of one that is outside.
holder_step :
    (p : Phase) (init : Bool) (cpu : ℕ) (s : Shared)
    → At (held cpu p) s
    → (st : Stage) × At st (next_call p init cpu s)
unfolding next_call
holder_step outside init cpu s (_, _, _, _, impossible) = absurd impossible
holder_step claimed true cpu s (one, none_yet, _, others, (inits, refusals)) = (
  held cpu set_up,
  (one, none_yet, ground arith, (λ j ne. ground (arith, others j)), (ground arith, refusals)),
)
holder_step claimed false cpu s (one, none_yet, _, others, done) =
    (held cpu failed, (one, none_yet, ground arith, (λ j ne. ground (arith, others j)), done))
holder_step failed answer cpu s (one, none_yet, _, others, (inits, refusals)) =
    (free, (ground arith, inits, none_yet, refusals, (λ j. ground (arith, others j))))
holder_step set_up true cpu s (one, none_yet, _, others, (inits, refusals)) = (
  held cpu ready,
  (one, none_yet, ground arith, (λ j ne. ground (arith, others j)), (inits, λ r. refl)),
)
holder_step set_up false cpu s (one, none_yet, _, others, (inits, refusals)) = (
  held cpu ready,
  (
    one,
    none_yet,
    ground arith,
    (λ j ne. ground (arith, others j)),
    (inits, λ r. absurd (omega arith)),
  ),
)
holder_step ready true cpu s (one, none_yet, _, others, (inits, set)) = (
  running,
  (one, inits, omega arith, (λ r. (omega arith, set r)), (λ j. ground (arith, others j))),
)
holder_step ready false cpu s (one, none_yet, _, others, (inits, set)) = (
  running,
  (one, inits, omega arith, (λ r. absurd (omega arith)), (λ j. ground (arith, others j))),
)

Done-kept :
    (p : Phase) (s : Shared) (phase : ℕ → Phase)
    → Done p s
    → Done p (record s { started = 1; phase = phase })
Done-kept outside s phase d = d
Done-kept claimed s phase d = d
Done-kept failed s phase d = d
Done-kept set_up s phase d = d
Done-kept ready s phase d = d

outside_step :
    (st : Stage) (init : Bool) (cpu : ℕ) (s : Shared)
    → At st s
    → s.phase cpu ≡ outside
    → (st' : Stage) × At st' (next_call outside init cpu s)
unfolding next_call
outside_step free answer cpu s (zero, inits, starts, refusals, all) here = (
  held cpu claimed,
  (refl, starts, ground arith, (λ j ne. ground (arith, all j)), (inits, refusals)),
)
outside_step (held c p) answer cpu s (one, starts, phase, others, done) here = (
  held c p,
  (refl, starts, ground arith, (λ j ne. ground (arith, others j)), Done-kept p s _ done),
)
outside_step running answer cpu s (one, inits, starts, runs, all) here =
    (running, (refl, inits, starts, runs, (λ j. ground (arith, all j))))

one_step :
    (st : Stage) (init : Bool) (cpu : ℕ) (s : Shared)
    → At st s
    → (st' : Stage) × At st' (next_call (s.phase cpu) init cpu s)
one_step free init cpu s h = let here = h.4 cpu in rw here (outside_step free init cpu s h here)
one_step running init cpu s h =
    let here = h.4 cpu in rw here (outside_step running init cpu s h here)
one_step (held c p) init cpu s h = elim (ℕ_discrete cpu c) [
  | yes q ↦
      (let mine : At (held cpu p) s = subst (λ k. At (held k p) s) (sym q) h in
        subst (λ x. (st' : Stage) × At st' (next_call x init cpu s)) (sym mine.2)
          (holder_step p init cpu s mine))
  | no q ↦
      (let here = h.3 cpu q in
        subst (λ x. (st' : Stage) × At st' (next_call x init cpu s)) (sym here)
          (outside_step (held c p) init cpu s h here))
]

run-At :
    (schedule : List (ℕ × Bool)) (st : Stage) (s : Shared)
    → At st s
    → (st' : Stage) × At st' (run_cpus schedule s)
unfolding run_cpus
run-At [] st s h = (st, h)
run-At ((cpu, init) ∷ rest) st s h =
    let (st', h') = one_step st init cpu s h in
    run-At rest st' (next_call (s.phase cpu) init cpu s) h'

-- What holds whatever the schedule was. A CPU is past the test of `started` where it is not outside.
pub record Once (s : Shared) : Type 0 where
  pub one_init : s.inits ≤ 1
  pub one_start : s.starts ≤ s.inits
  pub alone : (i j : ℕ) → s.phase i ≢ outside → s.phase j ≢ outside → i ≡ j
  pub settled : ((cpu : ℕ) → s.phase cpu ≡ outside) → s.inits ≡ s.started
  pub armed : s.refusals ≡ 0 → 0 < s.starts → s.callback ≡ true
  pub runs : s.refusals ≡ 0 → ((cpu : ℕ) → s.phase cpu ≡ outside) → s.starts ≡ s.started

Done-inits : (p : Phase) (s : Shared) → Done p s → s.inits ≤ 1
Done-inits outside s d = absurd d
Done-inits claimed s d = omega arith
Done-inits failed s d = omega arith
Done-inits set_up s d = omega arith
Done-inits ready s d = omega arith

At-Once : (st : Stage) (s : Shared) → At st s → Once s
At-Once free s (zero, inits, starts, refusals, all) = record {
  one_init = omega arith;
  one_start = omega arith;
  alone = λ i j a b. absurd (a (all i));
  settled = λ h. omega arith;
  armed = λ r h. absurd (omega arith);
  runs = λ r h. omega arith;
}
At-Once running s (one, inits, starts, works, all) = record {
  one_init = omega arith;
  one_start = omega arith;
  alone = λ i j a b. absurd (a (all i));
  settled = λ h. omega arith;
  armed = λ r h. (works r).1;
  runs = λ r h. (works r).0 ∙ sym one;
}
At-Once (held cpu p) s (one, starts, here, others, done) = record {
  one_init = Done-inits p s done;
  one_start = omega arith;
  alone = λ i j a b. owner i a ∙ sym (owner j b);
  settled = λ h. absurd (nobody h);
  armed = λ r h. absurd (omega arith);
  runs = λ r h. absurd (nobody h);
}
  where
    nobody : ((j : ℕ) → s.phase j ≡ outside) → ⊥
    nobody h = subst (λ q. Done q s) (sym here ∙ h cpu) done

    owner : (i : ℕ) → s.phase i ≢ outside → i ≡ cpu
    owner i a = elim (ℕ_discrete i cpu) [ yes q ↦ q | no q ↦ absurd (a (others i q)) ]

-- However the CPUs that run the handler interleave, and whatever the calls on the timer answer: the
-- timer is set up at most once, and started at most as often; at most one CPU at a time is past the
-- test of `started`; whenever none is, the flag is set exactly if the timer was set up, so that a
-- failed `bpf_timer_init` can be tried again; and as long as neither `bpf_timer_set_callback` nor
-- `bpf_timer_start`, whose results are ignored, has failed, a started timer has its callback, and
-- whenever no CPU is past the test, the timer was started exactly if the flag is set.
pub run_cpus-Once : (schedule : List (ℕ × Bool)) → Once (run_cpus schedule untouched)
run_cpus-Once schedule =
    let (st, h) = run-At schedule free untouched (refl, refl, refl, refl, (λ j. refl)) in
    At-Once st (run_cpus schedule untouched) h
