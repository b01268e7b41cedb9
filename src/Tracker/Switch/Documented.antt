-- ===== src/Tracker/Switch/Documented.antt =====
-- The rule of pvsched-ebpf/README.md for context switches, as a program on a set of threads: a thread
-- that is switched out counts as preempted if its own state is running or waking.
use mathlib.Core.Path.{fun_ext}
use phantom_tracker.Common.{
  ◌≡◌, refl, Bool, true, not, ◌&&◌, ◌||◌, List, [], ◌∷◌, arith, ◌==◌, ℕ_discrete, ap,
}
use phantom_tracker.Tracker.Switch.{Event, task_running, task_waking}
use phantom_tracker.Tracker.Switch.Spec.{
  Phantoms, Oracle, spec_in, spec_out, spec_step, spec_run, preempted,
}

unfoldable pub was_preempted : Event → Bool
was_preempted e = e.prev_state == task_running || e.prev_state == task_waking

unfoldable pub documented_step : Oracle → Event → Phantoms → Phantoms
unfolding was_preempted
documented_step w e s pid =
    spec_in w e s pid || (pid == e.prev_pid && w.reports pid && was_preempted e)

unfoldable pub documented_run : Oracle → List Event → Phantoms → Phantoms
unfolding documented_step
documented_run w [] s = s
documented_run w (e ∷ es) s = documented_run w es (documented_step w e s)

-- In every switch a vCPU comes in, or the outgoing thread was preempted, or the guest reports no
-- OpenMP thread for it. The handler does not read the state of a thread that gives up its CPU to a
-- task that is no vCPU, and takes it for running.
abbrev pub AllJudged : Oracle → List Event → Type 0
AllJudged w [] = Unit
AllJudged w (e ∷ es) =
    (w.is_vcpu e.next_pid || was_preempted e || not (w.reports e.prev_pid) ≡ true) × AllJudged w es

judged_step :
    (w : Oracle) (e : Event) (s : Phantoms)
    → w.is_vcpu e.next_pid || was_preempted e || not (w.reports e.prev_pid) ≡ true
    → spec_step w e s ≡ documented_step w e s
unfolding spec_step spec_out documented_step preempted was_preempted
judged_step w e s h = fun_ext λ j. elim (ℕ_discrete j e.prev_pid) [
  | yes same ↦ ground (arith, h, ap w.reports same)
  | no other ↦ ground arith
]

pub judged_run :
    (w : Oracle) (es : List Event) (s : Phantoms)
    → AllJudged w es
    → spec_run w es s ≡ documented_run w es s
unfolding spec_run documented_run
judged_run w [] s h = refl
judged_run w (e ∷ es) s (here, rest) =
    rw (judged_step w e s here) (judged_run w es (documented_step w e s) rest)
