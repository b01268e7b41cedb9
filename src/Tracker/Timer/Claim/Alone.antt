-- ===== src/Tracker/Timer/Claim/Alone.antt =====
-- timer.bpf.c: the handler on one CPU, call by call and as one step.
use phantom_tracker.Common.{
  ℕ, ◌+◌, ◌≤◌, ◌≡◌, arith, Bool, true, false, List, [], ◌∷◌, if◌then◌else◌, ◌==◌, Bool-cases, inl,
  inr, ◌&&◌,
}
use phantom_tracker.Tracker.Timer.{Elem, phantom_timer_handler}
use phantom_tracker.Tracker.Timer.Claim.{outside, Shared, next_call, run_cpus}

-- The calls of one run of the handler on a CPU.
abbrev calls : Bool → ℕ → List (ℕ × Bool)
calls true cpu = (cpu, true) ∷ (cpu, true) ∷ (cpu, true) ∷ (cpu, true) ∷ []
calls false cpu = (cpu, false) ∷ (cpu, false) ∷ (cpu, false) ∷ []

-- A CPU that runs the handler while no other one does: what `phantom_timer_handler` is as one step.
pub handler-alone :
    (init : Bool) (cpu : ℕ) (e : Elem) (s : Shared)
    → s.phase cpu ≡ outside
    → s.started ≡ e.started
    → e.started ≤ 1
    → let s' = run_cpus (calls init cpu) s in
      (s'.started ≡ (phantom_timer_handler init e).started)
      × (s'.phase cpu ≡ outside)
      × (s'.starts ≡ (if init && e.started == 0 then s.starts + 1 else s.starts))
unfolding run_cpus next_call phantom_timer_handler
handler-alone true cpu e s here same flag = elim (Bool-cases (e.started == 0)) [
  | inl zero ↦ ground (arith, here, same, zero)
  | inr taken ↦ ground (arith, here, same, taken)
]
handler-alone false cpu e s here same flag = elim (Bool-cases (e.started == 0)) [
  | inl zero ↦ ground (arith, here, same, zero)
  | inr taken ↦ ground (arith, here, same, taken)
]
