-- ===== src/Tracker/History.antt =====
-- create_maps.bpf.c and timer.bpf.c together: context switches and the timer's callbacks, in any
-- order, and what one VM's samples need of them.
pub mod Located
pub mod Collects
pub mod Sampled
pub mod Averages
pub mod Published
use phantom_tracker.Common.{
  ℕ, ◌+◌, ◌*◌, ◌^◌, ◌≤◌, ◌<◌, ◌≡◌, Option, none, some, List, [], ◌∷◌, ite, lookup,
}
use phantom_tracker.Tracker.State.{Name, Name-discrete, Vm, GlobalState, Tracker}
use phantom_tracker.Tracker.Counter.Laws.{Respects}
use phantom_tracker.Tracker.Switch.{Event, phantom_switch_handler}
use phantom_tracker.Tracker.Timer.{Readings, callback_fn}

-- What happens to the maps: a context switch, or the timer's callback for the VM of a name.
pub data TrackerEvent : Type 0 where
  switched : Event → TrackerEvent
  called : Readings → Option GlobalState → Name → TrackerEvent

-- The iteration shows a VM that is still there.
unfoldable pub call : Readings → Option GlobalState → Name → Tracker → Tracker
call k gstate name t = elim (lookup Name-discrete name t.vms) [
  | none ↦ t
  | some vm ↦ callback_fn k gstate t name vm
]

unfoldable pub run_tracker : List TrackerEvent → Tracker → Tracker
run_tracker [] t = t
run_tracker (switched e ∷ es) t = run_tracker es (phantom_switch_handler e t)
run_tracker (called k gstate name ∷ es) t = run_tracker es (call k gstate name t)

-- A tick of the timer calls back for the VMs from the `i`-th on.
unfoldable pub tick_events :
    (ℕ → Readings) → Option GlobalState → List (Name × Vm) → ℕ → List TrackerEvent
tick_events clock gstate [] i = []
tick_events clock gstate ((name, _) ∷ rest) i =
    called (clock i) gstate name ∷ tick_events clock gstate rest (i + 1)

-- The switches are in order of time up to `end_time`, and come few enough for a callback of the VM
-- before the 32-bit index of its active buffer, which is `n` at most, wraps around. Other CPUs keep
-- the VM's counter between zero and its number of vCPUs while a handler retries.
abbrev pub Fits : Name → ℕ → ℕ → List TrackerEvent → ℕ → ℕ → Type 0
Fits name nb end_time [] n now = now ≤ end_time
Fits name nb end_time (switched e ∷ es) n now =
    ((now ≤ e.in_time) × (e.in_time ≤ e.out_time) × (n + 2 < 2 ^ 32))
    × (Respects nb e.others_in × Respects nb e.others_out)
    × Fits name nb end_time es (n + 2) e.out_time
Fits name nb end_time (called k gstate other ∷ es) n now =
    Fits name nb end_time es (ite (Name-discrete other name) 1 n)
      (ite (Name-discrete other name) k.start_time now)
