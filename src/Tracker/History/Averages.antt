-- ===== src/Tracker/History/Averages.antt =====
-- create_maps.bpf.c and timer.bpf.c: what is published after any run of switches and callbacks.
use phantom_tracker.Common.{
  ℕ, ◌+◌, ◌*◌, ◌^◌, ◌≤◌, ◌<◌, ◌≢◌, ite, ◌==◌, arith, Option, List, [], ◌∷◌, Option-cases,
  Bool-cases, inl, inr,
}
use phantom_tracker.Tracker.State.{Name, Name-discrete, Vm, Buffer, GlobalState, Tracker}
use phantom_tracker.Tracker.Switch.Samples.{find}
use phantom_tracker.Tracker.Switch.Handled.{handler-Sampled}
use phantom_tracker.Tracker.Timer.{Readings, sample_of, swap_to_1, swap_to_2, swap_buffers}
use phantom_tracker.Tracker.Timer.Collected.{Collected, ended-average}
use phantom_tracker.Tracker.Timer.Called.{own-Called, other-Called}
use phantom_tracker.Tracker.History.{TrackerEvent, switched, called, call, run_tracker, Fits}
use phantom_tracker.Tracker.History.Collects.{Collects}
use phantom_tracker.Tracker.History.Sampled.{Sampled, later-Sampled}

module _ (name : Name) (nb : ℕ) where
  -- A callback for the VM, and one for another name.
  pub own-call :
      (k : Readings) (g : Option GlobalState) (t : Tracker) (now n : ℕ)
      → Sampled name nb t now n
      → Sampled name nb (call k g name t) k.start_time 1
  unfolding call
  own-call k g t now n s = rw (s.located.found, call) (own-Called name nb k g t now n s)

  other-call :
      (k : Readings) (g : Option GlobalState) (other : Name) (t : Tracker) (now n : ℕ)
      → other ≢ name
      → Sampled name nb t now n
      → Sampled name nb (call k g other t) now n
  unfolding call
  other-call k g other t now n ne s = elim (Option-cases (find t other)) [
    | inl e ↦ rw (e, call) s
    | inr (vm, e) ↦ rw (e, call) (other-Called name nb k g t other vm now n e ne s)
  ]

  -- Any run that fits keeps the VM's samples.
  pub run_tracker-Sampled :
      (end_time : ℕ) (es : List TrackerEvent) (t : Tracker) (now n : ℕ)
      → Fits name nb end_time es n now
      → Sampled name nb t now n
      → (m : ℕ) × Sampled name nb (run_tracker es t) end_time m
  unfolding run_tracker
  run_tracker-Sampled end_time [] t now n f s =
      (n, later-Sampled name nb t now n end_time n f (omega arith) s)
  run_tracker-Sampled end_time (switched e ∷ es) t now n ((later, ordered, few), (o1, o2), f) s =
      run_tracker-Sampled end_time es _ e.out_time (n + 2) f
        (handler-Sampled name nb e t now n few later ordered o1 o2 s)
  run_tracker-Sampled end_time (called k g other ∷ es) t now n f s =
      elim (Name-discrete other name)
          as (λ d.
            Fits name nb end_time es (ite d 1 n) (ite d k.start_time now)
            → (m : ℕ) × Sampled name nb (run_tracker es (call k g other t)) end_time m) [
              | yes p ↦ λ f.
                  run_tracker-Sampled end_time es (call k g other t) k.start_time 1 f
                    (rw p (own-call k g t now n s))
              | no p ↦ λ f.
                  run_tracker-Sampled end_time es (call k g other t) now n f
                    (other-call k g other t now n p s)
            ]
        f

-- The average of a swap does not exceed the VM's number of vCPUs.
pub swap-average :
    (nb : ℕ) (vm : Vm) (buff_1 buff_2 : Buffer) (now n : ℕ) (k : Readings)
    → Collects nb vm buff_1 buff_2 now n
    → now ≤ k.end_time
    → k.end_time < 2 ^ 64
    → nb * k.end_time < 2 ^ 64
    → (swap_buffers k vm buff_1 buff_2).avg ≤ nb
unfolding swap_buffers swap_to_1 swap_to_2
swap-average nb vm buff_1 buff_2 now n k c later stamped small =
    elim (Bool-cases (vm.is_collectx_in_buff_1 == 1)) [
      | inl e ↦
          (let held : Collected buff_1 vm.collection_buff_1_index now nb = rw e at c.collected in
            rw e (ended-average buff_1 _ now nb (sample_of vm k.end_time) held later stamped small))
      | inr e ↦
          (let held : Collected buff_2 vm.collection_buff_2_index now nb = rw e at c.collected in
            rw e (ended-average buff_2 _ now nb (sample_of vm k.end_time) held later stamped small))
    ]
