-- ===== src/Tracker/Switch/Handled.antt =====
-- create_maps.bpf.c: a VM's samples over a context switch, of its own vCPUs or of another VM's.
use phantom_tracker.Common.{
  ℕ, ◌+◌, ◌≤◌, ◌<◌, ◌^◌, ◌≡◌, arith, some, Option-cases, Bool-cases, inl, inr, lookup, ◌&&◌, ◌==◌,
  ℕ_discrete,
}
use phantom_tracker.Tracker.State.{Name, Vm, Vcpu, Tracker}
use phantom_tracker.Tracker.Counter.Laws.{InRange, Respects, counters-InRange}
use phantom_tracker.Tracker.Switch.{
  Event, run_state, marks, set_phantom, clear_phantom, switch_in, mark_phantom, switch_out,
  phantom_switch_handler,
}
use phantom_tracker.Tracker.Switch.Samples.{find}
use phantom_tracker.Tracker.History.Sampled.{Sampled, later-Sampled}
use phantom_tracker.Tracker.Switch.Recorded.{store_count-Sampled}

module _ (name : Name) (nb : ℕ) where
  -- The flag of a vCPU is in no map of the VM.
  set_phantom-Sampled :
      (t : Tracker) (now n pid flag : ℕ)
      → Sampled name nb t now n
      → Sampled name nb (set_phantom t pid flag) now n
  unfolding set_phantom
  set_phantom-Sampled t now n pid flag s = record {
    vm = s.vm;
    buff_1 = s.buff_1;
    buff_2 = s.buff_2;
    located = s.located;
    collects = s.collects;
  }

  -- The counter of the VM is in range, whichever VM a pointer shows.
  own_range :
      (t : Tracker) (now n : ℕ) (s : Sampled name nb t now n) (key : Name) (vm : Vm)
      → find t key ≡ some vm
      → key ≡ name
      → (vm.nb_vcpus ≡ nb) × InRange nb vm.phantom_count
  own_range t now n s key vm here p =
      let same : s.vm ≡ vm = ground (arith, s.located.found) in
      rw (← same) (s.collects.nb_vcpus, s.collects.counted)

  clear_phantom-Sampled :
      (e : Event) (t : Tracker) (v : Vcpu) (now n : ℕ)
      → n + 1 < 2 ^ 32
      → now ≤ e.in_time
      → Respects nb e.others_in
      → Sampled name nb t now n
      → Sampled name nb (clear_phantom e t v) e.in_time (n + 1)
  unfolding clear_phantom
  clear_phantom-Sampled e t v now n fits later others s =
      let marked = set_phantom-Sampled t now n e.next_pid 0 s in
      elim (Bool-cases (run_state t v.vcpu_index == 1 && v.is_phantom == 1)) [
        | inl go ↦ elim (Option-cases (find t v.vm_name)) [
          | inl missing ↦
              rw (go, clear_phantom, missing)
                (later-Sampled name nb _ now n _ (n + 1) later (omega arith) marked)
          | inr (vm, here) ↦
              rw (go, clear_phantom, here)
                (store_count-Sampled name nb _ now n v.vm_name vm _ _ e.in_time
                  (unfold set_phantom in here) fits later
                  (λ p.
                    let (same, range) = own_range t now n s v.vm_name vm here p in
                    let (d0, d1, i0, i1) =
                      counters-InRange nb e.others_in vm.phantom_count others range in
                    (d1, d0))
                  marked)
        ]
        | inr stop ↦
            rw (stop, clear_phantom) (later-Sampled name nb t now n _ (n + 1) later (omega arith) s)
      ]

  mark_phantom-Sampled :
      (e : Event) (state : ℕ) (t : Tracker) (v : Vcpu) (now n : ℕ)
      → n + 1 < 2 ^ 32
      → now ≤ e.out_time
      → Respects nb e.others_out
      → Sampled name nb t now n
      → Sampled name nb (mark_phantom e state t v) e.out_time (n + 1)
  unfolding mark_phantom
  mark_phantom-Sampled e state t v now n fits later others s =
      let marked = set_phantom-Sampled t now n e.prev_pid 1 s in
      elim (Bool-cases (marks t state v)) [
        | inl go ↦ elim (Option-cases (find t v.vm_name)) [
          | inl missing ↦
              rw (go, mark_phantom, missing)
                (later-Sampled name nb _ now n _ (n + 1) later (omega arith) marked)
          | inr (vm, here) ↦
              rw (go, mark_phantom, here)
                (store_count-Sampled name nb _ now n v.vm_name vm _ _ e.out_time
                  (unfold set_phantom in here) fits later
                  (λ p.
                    let (same, range) = own_range t now n s v.vm_name vm here p in
                    let (d0, d1, i0, i1) =
                      counters-InRange nb e.others_out vm.phantom_count others range in
                    rw same (i1, i0))
                  marked)
        ]
        | inr stop ↦
            rw (stop, mark_phantom) (later-Sampled name nb t now n _ (n + 1) later (omega arith) s)
      ]

  -- A context switch records two samples at most.
  pub handler-Sampled :
      (e : Event) (t : Tracker) (now n : ℕ)
      → n + 2 < 2 ^ 32
      → now ≤ e.in_time
      → e.in_time ≤ e.out_time
      → Respects nb e.others_in
      → Respects nb e.others_out
      → Sampled name nb t now n
      → Sampled name nb (phantom_switch_handler e t) e.out_time (n + 2)
  unfolding phantom_switch_handler switch_in switch_out
  handler-Sampled e t now n fits later ordered o1 o2 s =
      let first : Sampled name nb (switch_in e t).0 e.in_time (n + 1) =
        elim (Option-cases (lookup ℕ_discrete e.next_pid t.vcpus)) [
          | inl missing ↦
              rw (missing, switch_in)
                (later-Sampled name nb t now n _ (n + 1) later (omega arith) s)
          | inr (v, found) ↦
              rw (found, switch_in) (clear_phantom-Sampled e t v now n (omega arith) later o1 s)
        ] in
      elim (Option-cases (lookup ℕ_discrete e.prev_pid (switch_in e t).0.vcpus)) [
        | inl missing ↦
            rw (missing, switch_out)
              (later-Sampled name nb _ e.in_time (n + 1) _ (n + 2) ordered (omega arith) first)
        | inr (v, found) ↦
            rw (found, switch_out)
              (later-Sampled name nb _ e.out_time (n + 1 + 1) _ (n + 2) (omega arith) (omega arith)
                (mark_phantom-Sampled e (switch_in e t).1 (switch_in e t).0 v e.in_time (n + 1)
                  (omega arith) ordered o2 first))
      ]
