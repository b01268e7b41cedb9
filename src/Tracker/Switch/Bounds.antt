-- ===== src/Tracker/Switch/Bounds.antt =====
-- The counters of create_maps.bpf.c while other CPUs write them too.
use phantom_tracker.Common.{
  ℕ, ◌≡◌, some, Option-cases, Bool-cases, inl, inr, ℤ, arith, lookup, ◌&&◌, ◌==◌, ℕ_discrete,
}
use phantom_tracker.Tracker.State.{Name, Vm, Vcpu, Tracker}
use phantom_tracker.Tracker.Counter.{World}
use phantom_tracker.Tracker.Counter.Laws.{InRange, Respects, counters-InRange}
use phantom_tracker.Tracker.Switch.{
  Event, run_state, marks, set_phantom, store_count, clear_phantom, switch_in, mark_phantom,
  switch_out, phantom_switch_handler,
}
use phantom_tracker.Tracker.Switch.Samples.{find, store_count-vms}

-- Every counter lies between zero and the VM's number of vCPUs, and the other CPUs keep to that.
pub record Bounded (world : World) (t : Tracker) : Type 0 where
  pub counted : (n : Name) (vm : Vm) → find t n ≡ some vm → InRange vm.nb_vcpus vm.phantom_count
  pub others : (n : Name) (vm : Vm) → find t n ≡ some vm → Respects vm.nb_vcpus world

set_phantom-Bounded :
    (w : World) (t : Tracker) (pid flag : ℕ) → Bounded w t → Bounded w (set_phantom t pid flag)
unfolding set_phantom
set_phantom-Bounded w t pid flag b = record { counted = b.counted; others = b.others }

store_count-Bounded :
    (w : World) (t : Tracker) (name : Name) (vm : Vm) (c word : ℤ) (now : ℕ)
    → find t name ≡ some vm
    → InRange vm.nb_vcpus word
    → Bounded w t
    → Bounded w (store_count t name vm (c, word) now)
store_count-Bounded w t name vm c word now here h b = record {
  counted = λ n x e.
      let (v, old, nb, form) = store_count-vms t name vm c word now n x e in
      ground (arith, b.counted n v old);
  others = λ n x e.
      let (v, old, nb, form) = store_count-vms t name vm c word now n x e in
      rw nb (b.others n v old);
}

clear_phantom-Bounded :
    (w : World) (e : Event) (t : Tracker) (v : Vcpu)
    → Bounded e.others_in t
    → Bounded w t
    → Bounded w (clear_phantom e t v)
unfolding clear_phantom
clear_phantom-Bounded w e t v o b =
    elim (Bool-cases (run_state t v.vcpu_index == 1 && v.is_phantom == 1)) [
      | inl go ↦ elim (Option-cases (find t v.vm_name)) [
        | inl missing ↦ rw (go, clear_phantom, missing) (set_phantom-Bounded w t e.next_pid 0 b)
        | inr (vm, here) ↦
            rw (go, clear_phantom, here)
              (store_count-Bounded w _ v.vm_name vm _ _ e.in_time (unfold set_phantom in here)
                (counters-InRange vm.nb_vcpus e.others_in vm.phantom_count
                  (o.others v.vm_name vm here) (b.counted v.vm_name vm here)).1
                (set_phantom-Bounded w t e.next_pid 0 b))
      ]
      | inr stop ↦ rw (stop, clear_phantom) b
    ]

mark_phantom-Bounded :
    (e : Event) (state : ℕ) (t : Tracker) (v : Vcpu)
    → Bounded e.others_out t
    → Bounded e.others_out (mark_phantom e state t v)
unfolding mark_phantom
mark_phantom-Bounded e state t v b = elim (Bool-cases (marks t state v)) [
  | inl go ↦ elim (Option-cases (find t v.vm_name)) [
    | inl missing ↦ rw (go, mark_phantom, missing) (set_phantom-Bounded _ t e.prev_pid 1 b)
    | inr (vm, here) ↦
        rw (go, mark_phantom, here)
          (store_count-Bounded _ _ v.vm_name vm _ _ e.out_time (unfold set_phantom in here)
            (counters-InRange vm.nb_vcpus e.others_out vm.phantom_count (b.others v.vm_name vm here)
              (b.counted v.vm_name vm here)).3
            (set_phantom-Bounded _ t e.prev_pid 1 b))
  ]
  | inr stop ↦ rw (stop, mark_phantom) b
]

switch_in-Bounded :
    (e : Event) (t : Tracker)
    → Bounded e.others_in t
    → Bounded e.others_out t
    → Bounded e.others_out (switch_in e t).0
unfolding switch_in
switch_in-Bounded e t i o = elim (Option-cases (lookup ℕ_discrete e.next_pid t.vcpus)) [
  | inl missing ↦ rw (missing, switch_in) o
  | inr (v, found) ↦ rw (found, switch_in) (clear_phantom-Bounded _ e t v i o)
]

switch_out-Bounded :
    (e : Event) (t : Tracker) (state : ℕ)
    → Bounded e.others_out t
    → Bounded e.others_out (switch_out e (t, state))
unfolding switch_out
switch_out-Bounded e t state b = elim (Option-cases (lookup ℕ_discrete e.prev_pid t.vcpus)) [
  | inl missing ↦ rw (missing, switch_out) b
  | inr (v, found) ↦ rw (found, switch_out) (mark_phantom-Bounded e state t v b)
]

-- However other CPUs change the counters while the handler retries, as long as they too keep each
-- counter between zero and the number of vCPUs of its VM, every counter is in that range after the
-- handler, whichever attempts fail.
pub handler-Bounded :
    (e : Event) (t : Tracker)
    → Bounded e.others_in t
    → Bounded e.others_out t
    → Bounded e.others_out (phantom_switch_handler e t)
unfolding phantom_switch_handler
handler-Bounded e t i o =
    switch_out-Bounded e (switch_in e t).0 (switch_in e t).1 (switch_in-Bounded e t i o)
