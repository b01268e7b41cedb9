-- ===== src/Tracker/Switch/Exact.antt =====
-- create_maps.bpf.c: the phantom counter of a VM against the flags of its vCPUs.
use phantom_tracker.Common.{
  ℕ, ◌+◌, ◌≤◌, ◌≡◌, refl, ap, Bool, true, false, ◌&&◌, none, some, List, [], ◌∷◌, Option-cases,
  Bool-cases, inl, inr, ite, ℤ, pos, arith, lookup, count_if, bit, count_if-modify, count_if_mono,
  ◌==◌, ℕ_discrete,
}
use phantom_tracker.Tracker.State.{Name, Name-discrete, Vm, Vcpu, Tracker}
use phantom_tracker.Tracker.Counter.{quiet, atomic_dec_if_pos, atomic_inc_if_lt_ceil}
use phantom_tracker.Tracker.Counter.Laws.{dec-quiet, inc-quiet}
use phantom_tracker.Tracker.Switch.{
  Event, run_state, marks, set_phantom, store_count, clear_phantom, switch_in, mark_phantom,
  switch_out, phantom_switch_handler, run,
}
use phantom_tracker.Tracker.Switch.Samples.{find, store_count-vms, store_count-frame}

-- Does a vCPU belong to the VM of this name, and is it one of its phantoms?
abbrev pub is_of : Name → Vcpu → Bool
is_of n v = ite (Name-discrete v.vm_name n) true false

abbrev pub is_phantom_of : Name → Vcpu → Bool
is_phantom_of n v = is_of n v && v.is_phantom == 1

abbrev pub phantoms : Name → Tracker → ℕ
phantoms n t = count_if (is_phantom_of n) t.vcpus

abbrev pub registered : Name → Tracker → ℕ
registered n t = count_if (is_of n) t.vcpus

-- Every VM's counter is the number of its vCPUs that are flagged as phantoms, and no VM has more
-- vCPUs registered than it declares.
pub record Exact (t : Tracker) : Type 0 where
  pub counts : (n : Name) (vm : Vm) → find t n ≡ some vm → vm.phantom_count ≡ pos (phantoms n t)
  pub room : (n : Name) (vm : Vm) → find t n ≡ some vm → registered n t ≤ vm.nb_vcpus

set_phantom-counts :
    (t : Tracker) (pid flag : ℕ) (v : Vcpu) (n : Name)
    → lookup ℕ_discrete pid t.vcpus ≡ some v
    → (phantoms n (set_phantom t pid flag) + bit (is_phantom_of n v)
        ≡ phantoms n t + bit (is_of n v && flag == 1))
      × (registered n (set_phantom t pid flag) ≡ registered n t)
unfolding set_phantom
set_phantom-counts t pid flag v n e = (
  count_if-modify ℕ_discrete (is_phantom_of n) pid (λ x. record x { is_phantom = flag }) t.vcpus v
      e,
  omega (
    arith,
    count_if-modify ℕ_discrete (is_of n) pid (λ x. record x { is_phantom = flag }) t.vcpus v e,
  ),
)

module _ (t : Tracker) (pid : ℕ) (v : Vcpu) (found : lookup ℕ_discrete pid t.vcpus ≡ some v)
    (exact : Exact t) where
  -- A flag that flips on a vCPU of a VM that is not registered changes no registered VM's count.
  flip_unregistered : (flag : ℕ) → find t v.vm_name ≡ none → Exact (set_phantom t pid flag)
  unfolding set_phantom
  flip_unregistered flag missing = record {
    counts = λ n vm e. ground (arith, set_phantom-counts t pid flag v n found, exact.counts n vm e);
    room = λ n vm e. ground (arith, set_phantom-counts t pid flag v n found, exact.room n vm e);
  }

  -- With the VM's counter set to the new count of its phantoms, the counters are exact again.
  flip_counted :
      (flag now : ℕ) (c word : ℤ) (vm : Vm)
      → find t v.vm_name ≡ some vm
      → word ≡ pos (phantoms v.vm_name (set_phantom t pid flag))
      → Exact (store_count (set_phantom t pid flag) v.vm_name vm (c, word) now)
  unfolding set_phantom
  flip_counted flag now c word vm here counted =
      let u : Tracker = set_phantom t pid flag in
      let (vcpus, _) = store_count-frame u v.vm_name vm c word now in
      record {
        counts = λ n w e.
            let (x, old, nb, form) = store_count-vms u v.vm_name vm c word now n w e in
            rw (ap (count_if (is_phantom_of n)) vcpus) (count_at n w x (old) form);
        room = λ n w e.
            let (x, old, nb, form) = store_count-vms u v.vm_name vm c word now n w e in
            omega (
              arith,
              ap (count_if (is_of n)) vcpus,
              (set_phantom-counts t pid flag v n found).1,
              exact.room n x (old),
              nb,
            );
      }
    where
      count_at :
          (n : Name) (w x : Vm)
          → find t n ≡ some x
          → w.phantom_count ≡ ite (Name-discrete v.vm_name n) word x.phantom_count
          → w.phantom_count ≡ pos (phantoms n (set_phantom t pid flag))
      count_at n w x old form =
          ground (arith, set_phantom-counts t pid flag v n found, exact.counts n x old)

  cleared_word :
      (vm : Vm)
      → find t v.vm_name ≡ some vm
      → v.is_phantom ≡ 1
      → (atomic_dec_if_pos quiet vm.phantom_count).1
        ≡ pos (phantoms v.vm_name (set_phantom t pid 0))
  cleared_word vm here flagged =
      rw (exact.counts v.vm_name vm here, dec-quiet (phantoms v.vm_name t))
        (ground (arith, set_phantom-counts t pid 0 v v.vm_name found))

  marked_word :
      (vm : Vm)
      → find t v.vm_name ≡ some vm
      → v.is_phantom ≡ 0
      → (atomic_inc_if_lt_ceil quiet vm.phantom_count vm.nb_vcpus).1
        ≡ pos (phantoms v.vm_name (set_phantom t pid 1))
  marked_word vm here flagged =
      rw (exact.counts v.vm_name vm here, inc-quiet (phantoms v.vm_name t) vm.nb_vcpus)
        (ground (
          arith,
          set_phantom-counts t pid 1 v v.vm_name found,
          count_if_mono (is_phantom_of v.vm_name) (is_of v.vm_name) (set_phantom t pid 1).vcpus
              phantom_of-le,
          exact.room v.vm_name vm here,
        ))
    where
      phantom_of-le : (x : Vcpu) → bit (is_phantom_of v.vm_name x) ≤ bit (is_of v.vm_name x)
      phantom_of-le x = ground arith

  clear_phantom-Exact :
      (e : Event) → e.others_in ≡ quiet → e.next_pid ≡ pid → Exact (clear_phantom e t v)
  unfolding clear_phantom
  clear_phantom-Exact e q p =
      elim (Bool-cases (run_state t v.vcpu_index == 1 && v.is_phantom == 1)) [
        | inl go ↦ elim (Option-cases (find t v.vm_name)) [
          | inl missing ↦ rw (go, clear_phantom, missing) (rw p (flip_unregistered 0 missing))
          | inr (vm, here) ↦
              rw (go, clear_phantom, here, q, p)
                (flip_counted 0 e.in_time _ _ vm here (cleared_word vm here (ground arith)))
        ]
        | inr stop ↦ rw (stop, clear_phantom) exact
      ]

  mark_phantom-Exact :
      (e : Event) (state : ℕ)
      → e.others_out ≡ quiet
      → e.prev_pid ≡ pid
      → Exact (mark_phantom e state t v)
  unfolding mark_phantom
  mark_phantom-Exact e state q p = elim (Bool-cases (marks t state v)) [
    | inl go ↦ elim (Option-cases (find t v.vm_name)) [
      | inl missing ↦ rw (go, mark_phantom, missing, p) (flip_unregistered 1 missing)
      | inr (vm, here) ↦
          rw (go, mark_phantom, here, q, p)
            (flip_counted 1 e.out_time _ _ vm here (marked_word vm here (ground arith)))
    ]
    | inr stop ↦ rw (stop, mark_phantom) exact
  ]

switch_in-Exact :
    (e : Event) (t : Tracker) → e.others_in ≡ quiet → Exact t → Exact (switch_in e t).0
unfolding switch_in
switch_in-Exact e t q exact = elim (Option-cases (lookup ℕ_discrete e.next_pid t.vcpus)) [
  | inl missing ↦ rw (missing, switch_in) exact
  | inr (v, found) ↦ rw (found, switch_in) (clear_phantom-Exact t e.next_pid v found exact e q refl)
]

switch_out-Exact :
    (e : Event) (t : Tracker) (state : ℕ)
    → e.others_out ≡ quiet
    → Exact t
    → Exact (switch_out e (t, state))
unfolding switch_out
switch_out-Exact e t state q exact = elim (Option-cases (lookup ℕ_discrete e.prev_pid t.vcpus)) [
  | inl missing ↦ rw (missing, switch_out) exact
  | inr (v, found) ↦
      rw (found, switch_out) (mark_phantom-Exact t e.prev_pid v found exact e state q refl)
]

-- No other CPU writes a counter during the event.
abbrev pub IsQuiet : Event → Type 0
IsQuiet e = (e.others_in ≡ quiet) × (e.others_out ≡ quiet)

-- A context switch keeps every VM's counter equal to the number of its phantom vCPUs, if no other
-- CPU writes the counters meanwhile; the clamps at zero and at `nb_vcpus` never bite.
pub handler-Exact :
    (e : Event) (t : Tracker) → IsQuiet e → Exact t → Exact (phantom_switch_handler e t)
unfolding phantom_switch_handler
handler-Exact e t q exact =
    switch_out-Exact e (switch_in e t).0 (switch_in e t).1 q.1 (switch_in-Exact e t q.0 exact)

abbrev pub AllQuiet : List Event → Type 0
AllQuiet [] = Unit
AllQuiet (e ∷ es) = IsQuiet e × AllQuiet es

-- If no VM has more vCPUs registered than its `nb_vcpus`, and no other CPU writes the counters
-- while a handler retries, any number of context switches keep every VM's counter equal to the
-- number of its vCPUs that are flagged as phantoms: the clamps at zero and at `nb_vcpus` never
-- bite.
pub run-Exact : (es : List Event) (t : Tracker) → AllQuiet es → Exact t → Exact (run es t)
unfolding run
run-Exact [] t q exact = exact
run-Exact (e ∷ es) t q exact =
    run-Exact es (phantom_switch_handler e t) q.1 (handler-Exact e t q.0 exact)
