-- ===== src/Tracker/Switch/Refines.antt =====
-- create_maps.bpf.c: the handler of context switches against its specification on a set of threads.
use phantom_tracker.Common.{
  ℕ, ◌≡◌, ap, sym, ◌∙◌, Bool, true, false, ◌&&◌, Option, none, some, arith, lookup, modify, bit,
  if◌then◌else◌, ◌==◌, ℕ_discrete, Option-cases, Bool-cases, inl, inr,
}
use phantom_tracker.Tracker.State.{Vcpu, Tracker}
use phantom_tracker.Tracker.Counter.{atomic_inc_if_lt_ceil}
use phantom_tracker.Tracker.Switch.{
  switch_out, phantom_switch_handler, Event, run_state, set_phantom, clear_phantom, switch_in,
  mark_phantom,
}
use phantom_tracker.Tracker.Switch.Samples.{find, store_count-frame}
use phantom_tracker.Tracker.Switch.Flags.{
  vcpu_of, clear_phantom-frame, mark_phantom-frame, run_state-shmem,
}
use phantom_tracker.Tracker.Switch.Spec.{
  Phantoms, Oracle, spec_in, spec_out, preempted, flag_all, Unique, put, lookup-flag_all,
  lookup-flag_all-none, modify-flag_all, put_same, spec_in-put, spec_in_same, spec_out-put,
  spec_out_same,
}

abbrev is_registered : Option Vcpu → Bool
is_registered none = false
is_registered (some v) = true

abbrev shows : Tracker → Option Vcpu → Bool
shows t none = false
shows t (some v) = run_state t v.vcpu_index == 1

-- What a state says about its threads.
abbrev pub oracle : Tracker → Oracle
oracle t = record {
  is_vcpu = λ pid. is_registered (vcpu_of t pid);
  reports = λ pid. shows t (vcpu_of t pid);
}

-- A state that differs from `t0` in its flags, which are those of the set, and in its VMs and buffers.
pub record Refines (t0 : Tracker) (s : Phantoms) (t : Tracker) : Type 0 where
  pub vcpus : t.vcpus ≡ flag_all s t0.vcpus
  pub shmem : t.shmem ≡ t0.shmem

mark_phantom-shmem :
    (e : Event) (state : ℕ) (t : Tracker) (v : Vcpu) → (mark_phantom e state t v).shmem ≡ t.shmem
unfolding mark_phantom set_phantom
mark_phantom-shmem e state t v = elim (Option-cases (find t v.vm_name)) [
  | inl missing ↦ ground arith
  | inr (vm, here) ↦
      (let (c, word) = atomic_inc_if_lt_ceil e.others_out vm.phantom_count vm.nb_vcpus in
        ground
          (arith, store_count-frame (set_phantom t e.prev_pid 1) v.vm_name vm c word e.out_time))
]

switch_out-shmem : (e : Event) (t : Tracker) (state : ℕ) → (switch_out e (t, state)).shmem ≡ t.shmem
unfolding switch_out
switch_out-shmem e t state = elim (Option-cases (vcpu_of t e.prev_pid)) [
  | inl missing ↦ ground arith
  | inr (v, found) ↦ ground (arith, mark_phantom-shmem e state t v)
]

switch_in-shmem : (e : Event) (t : Tracker) → (switch_in e t).0.shmem ≡ t.shmem
unfolding switch_in
switch_in-shmem e t = elim (Option-cases (vcpu_of t e.next_pid)) [
  | inl missing ↦ ground arith
  | inr (v, found) ↦ ground (arith, clear_phantom-frame e t v)
]

-- The handler reads the shared memory only.
pub handler-shmem : (e : Event) (t : Tracker) → (phantom_switch_handler e t).shmem ≡ t.shmem
unfolding phantom_switch_handler
handler-shmem e t = switch_out-shmem e (switch_in e t).0 (switch_in e t).1 ∙ switch_in-shmem e t

module _ (t0 : Tracker) (unique : Unique t0.vcpus) (s : Phantoms) (e : Event) (t : Tracker)
    (r : Refines t0 s t) where
  pub flagged : Vcpu → ℕ → Vcpu
  flagged v pid = record v { is_phantom = bit (s pid) }

  pub vcpu_of-some :
      (pid : ℕ) (v : Vcpu) → vcpu_of t0 pid ≡ some v → vcpu_of t pid ≡ some (flagged v pid)
  unfolding flagged
  vcpu_of-some pid v h = ap (lookup ℕ_discrete pid) r.vcpus ∙ lookup-flag_all pid s t0.vcpus v h

  pub vcpu_of-none : (pid : ℕ) → vcpu_of t0 pid ≡ none → vcpu_of t pid ≡ none
  vcpu_of-none pid h = ap (lookup ℕ_discrete pid) r.vcpus ∙ lookup-flag_all-none pid s t0.vcpus h

  set_phantom-vcpus :
      (pid : ℕ) (b : Bool) → (set_phantom t pid (bit b)).vcpus ≡ flag_all (put pid b s) t0.vcpus
  unfolding set_phantom
  set_phantom-vcpus pid b =
      ap (modify ℕ_discrete pid (λ v. record v { is_phantom = bit b })) r.vcpus
      ∙ modify-flag_all pid b s t0.vcpus unique

  pub same_set : (s' : Phantoms) → s' ≡ s → Refines t0 s' t
  same_set s' h = record {
    vcpus = r.vcpus ∙ ap (λ x. flag_all x t0.vcpus) (sym h);
    shmem = r.shmem;
  }

  clear_phantom-Refines :
      (v : Vcpu)
      → vcpu_of t0 e.next_pid ≡ some v
      → Refines t0 (spec_in (oracle t0) e s) (clear_phantom e t (flagged v e.next_pid))
  unfolding flagged
  clear_phantom-Refines v h =
      let (shmem, vcpus) = clear_phantom-frame e t (flagged v e.next_pid) in
      let runs = run_state-shmem t0 t v.vcpu_index r.shmem in
      elim (Bool-cases (run_state t0 v.vcpu_index == 1)) [
        | inr off ↦
            (let same = spec_in_same (oracle t0) e s (ground (arith, h, off)) in
              record {
                vcpus = vcpus ∙ ground (arith, runs, off) ∙ (same_set _ same).vcpus;
                shmem = shmem ∙ r.shmem;
              })
        | inl on ↦
            (let taken = spec_in-put (oracle t0) e s (ground (arith, h, on)) in
              elim (Bool-cases (s e.next_pid)) [
                | inl in_set ↦ record {
                  vcpus =
                      vcpus
                      ∙ ground (arith, runs, on, in_set, set_phantom-vcpus e.next_pid false)
                      ∙ ap (λ x. flag_all x t0.vcpus) (sym taken);
                  shmem = shmem ∙ r.shmem;
                }
                | inr out ↦ record {
                  vcpus =
                      vcpus
                      ∙ ground (arith, runs, on, out)
                      ∙ (same_set _ (taken ∙ put_same e.next_pid false s out)).vcpus;
                  shmem = shmem ∙ r.shmem;
                }
              ])
      ]

  pub switch_in-Refines :
      Refines t0 (spec_in (oracle t0) e s) (switch_in e t).0
      × ((switch_in e t).1 ≡ (if (oracle t0).is_vcpu e.next_pid then e.prev_state else 0))
  unfolding switch_in
  switch_in-Refines = elim (Option-cases (vcpu_of t0 e.next_pid)) [
    | inl missing ↦
        rw (switch_in, vcpu_of-none e.next_pid missing)
          (
            same_set _ (spec_in_same (oracle t0) e s (ground (arith, missing))),
            ground (arith, missing),
          )
    | inr (v, here) ↦
        rw (switch_in, vcpu_of-some e.next_pid v here)
          (clear_phantom-Refines v here, ground (arith, here))
  ]

  pub mark_phantom-Refines :
      (v : Vcpu) (state : ℕ)
      → vcpu_of t0 e.prev_pid ≡ some v
      → state ≡ (if (oracle t0).is_vcpu e.next_pid then e.prev_state else 0)
      → Refines t0 (spec_out (oracle t0) e s) (mark_phantom e state t (flagged v e.prev_pid))
  unfolding flagged preempted
  mark_phantom-Refines v state h judged =
      let w = flagged v e.prev_pid in
      let vcpus = mark_phantom-frame e state t w in
      let shmem = mark_phantom-shmem e state t w ∙ r.shmem in
      let runs = run_state-shmem t0 t v.vcpu_index r.shmem in
      elim (Bool-cases (run_state t0 v.vcpu_index == 1 && preempted (oracle t0) e)) [
        | inr off ↦
            (let same = spec_out_same (oracle t0) e s (ground (arith, h, off)) in
              record {
                vcpus = vcpus ∙ ground (arith, runs, off, judged) ∙ (same_set _ same).vcpus;
                shmem = shmem;
              })
        | inl on ↦
            (let taken =
                spec_out-put (oracle t0) e s (ground (arith, h, on)) (ground (arith, on)) in
              elim (Bool-cases (s e.prev_pid)) [
                | inr out ↦ record {
                  vcpus =
                      vcpus
                      ∙ ground (arith, runs, on, judged, out, set_phantom-vcpus e.prev_pid true)
                      ∙ ap (λ x. flag_all x t0.vcpus) (sym taken);
                  shmem = shmem;
                }
                | inl in_set ↦ record {
                  vcpus =
                      vcpus
                      ∙ ground (arith, runs, on, judged, in_set)
                      ∙ (same_set _ (taken ∙ put_same e.prev_pid true s in_set)).vcpus;
                  shmem = shmem;
                }
              ])
      ]
