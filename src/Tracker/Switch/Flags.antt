-- ===== src/Tracker/Switch/Flags.antt =====
-- create_maps.bpf.c: which vCPUs a context switch flags as phantoms, and which flags it clears.
use phantom_tracker.Common.{
  ℕ, ◌≡◌, ◌≢◌, Bool, ◌&&◌, Option, none, some, Option-cases, inl, inr, arith, lookup,
  lookup-modify_self, lookup-modify_ne, if◌then◌else◌, ◌==◌, ℕ_discrete,
}
use phantom_tracker.Tracker.State.{Vcpu, Tracker}
use phantom_tracker.Tracker.Counter.{atomic_dec_if_pos, atomic_inc_if_lt_ceil}
use phantom_tracker.Tracker.Switch.{
  Event, run_state, marks, set_phantom, clear_phantom, switch_in, mark_phantom, switch_out,
  phantom_switch_handler,
}
use phantom_tracker.Tracker.Switch.Samples.{find, store_count-frame}

abbrev pub clears : Tracker → Vcpu → Bool
clears t v = run_state t v.vcpu_index == 1 && v.is_phantom == 1

pub clear_phantom-frame :
    (e : Event) (t : Tracker) (v : Vcpu)
    → ((clear_phantom e t v).shmem ≡ t.shmem)
      × ((clear_phantom e t v).vcpus
          ≡ (if clears t v then (set_phantom t e.next_pid 0).vcpus else t.vcpus))
unfolding clear_phantom set_phantom
clear_phantom-frame e t v = elim (Option-cases (find t v.vm_name)) [
  | inl missing ↦ ground arith
  | inr (vm, here) ↦
      (let (c, word) = atomic_dec_if_pos e.others_in vm.phantom_count in
        ground
          (arith, store_count-frame (set_phantom t e.next_pid 0) v.vm_name vm c word e.in_time))
]

pub mark_phantom-frame :
    (e : Event) (state : ℕ) (t : Tracker) (v : Vcpu)
    → (mark_phantom e state t v).vcpus
      ≡ (if marks t state v then (set_phantom t e.prev_pid 1).vcpus else t.vcpus)
unfolding mark_phantom set_phantom
mark_phantom-frame e state t v = elim (Option-cases (find t v.vm_name)) [
  | inl missing ↦ ground arith
  | inr (vm, here) ↦
      (let (c, word) = atomic_inc_if_lt_ceil e.others_out vm.phantom_count vm.nb_vcpus in
        ground
          (arith, store_count-frame (set_phantom t e.prev_pid 1) v.vm_name vm c word e.out_time))
]

pub run_state-shmem : (t u : Tracker) (i : ℕ) → u.shmem ≡ t.shmem → run_state u i ≡ run_state t i
unfolding run_state
run_state-shmem t u i e = rw e

abbrev pub vcpu_of : Tracker → ℕ → Option Vcpu
vcpu_of t pid = lookup ℕ_discrete pid t.vcpus

set_phantom_self :
    (t : Tracker) (pid flag : ℕ) (v : Vcpu)
    → vcpu_of t pid ≡ some v
    → vcpu_of (set_phantom t pid flag) pid ≡ some (record v { is_phantom = flag })
unfolding set_phantom
set_phantom_self t pid flag v e =
    rw (lookup-modify_self ℕ_discrete pid (λ x. record x { is_phantom = flag }) t.vcpus, e)

set_phantom_ne :
    (t : Tracker) (pid flag other : ℕ)
    → pid ≢ other
    → vcpu_of (set_phantom t pid flag) other ≡ vcpu_of t other
unfolding set_phantom
set_phantom_ne t pid flag other ne =
    lookup-modify_ne ℕ_discrete pid other (λ x. record x { is_phantom = flag }) t.vcpus ne

-- The state by which the outgoing task is judged: only an incoming vCPU makes the handler read it.
abbrev pub judged_state : Event → Tracker → ℕ
judged_state e t = elim (vcpu_of t e.next_pid) [ none ↦ 0 | some w ↦ e.prev_state ]

-- What the incoming half does to any vCPU, and that it leaves the shared memory alone.
switch_in-flags :
    (e : Event) (t : Tracker) (pid : ℕ) (v : Vcpu)
    → vcpu_of t pid ≡ some v
    → ((switch_in e t).0.shmem ≡ t.shmem)
      × ((switch_in e t).1 ≡ judged_state e t)
      × (vcpu_of (switch_in e t).0 pid
          ≡ some (record v {
            is_phantom = if e.next_pid == pid && clears t v then 0 else v.is_phantom;
          }))
unfolding switch_in
switch_in-flags e t pid v found = elim (Option-cases (vcpu_of t e.next_pid)) [
  | inl missing ↦ ground arith
  | inr (w, here) ↦ ground (
    arith,
    clear_phantom-frame e t w,
    set_phantom_self t e.next_pid 0 w,
    set_phantom_ne t e.next_pid 0 pid,
  )
]

module _ (e : Event) (t : Tracker) (v : Vcpu) (distinct : e.prev_pid ≢ e.next_pid) where
  -- A registered vCPU thread that is switched in, in place of another task than itself: its flag is
  -- cleared if it was set while the guest reports an OpenMP thread on that CPU, and is left alone
  -- otherwise.
  pub incoming_flag :
      vcpu_of t e.next_pid ≡ some v
      → vcpu_of (phantom_switch_handler e t) e.next_pid
        ≡ some (record v { is_phantom = if clears t v then 0 else v.is_phantom })
  unfolding phantom_switch_handler switch_out
  incoming_flag found = elim (Option-cases (vcpu_of (switch_in e t).0 e.prev_pid)) [
    | inl missing ↦ ground (arith, switch_in-flags e t e.next_pid v found)
    | inr (w, here) ↦ ground (
      arith,
      switch_in-flags e t e.next_pid v found,
      mark_phantom-frame e (switch_in e t).1 (switch_in e t).0 w,
      set_phantom_ne (switch_in e t).0 e.prev_pid 1 e.next_pid,
    )
  ]

  -- A registered vCPU thread that is switched out, for another task than itself: it is flagged if
  -- the guest reports an OpenMP thread on that CPU, the judged state is running or waking, and it
  -- was not flagged; it is left alone otherwise.
  pub outgoing_flag :
      vcpu_of t e.prev_pid ≡ some v
      → vcpu_of (phantom_switch_handler e t) e.prev_pid
        ≡ some (record v { is_phantom = if marks t (judged_state e t) v then 1 else v.is_phantom })
  unfolding phantom_switch_handler switch_out
  outgoing_flag found = ground (
    arith,
    switch_in-flags e t e.prev_pid v found,
    run_state-shmem t (switch_in e t).0 v.vcpu_index,
    mark_phantom-frame e (switch_in e t).1 (switch_in e t).0 v,
    set_phantom_self (switch_in e t).0 e.prev_pid 1 v,
  )

  -- If the guest reports an OpenMP thread on its CPU, a vCPU thread without a flag that gives up
  -- its CPU to a task that is no vCPU is flagged as a phantom whatever its state was, so also when
  -- it blocked of its own accord.
  pub blocked_vcpu_flagged :
      vcpu_of t e.next_pid ≡ none
      → vcpu_of t e.prev_pid ≡ some v
      → run_state t v.vcpu_index ≡ 1
      → v.is_phantom ≡ 0
      → vcpu_of (phantom_switch_handler e t) e.prev_pid ≡ some (record v { is_phantom = 1 })
  blocked_vcpu_flagged alone found runs clear = ground (arith, outgoing_flag found)
