-- ===== src/Tracker/Timer/Exact.antt =====
-- timer.bpf.c: the phantom counters and the vCPUs over a tick.
use phantom_tracker.Common.{
  ℕ, ◌+◌, ◌≡◌, Option, some, List, [], ◌∷◌, Option-cases, inl, inr, arith, lookup,
  lookup-modify_inv,
}
use phantom_tracker.Tracker.State.{Name, Name-discrete, Vm, Buffer, GlobalState, Tracker}
use phantom_tracker.Tracker.Keys.{digit_1, digit_2, collection_key}
use phantom_tracker.Tracker.Watermark.{next_history_slot}
use phantom_tracker.Tracker.Switch.Samples.{find}
use phantom_tracker.Tracker.Switch.Exact.{Exact}
use phantom_tracker.Tracker.Timer.{
  Readings, Swapped, Elem, swap_to_1, swap_to_2, swap_buffers, publish, callback_fn, for_each_vm,
  timer_cb,
}

swap_buffers-counts :
    (k : Readings) (vm : Vm) (b1 b2 : Buffer)
    → ((swap_buffers k vm b1 b2).vm.phantom_count ≡ vm.phantom_count)
      × ((swap_buffers k vm b1 b2).vm.nb_vcpus ≡ vm.nb_vcpus)
unfolding swap_buffers swap_to_1 swap_to_2
swap_buffers-counts k vm b1 b2 = ground arith

publish-Exact :
    (k : Readings) (g : Option GlobalState) (name : Name) (t : Tracker) (s : Swapped) (vm : Vm)
    → find t name ≡ some vm
    → s.vm.phantom_count ≡ vm.phantom_count
    → s.vm.nb_vcpus ≡ vm.nb_vcpus
    → Exact t
    → Exact (publish k g name t s)
unfolding publish next_history_slot
publish-Exact k g name t s vm here same nb exact = record {
  counts = λ n w e.
      let (v, old, form) = lookup-modify_inv Name-discrete name n _ t.vms w e in
      ground (arith, exact.counts n v old, exact.counts name vm here);
  room = λ n w e.
      let (v, old, form) = lookup-modify_inv Name-discrete name n _ t.vms w e in
      ground (arith, exact.room n v old, exact.room name vm here);
}

callback_fn-Exact :
    (k : Readings) (g : Option GlobalState) (t : Tracker) (name : Name) (vm : Vm)
    → find t name ≡ some vm
    → Exact t
    → Exact (callback_fn k g t name vm)
unfolding callback_fn
callback_fn-Exact k g t name vm here exact =
    elim (Option-cases (lookup Name-discrete (collection_key digit_1 name) t.map_registry)) [
      | inl e ↦ rw (e, callback_fn) exact
      | inr (b1, e) ↦
          elim (Option-cases (lookup Name-discrete (collection_key digit_2 name) t.map_registry)) [
            | inl f ↦ rw (e, callback_fn, f) exact
            | inr (b2, f) ↦
                (let (same, nb) = swap_buffers-counts k vm b1 b2 in
                  rw (e, callback_fn, f) (publish-Exact k g name t _ vm here same nb exact))
          ]
    ]

for_each_vm-Exact :
    (clock : ℕ → Readings) (g : Option GlobalState) (m : List (Name × Vm)) (i : ℕ) (t : Tracker)
    → Exact t
    → Exact (for_each_vm clock g m i t)
unfolding for_each_vm
for_each_vm-Exact clock g [] i t exact = exact
for_each_vm-Exact clock g ((name, old) ∷ rest) i t exact = elim (Option-cases (find t name)) [
  | inl e ↦ rw e (for_each_vm-Exact clock g rest (i + 1) t exact)
  | inr (vm, e) ↦ rw e (
      for_each_vm-Exact clock g rest (i + 1) (callback_fn (clock i) g t name vm)
        (callback_fn-Exact (clock i) g t name vm e exact))
]

-- If every VM's counter equals the number of its phantom vCPUs, and no VM has more vCPUs registered
-- than its `nb_vcpus`, that is so after a tick of the timer too, whatever the state of the buffers.
pub timer_cb-Exact :
    (clock : ℕ → Readings) (g : Option GlobalState) (e : Elem) (t : Tracker)
    → Exact t
    → Exact (timer_cb clock g e t).1
unfolding timer_cb
timer_cb-Exact clock g e t exact = for_each_vm-Exact clock g t.vms 0 t exact
