-- ===== src/Tracker/Timer/Called.antt =====
-- timer.bpf.c: a VM's samples over a callback, its own or another VM's.
use phantom_tracker.Common.{
  ℕ, ◌+◌, ◌≡◌, ◌≢◌, refl, Option, some, List, [], ◌∷◌, Option-cases, inl, inr, lookup,
}
use phantom_tracker.Tracker.State.{Name, Name-discrete, Vm, Buffer, GlobalState, Tracker}
use phantom_tracker.Tracker.Keys.{digit_1, digit_2, collection_key}
use phantom_tracker.Tracker.Watermark.{next_history_slot}
use phantom_tracker.Tracker.Switch.Samples.{find}
use phantom_tracker.Tracker.Timer.{
  Readings, Elem, swap_buffers, publish, callback_fn, for_each_vm, timer_cb,
}
use phantom_tracker.Tracker.History.{call, run_tracker, tick_events}
use phantom_tracker.Tracker.History.Located.{
  vm-Located, other-Located, one-Located, two-Located, elsewhere-Located,
}
use phantom_tracker.Tracker.History.Collects.{Collects, swap-Collects}
use phantom_tracker.Tracker.History.Sampled.{Sampled}

module _ (name : Name) (nb : ℕ) where
  -- The next history slot is no part of the samples.
  history-Collects :
      (vm : Vm) (buff_1 buff_2 : Buffer) (now n : ℕ)
      → Collects nb vm buff_1 buff_2 now n
      → Collects nb (next_history_slot vm).1 buff_1 buff_2 now n
  unfolding next_history_slot
  history-Collects vm buff_1 buff_2 now n c = record {
    room_1 = c.room_1;
    room_2 = c.room_2;
    nb_vcpus = c.nb_vcpus;
    flag = c.flag;
    counted = c.counted;
    index = c.index;
    collected = c.collected;
  }

  -- A callback for the VM opens its other buffer.
  pub own-Called :
      (k : Readings) (g : Option GlobalState) (t : Tracker) (now n : ℕ)
      → (s : Sampled name nb t now n) → Sampled name nb (callback_fn k g t name s.vm) k.start_time 1
  unfolding callback_fn publish
  own-Called k g t now n s =
      let swap = swap_buffers k s.vm s.buff_1 s.buff_2 in
      let vm' = (next_history_slot swap.vm).1 in
      let moved =
        vm-Located name t.vms t.map_registry s.vm s.buff_1 s.buff_2 s.located (λ v. vm') in
      let first = one-Located name _ t.map_registry _ s.buff_1 s.buff_2 moved (λ b. swap.buff_1) in
      rw (s.located.one, callback_fn, s.located.two)
        record {
          vm = vm';
          buff_1 = swap.buff_1;
          buff_2 = swap.buff_2;
          located = two-Located name _ _ _ _ s.buff_2 first (λ b. swap.buff_2);
          collects =
              history-Collects swap.vm swap.buff_1 swap.buff_2 k.start_time 1
                (swap-Collects nb s.vm s.buff_1 s.buff_2 now n s.collects k);
        }

  -- A callback for another VM leaves the samples alone.
  pub other-Called :
      (k : Readings) (g : Option GlobalState) (t : Tracker) (other : Name) (vm : Vm) (now n : ℕ)
      → find t other ≡ some vm
      → other ≢ name
      → Sampled name nb t now n
      → Sampled name nb (callback_fn k g t other vm) now n
  unfolding callback_fn publish
  other-Called k g t other vm now n here ne s =
      elim (Option-cases (lookup Name-discrete (collection_key digit_1 other) t.map_registry)) [
        | inl e ↦ rw (e, callback_fn) s
        | inr (b1, e) ↦
            elim (Option-cases
              (lookup Name-discrete (collection_key digit_2 other) t.map_registry)) [
                | inl f ↦ rw (e, callback_fn, f) s
                | inr (b2, f) ↦
                    (let ((n11, n12), (n21, n22)) = s.located.apart other vm here ne in
                      let first =
                        elsewhere-Located name t.vms t.map_registry s.vm s.buff_1 s.buff_2 s.located
                          (collection_key digit_1 other) (λ b. _) n11 n12 in
                      let second =
                        elsewhere-Located name t.vms _ s.vm s.buff_1 s.buff_2 first
                          (collection_key digit_2 other) (λ b. _) n21 n22 in
                      rw (e, callback_fn, f)
                        record {
                          vm = s.vm;
                          buff_1 = s.buff_1;
                          buff_2 = s.buff_2;
                          located =
                              other-Located name t.vms _ s.vm s.buff_1 s.buff_2 second other _ ne;
                          collects = s.collects;
                        })
              ]
      ]

for_each_vm-run :
    (clock : ℕ → Readings) (g : Option GlobalState) (m : List (Name × Vm)) (i : ℕ) (t : Tracker)
    → for_each_vm clock g m i t ≡ run_tracker (tick_events clock g m i) t
unfolding for_each_vm run_tracker call tick_events
for_each_vm-run clock g [] i t = refl
for_each_vm-run clock g ((name, _) ∷ rest) i t =
    for_each_vm-run clock g rest (i + 1) (call (clock i) g name t)

-- A tick of the timer is the run of its callbacks.
pub timer_cb-run :
    (clock : ℕ → Readings) (g : Option GlobalState) (e : Elem) (t : Tracker)
    → (timer_cb clock g e t).1 ≡ run_tracker (tick_events clock g t.vms 0) t
unfolding timer_cb
timer_cb-run clock g e t = for_each_vm-run clock g t.vms 0 t
