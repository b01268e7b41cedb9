-- ===== src/Tracker/Switch/Recorded.antt =====
-- create_maps.bpf.c: what recording a sample does to the samples of a VM, its own or another one.
use phantom_tracker.Common.{
  ℕ, ◌+◌, ◌≤◌, ◌<◌, ◌^◌, ◌≡◌, ◌≢◌, arith, ℤ, some, Option-cases, Bool-cases, inl, inr, lookup,
  modify, u32, ◌==◌,
}
use phantom_tracker.Tracker.State.{Name, Name-discrete, Vm, Sample, update_elem, Tracker}
use phantom_tracker.Tracker.Keys.{digit_1, digit_2, collection_key}
use phantom_tracker.Tracker.Counter.Laws.{InRange}
use phantom_tracker.Tracker.Switch.{sample_in_buff_1, sample_in_buff_2, record_sample, store_count}
use phantom_tracker.Tracker.Switch.Samples.{find}
use phantom_tracker.Tracker.History.Located.{vm-Located, one-Located, two-Located}
use phantom_tracker.Tracker.History.Collects.{one-Collects, two-Collects}
use phantom_tracker.Tracker.History.Sampled.{
  Sampled, later-Sampled, elsewhere-Sampled, counter-Sampled,
}

module _ (name : Name) (nb : ℕ) where
  -- The counter of another VM, and its sample.
  other-Sampled :
      (t : Tracker) (now n : ℕ) (other : Name) (vm : Vm) (c word : ℤ) (time : ℕ)
      → find t other ≡ some vm
      → other ≢ name
      → Sampled name nb t now n
      → Sampled name nb (store_count t other vm (c, word) time) now n
  unfolding store_count record_sample sample_in_buff_1 sample_in_buff_2
  other-Sampled t now n other vm c word time here ne s =
      let ((n11, n12), (n21, n22)) = s.located.apart other vm here ne in
      let u : Tracker = record t {
        vms = modify Name-discrete other (λ v. record v { phantom_count = word }) t.vms;
      } in
      let counted : Sampled name nb u now n =
        counter-Sampled name nb t now n other (λ v. record v { phantom_count = word }) ne s in
      elim (Bool-cases (vm.is_collectx_in_buff_1 == 1)) [
        | inl e ↦
            elim (Option-cases
              (lookup Name-discrete (collection_key digit_1 other) t.map_registry)) [
                | inl f ↦ rw (e, sample_in_buff_1, f) counted
                | inr (b, f) ↦
                    rw (e, sample_in_buff_1, f)
                      (elsewhere-Sampled name nb u now n other _ _ _ ne n11 n12 counted)
              ]
        | inr e ↦
            elim (Option-cases
              (lookup Name-discrete (collection_key digit_2 other) t.map_registry)) [
                | inl f ↦ rw (e, sample_in_buff_2, f) counted
                | inr (b, f) ↦
                    rw (e, sample_in_buff_2, f)
                      (elsewhere-Sampled name nb u now n other _ _ _ ne n21 n22 counted)
              ]
      ]

  -- The counter of the VM itself, and its sample.
  own-Sampled :
      (t : Tracker) (now n : ℕ) (s : Sampled name nb t now n) (c word : ℤ) (time : ℕ)
      → n + 1 < 2 ^ 32
      → now ≤ time
      → InRange nb word
      → InRange nb c
      → Sampled name nb (store_count t name s.vm (c, word) time) time (n + 1)
  unfolding store_count record_sample sample_in_buff_1 sample_in_buff_2
  own-Sampled t now n s c word time fits later counted sampled =
      let q : Sample = record { count = c; timestamp = time } in
      let f : Vm → Vm = λ v. record v { phantom_count = word } in
      let l = vm-Located name t.vms t.map_registry s.vm s.buff_1 s.buff_2 s.located f in
      elim (Bool-cases (s.vm.is_collectx_in_buff_1 == 1)) [
        | inl e ↦
            (let g : Vm → Vm = λ v. record v {
              collection_buff_1_index = u32 (s.vm.collection_buff_1_index + 1);
            } in
              rw (e, sample_in_buff_1, s.located.one)
                record {
                  vm = g (f s.vm);
                  buff_1 = update_elem s.buff_1 s.vm.collection_buff_1_index q;
                  buff_2 = s.buff_2;
                  located =
                      one-Located name _ t.map_registry _ _ _
                        (vm-Located name _ t.map_registry _ _ _ l g)
                        (λ b. update_elem b s.vm.collection_buff_1_index q);
                  collects =
                      one-Collects nb s.vm s.buff_1 s.buff_2 now n word q s.collects fits later
                        counted sampled e;
                })
        | inr e ↦
            (let g : Vm → Vm = λ v. record v {
              collection_buff_2_index = u32 (s.vm.collection_buff_2_index + 1);
            } in
              rw (e, sample_in_buff_2, s.located.two)
                record {
                  vm = g (f s.vm);
                  buff_1 = s.buff_1;
                  buff_2 = update_elem s.buff_2 s.vm.collection_buff_2_index q;
                  located =
                      two-Located name _ t.map_registry _ _ _
                        (vm-Located name _ t.map_registry _ _ _ l g)
                        (λ b. update_elem b s.vm.collection_buff_2_index q);
                  collects =
                      two-Collects nb s.vm s.buff_1 s.buff_2 now n word q s.collects fits later
                        counted sampled e;
                })
      ]

  -- The counter and the sample of whichever VM the vCPU belongs to.
  pub store_count-Sampled :
      (t : Tracker) (now n : ℕ) (key : Name) (vm : Vm) (c word : ℤ) (time : ℕ)
      → find t key ≡ some vm
      → n + 1 < 2 ^ 32
      → now ≤ time
      → (key ≡ name → InRange nb word × InRange nb c)
      → Sampled name nb t now n
      → Sampled name nb (store_count t key vm (c, word) time) time (n + 1)
  store_count-Sampled t now n key vm c word time here fits later ranged s =
      elim (Name-discrete key name) [
        | yes p ↦
            (let same : s.vm ≡ vm = ground (arith, s.located.found) in
              rw (p, ← same)
                (own-Sampled t now n s c word time fits later (ranged p).0 (ranged p).1))
        | no p ↦
            later-Sampled name nb _ now n time (n + 1) later (omega arith)
              (other-Sampled t now n key vm c word time here p s)
      ]
