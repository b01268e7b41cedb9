-- ===== src/Tracker/Switch/Samples.antt =====
-- create_maps.bpf.c: what recording a sample leaves alone, and how a write to one VM shows in a lookup.
use phantom_tracker.Common.{
  Bool-cases, List, ℕ, ◌≡◌, refl, Option, some, Option-cases, inl, inr, ite, ℤ, arith, lookup,
  modify, lookup-modify_inv, ◌==◌,
}
use phantom_tracker.Tracker.State.{Name, Name-discrete, Vm, Sample, Buffer, Tracker}
use phantom_tracker.Tracker.Keys.{digit_1, digit_2, collection_key}
use phantom_tracker.Tracker.Switch.{sample_in_buff_1, sample_in_buff_2, record_sample, store_count}

-- The second state has the first one's vCPUs and shared memory, and VMs that differ at most in
-- their buffer indices.
pub record Keeps (t u : Tracker) : Type 0 where
  pub vcpus : u.vcpus ≡ t.vcpus
  pub shmem : u.shmem ≡ t.shmem
  pub vms :
      (n : Name) (w : Vm)
      → lookup Name-discrete n u.vms ≡ some w
      → (v : Vm) × (lookup Name-discrete n t.vms ≡ some v)
        × (w.phantom_count ≡ v.phantom_count)
        × (w.nb_vcpus ≡ v.nb_vcpus)
        × (w.is_collectx_in_buff_1 ≡ v.is_collectx_in_buff_1)

abbrev pub find : Tracker → Name → Option Vm
find t n = lookup Name-discrete n t.vms

Keeps-refl : (t : Tracker) → Keeps t t
Keeps-refl t = record { vcpus = refl; shmem = refl; vms = λ n w e. (w, e, refl, refl, refl) }

-- A write that changes no more than the buffer indices.
index_write-Keeps :
    (t : Tracker) (name : Name) (f : Vm → Vm) (r : List (Name × Buffer))
    → ((v : Vm)
        → ((f v).phantom_count ≡ v.phantom_count)
          × ((f v).nb_vcpus ≡ v.nb_vcpus)
          × ((f v).is_collectx_in_buff_1 ≡ v.is_collectx_in_buff_1))
    → Keeps t (record t { vms = modify Name-discrete name f t.vms; map_registry = r })
index_write-Keeps t name f r h = record {
  vcpus = refl;
  shmem = refl;
  vms = λ n w e.
      let (v, found, form) = lookup-modify_inv Name-discrete name n f t.vms w e in
      (v, found, ground (arith, h v), ground (arith, h v), ground (arith, h v));
}

sample_in_buff_1-Keeps :
    (t : Tracker) (name : Name) (vm : Vm) (s : Sample) → Keeps t (sample_in_buff_1 t name vm s)
unfolding sample_in_buff_1
sample_in_buff_1-Keeps t name vm s =
    elim (Option-cases (lookup Name-discrete (collection_key digit_1 name) t.map_registry)) [
      | inl e ↦ rw (e, sample_in_buff_1) (Keeps-refl t)
      | inr (b, e) ↦
          rw (e, sample_in_buff_1) (index_write-Keeps t name _ _ (λ v. (refl, refl, refl)))
    ]

sample_in_buff_2-Keeps :
    (t : Tracker) (name : Name) (vm : Vm) (s : Sample) → Keeps t (sample_in_buff_2 t name vm s)
unfolding sample_in_buff_2
sample_in_buff_2-Keeps t name vm s =
    elim (Option-cases (lookup Name-discrete (collection_key digit_2 name) t.map_registry)) [
      | inl e ↦ rw (e, sample_in_buff_2) (Keeps-refl t)
      | inr (b, e) ↦
          rw (e, sample_in_buff_2) (index_write-Keeps t name _ _ (λ v. (refl, refl, refl)))
    ]

pub record_sample-Keeps :
    (t : Tracker) (name : Name) (vm : Vm) (c : ℤ) (now : ℕ)
    → Keeps t (record_sample t name vm c now)
unfolding record_sample
record_sample-Keeps t name vm c now = elim (Bool-cases (vm.is_collectx_in_buff_1 == 1)) [
  | inl e ↦ rw (e, record_sample) (sample_in_buff_1-Keeps t name vm _)
  | inr e ↦ rw (e, record_sample) (sample_in_buff_2-Keeps t name vm _)
]

-- After a counter was stored: the VM of that name holds the stored word, every other VM its old
-- count, and nothing else differs but buffers and their indices.
pub store_count-vms :
    (t : Tracker) (name : Name) (vm : Vm) (c word : ℤ) (now : ℕ) (n : Name) (w : Vm)
    → find (store_count t name vm (c, word) now) n ≡ some w
    → (v : Vm) × (find t n ≡ some v)
      × (w.nb_vcpus ≡ v.nb_vcpus)
      × (w.phantom_count ≡ ite (Name-discrete name n) word v.phantom_count)
unfolding store_count
store_count-vms t name vm c word now n w e =
    let written : List (Name × Vm) =
      modify Name-discrete name (λ v. record v { phantom_count = word }) t.vms in
    let kept =
      record_sample-Keeps (record t { vms = written }) name (record vm { phantom_count = word }) c
        now in
    let (v, found, same, nb, _) = kept.vms n w e in
    let (u, old, form) =
      lookup-modify_inv Name-discrete name n (λ x. record x { phantom_count = word }) t.vms v
        found in
    (u, old, ground arith, ground arith)

pub store_count-frame :
    (t : Tracker) (name : Name) (vm : Vm) (c word : ℤ) (now : ℕ)
    → ((store_count t name vm (c, word) now).vcpus ≡ t.vcpus)
      × ((store_count t name vm (c, word) now).shmem ≡ t.shmem)
unfolding store_count
store_count-frame t name vm c word now =
    let written : List (Name × Vm) =
      modify Name-discrete name (λ v. record v { phantom_count = word }) t.vms in
    let kept =
      record_sample-Keeps (record t { vms = written }) name (record vm { phantom_count = word }) c
        now in
    (kept.vcpus, kept.shmem)
