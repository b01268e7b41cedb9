-- ===== src/Tracker/Register/Fresh.antt =====
-- register_vm.h against create_maps.bpf.c: the phantom counters and the flags after a registration.
use phantom_tracker.Common.{
  ℕ, zero, suc, ◌+◌, ◌^◌, ◌≤◌, ◌<◌, ◌≡◌, ◌≢◌, refl, ap, ◌∙◌, arith, Bool, true, List, [], ◌∷◌,
  length, some, none, lookup, insert, ite, lookup-insert_self, lookup-insert_ne, count_if, bit,
  ℕ_discrete,
}
use phantom_tracker.Tracker.State.{Name, Name-discrete, Vm, Vcpu, Tracker}
use phantom_tracker.Tracker.Switch.Exact.{Exact, is_of, is_phantom_of, phantoms, registered}
use phantom_tracker.Tracker.Register.{
  pad, c_string, vm_key, QmpVcpu, ToolAnswers, delete_of, new_vcpu, add_vcpus, new_vm, register_vm,
}
use phantom_tracker.Tracker.Register.Keys.{no_nul, take-all}

-- Behind a string comes its NUL.
pub c_string-pad :
    (m : ℕ) (xs : List ℕ) → no_nul xs ≡ true → length xs < m → c_string (pad m xs) ≡ xs
unfolding c_string pad
c_string-pad zero xs s h = absurd (omega arith)
c_string-pad (suc m) [] s h = refl
c_string-pad (suc m) (x ∷ xs) s h = ground (arith, c_string-pad m xs)

count_if-insert_new :
    (p : Vcpu → Bool) (k : ℕ) (v : Vcpu) (m : List (ℕ × Vcpu))
    → lookup ℕ_discrete k m ≡ none
    → count_if p (insert ℕ_discrete k v m) ≡ count_if p m + bit (p v)
unfolding count_if insert lookup
count_if-insert_new p k v [] h = omega arith
count_if-insert_new p k v ((j, w) ∷ m) h = ground (arith, count_if-insert_new p k v m)

-- Every stored name is a padded string.
abbrev pub AllPadded : List (ℕ × Vcpu) → Type 0
AllPadded [] = Unit
AllPadded ((k, v) ∷ m) = (v.vm_name ≡ vm_key (c_string v.vm_name)) × AllPadded m

-- Every thread of the list is new to the map, also after those before it were added.
abbrev pub Unused : List ℕ → List QmpVcpu → List (ℕ × Vcpu) → Type 0
Unused vm_name [] m = Unit
Unused vm_name (q ∷ qs) m =
    (lookup ℕ_discrete q.thread_id m ≡ none)
    × Unused vm_name qs (insert ℕ_discrete q.thread_id (new_vcpu vm_name q) m)

module _ (vm_name : List ℕ) (n : Name) where
  -- Adding vCPUs counts them for their VM, and adds no phantom to any.
  added-counts :
      (add : ℕ → Bool) (i : ℕ) (qs : List QmpVcpu) (m m' : List (ℕ × Vcpu))
      → Unused vm_name qs m
      → add_vcpus add i vm_name qs m ≡ (true, m')
      → (count_if (is_phantom_of n) m' ≡ count_if (is_phantom_of n) m)
        × (count_if (is_of n) m'
            ≡ count_if (is_of n) m + ite (Name-discrete (vm_key vm_name) n) (length qs) 0)
  unfolding add_vcpus
  added-counts add i [] m m' u h = (ground arith, ground arith)
  added-counts add i (q ∷ qs) m m' (new, rest) h =
      let next = insert ℕ_discrete q.thread_id (new_vcpu vm_name q) m in
      let (phantoms, registered) = added-counts add (i + 1) qs next m' rest (ground arith) in
      let one = count_if-insert_new (is_phantom_of n) q.thread_id (new_vcpu vm_name q) m new in
      let two = count_if-insert_new (is_of n) q.thread_id (new_vcpu vm_name q) m new in
      (ground arith, ground arith)

  -- Cleaning up removes the vCPUs of the VM, and no other's.
  pub deleted-counts :
      (m : List (ℕ × Vcpu))
      → c_string (vm_key vm_name) ≡ vm_name
      → AllPadded m
      → (count_if (is_phantom_of n) (delete_of vm_name m)
          ≡ ite (Name-discrete (vm_key vm_name) n) 0 (count_if (is_phantom_of n) m))
        × (count_if (is_of n) (delete_of vm_name m)
            ≡ ite (Name-discrete (vm_key vm_name) n) 0 (count_if (is_of n) m))
  unfolding delete_of count_if
  deleted-counts [] back padded = (ground arith, ground arith)
  deleted-counts ((k, v) ∷ m) back (here, rest) =
      let (phantoms, registered) = deleted-counts m back rest in
      elim (Name-discrete (c_string v.vm_name) vm_name) [
        | yes same ↦
            (let his : v.vm_name ≡ vm_key vm_name = here ∙ ap vm_key same in
              (ground arith, ground arith))
        | no other ↦
            (let not_his : v.vm_name ≢ vm_key vm_name = λ e. other (ap c_string e ∙ back) in
              (ground arith, ground arith))
      ]

pub c_string-vm_key :
    (vm_name : List ℕ)
    → no_nul vm_name ≡ true
    → length vm_name ≤ 63
    → c_string (vm_key vm_name) ≡ vm_name
unfolding vm_key
c_string-vm_key vm_name s h =
    ap (λ (l : List ℕ). c_string (pad 64 l)) (take-all 63 vm_name h)
    ∙ c_string-pad 64 vm_name s (omega arith)

found-insert :
    (key n : Name) (new : Vm) (vms : List (Name × Vm))
    → lookup Name-discrete n (insert Name-discrete key new vms)
      ≡ ite (Name-discrete key n) (some new) (lookup Name-discrete n vms)
found-insert key n new vms = ground (
  arith,
  lookup-insert_self Name-discrete key new vms,
  lookup-insert_ne Name-discrete key n new vms,
)

module _ (a : ToolAnswers) (qs : List QmpVcpu) (vm_name qmp_socket : List ℕ) (nb_vcpus : ℕ)
    (t t' : Tracker) (string : no_nul vm_name ≡ true) (short : length vm_name ≤ 63)
    (padded : AllPadded t.vcpus) (unused : Unused vm_name qs (delete_of vm_name t.vcpus))
    (enough : length qs ≤ nb_vcpus) (fits : nb_vcpus < 2 ^ 32) (keys : a.keys ≡ true) where
  registered_maps :
      register_vm a qs vm_name qmp_socket nb_vcpus t ≡ (true, t')
      → (t'.vms ≡ insert Name-discrete (vm_key vm_name) (new_vm qmp_socket nb_vcpus) t.vms)
        × (add_vcpus a.add_vcpu 0 vm_name qs (delete_of vm_name t.vcpus) ≡ (true, t'.vcpus))
  unfolding register_vm
  registered_maps h = (ground (arith, keys), ground (arith, keys))

  -- Registering a VM, also one that was registered before, keeps every counter equal to the number
  -- of its VM's phantom vCPUs. The VM's entry is a new one, with a counter of zero, and it then has
  -- as many vCPUs as the list, none of them flagged; every other VM has the entry, the number of
  -- vCPUs and the number of phantoms that it had. It needs a name of at most 63 bytes without NUL,
  -- padded names in the map, threads that are in the map neither under another name nor twice in
  -- the list, an `nb_vcpus` that covers the list and fits in 32 bits, and memory for the list of
  -- stale keys.
  pub register_vm-Exact :
      (n : Name)
      → Exact t
      → register_vm a qs vm_name qmp_socket nb_vcpus t ≡ (true, t')
      → let its = Name-discrete (vm_key vm_name) n in
        Exact t'
        × (lookup Name-discrete n t'.vms
            ≡ ite its (some (new_vm qmp_socket nb_vcpus)) (lookup Name-discrete n t.vms))
        × (registered n t' ≡ ite its (length qs) (registered n t))
        × (phantoms n t' ≡ ite its 0 (phantoms n t))
  register_vm-Exact n exact h =
      let (vms, added) = registered_maps h in
      let back = c_string-vm_key vm_name string short in
      let found = λ (n : Name).
        ap (lookup Name-discrete n) vms
        ∙ found-insert (vm_key vm_name) n (new_vm qmp_socket nb_vcpus) t.vms in
      let of = λ (n : Name). deleted-counts vm_name n t.vcpus back padded in
      let plus = λ (n : Name).
        added-counts vm_name n a.add_vcpu 0 qs (delete_of vm_name t.vcpus) t'.vcpus unused added in
      (
        record {
          counts = λ n vm e. ground (arith, found n, of n, plus n, exact.counts n vm);
          room = λ n vm e. ground (arith, found n, of n, plus n, exact.room n vm, enough, fits);
        },
        found n,
        ground (arith, of n, plus n),
        ground (arith, of n, plus n),
      )
