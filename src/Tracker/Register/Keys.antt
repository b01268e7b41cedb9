-- ===== src/Tracker/Register/Keys.antt =====
-- register_vm.h against create_maps.bpf.c and timer.bpf.c: the keys of a VM's buffers, as the tools
-- and as the eBPF programs build them.
use phantom_tracker.Common.{
  ℕ, zero, suc, ◌+◌, ◌≤◌, ◌<◌, ◌≡◌, refl, ap, ◌∙◌, sym, arith, Bool, true, not, ◌&&◌, List, [], ◌∷◌,
  ◌++◌, ◌==◌, length, length-append, take, get_or, set, some, lookup, lookup-insert_self,
  lookup-insert_ne, insert,
}
use phantom_tracker.Tracker.State.{Name, Name-discrete, Tracker, Buffer}
use phantom_tracker.Tracker.Keys.{
  underscore, digit_1, digit_2, copy_name, append_suffix, collection_key,
}
use phantom_tracker.Tracker.Register.{
  pad, vm_key, registry_key, MapAnswers, setup_vm_maps, new_buffer,
}

-- A string: no byte of it is NUL.
abbrev pub no_nul : List ℕ → Bool
no_nul [] = true
no_nul (x ∷ xs) = not (x == 0) && no_nul xs

pub take-all : (n : ℕ) (xs : List ℕ) → length xs ≤ n → take n xs ≡ xs
take-all zero [] h = refl
take-all zero (x ∷ xs) h = absurd (omega arith)
take-all (suc n) [] h = refl
take-all (suc n) (x ∷ xs) h = ap (λ (l : List ℕ). x ∷ l) (take-all n xs (omega arith))

-- The loop does not look at what lies in front of its index.
copy_name-shift :
    (rounds i x y : ℕ) (name buff : Name)
    → copy_name rounds (suc i) (x ∷ name) (y ∷ buff)
      ≡ (y ∷ (copy_name rounds i name buff).0, suc (copy_name rounds i name buff).1)
unfolding copy_name
copy_name-shift zero i x y name buff = refl
copy_name-shift (suc rounds) i x y name buff =
    ground (arith, copy_name-shift rounds (i + 1) x y name (set buff i (get_or name i 0)))

-- On a padded name the loop copies the name and stops behind it.
copy_name-pad :
    (rounds m : ℕ) (xs : List ℕ)
    → no_nul xs ≡ true
    → length xs ≤ rounds
    → rounds < m
    → copy_name rounds 0 (pad m xs) (pad m []) ≡ (pad m xs, length xs)
unfolding copy_name pad
copy_name-pad zero m [] s h l = refl
copy_name-pad zero m (x ∷ xs) s h l = absurd (omega arith)
copy_name-pad (suc rounds) zero xs s h l = absurd (omega arith)
copy_name-pad (suc rounds) (suc m) [] s h l = refl
copy_name-pad (suc rounds) (suc m) (x ∷ xs) s h l = ground (
  arith,
  copy_name-shift rounds 0 x x (pad m xs) (pad m []),
  copy_name-pad rounds m xs (ground arith) (omega arith) (omega arith),
)

append_suffix-shift :
    (digit x i : ℕ) (buff : Name)
    → append_suffix digit (x ∷ buff, suc i) ≡ x ∷ append_suffix digit (buff, i)
unfolding append_suffix
append_suffix-shift digit x i buff = ground arith

append_suffix-pad :
    (digit m : ℕ) (xs : List ℕ)
    → length xs + 2 < m
    → append_suffix digit (pad m xs, length xs) ≡ pad m (xs ++ (underscore ∷ digit ∷ []))
unfolding append_suffix pad
append_suffix-pad digit (suc (suc (suc m))) [] h = refl
append_suffix-pad digit zero xs h = absurd (omega arith)
append_suffix-pad digit (suc zero) [] h = absurd (omega arith)
append_suffix-pad digit (suc (suc zero)) [] h = absurd (omega arith)
append_suffix-pad digit (suc m) (x ∷ xs) h =
    append_suffix-shift digit x (length xs) (pad m xs)
    ∙ ap (λ (l : Name). x ∷ l) (append_suffix-pad digit m xs (omega arith))

twice-found :
    (j k : Name) (b : Buffer) (m : List (Name × Buffer))
    → (lookup Name-discrete j (insert Name-discrete k b (insert Name-discrete j b m)) ≡ some b)
      × (lookup Name-discrete k (insert Name-discrete k b (insert Name-discrete j b m)) ≡ some b)
twice-found j k b m = (
  elim (Name-discrete k j) [
    | yes p ↦ rw p (lookup-insert_self Name-discrete j b (insert Name-discrete j b m))
    | no p ↦
        lookup-insert_ne Name-discrete k j b (insert Name-discrete j b m) p
        ∙ lookup-insert_self Name-discrete j b m
  ],
  lookup-insert_self Name-discrete k b (insert Name-discrete j b m),
)

setup-map :
    (a : MapAnswers) (vm_name : List ℕ) (t t' : Tracker)
    → setup_vm_maps a vm_name t ≡ (true, t')
    → t'.map_registry
      ≡ insert Name-discrete
          (registry_key digit_2 vm_name)
          new_buffer
          (insert Name-discrete (registry_key digit_1 vm_name) new_buffer t.map_registry)
unfolding setup_vm_maps
setup-map a vm_name t t' h = ground arith

module _ (vm_name : List ℕ) (string : no_nul vm_name ≡ true) (short : length vm_name ≤ 61) where
  -- For a name of at most 61 bytes without NUL, the key that an eBPF program builds from the 64
  -- bytes in which the tools store the name is the key under which the tools store the buffer.
  pub collection_key-vm_key :
      (digit : ℕ) → collection_key digit (vm_key vm_name) ≡ registry_key digit vm_name
  unfolding collection_key pad vm_key registry_key
  collection_key-vm_key digit =
      let whole : take 63 vm_name ≡ vm_name = take-all 63 vm_name (omega arith) in
      let fits : length (vm_name ++ (underscore ∷ digit ∷ [])) ≤ 63 =
        omega (arith, length-append vm_name (underscore ∷ digit ∷ [])) in
      let all = take-all 63 (vm_name ++ (underscore ∷ digit ∷ [])) fits in
      let copied = copy_name-pad 61 64 vm_name string short (omega arith) in
      ap (λ (l : List ℕ). append_suffix digit (copy_name 61 0 (pad 64 l) (pad 64 []))) whole
      ∙ ap (append_suffix digit) copied
      ∙ append_suffix-pad digit 64 vm_name (omega arith)
      ∙ ap (pad 64) (sym all)

  -- Once setting up the buffers of a VM with a name of at most 61 bytes without NUL has succeeded,
  -- the timer finds both of them, by the name that the registration stores in the maps.
  pub setup-found :
      (a : MapAnswers) (t t' : Tracker)
      → setup_vm_maps a vm_name t ≡ (true, t')
      → (lookup Name-discrete (collection_key digit_1 (vm_key vm_name)) t'.map_registry
          ≡ some new_buffer)
        × (lookup Name-discrete (collection_key digit_2 (vm_key vm_name)) t'.map_registry
            ≡ some new_buffer)
  setup-found a t t' h =
      rw (collection_key-vm_key digit_1, collection_key-vm_key digit_2, setup-map a vm_name t t' h)
        (twice-found (registry_key digit_1 vm_name) (registry_key digit_2 vm_name) new_buffer
          t.map_registry)
