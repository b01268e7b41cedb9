-- ===== src/Tracker/Register/Apart.antt =====
-- register_vm.h: VMs of different names have different keys, and so have the two buffers of one.
use phantom_tracker.Common.{
  ℕ, ◌≤◌, ◌≡◌, ◌≢◌, refl, ap, ◌∙◌, sym, arith, true, List, [], ◌∷◌, ◌++◌, length, length-append,
}
use phantom_tracker.Tracker.Keys.{underscore, digit_1, digit_2, collection_key}
use phantom_tracker.Tracker.Register.{pad, c_string, vm_key, registry_key}
use phantom_tracker.Tracker.Register.Keys.{no_nul, take-all, collection_key-vm_key}
use phantom_tracker.Tracker.Register.Fresh.{c_string-pad}
use phantom_tracker.Tracker.History.Located.{Apart}

abbrev suffixed : ℕ → List ℕ → List ℕ
suffixed digit xs = xs ++ (underscore ∷ digit ∷ [])

no_nul-suffixed :
    (digit : ℕ) (xs : List ℕ) → digit ≢ 0 → no_nul xs ≡ true → no_nul (suffixed digit xs) ≡ true
no_nul-suffixed digit [] ne h = ground arith
no_nul-suffixed digit (x ∷ xs) ne h = ground (arith, no_nul-suffixed digit xs ne)

suffixed-inj : (d e : ℕ) (xs ys : List ℕ) → suffixed d xs ≡ suffixed e ys → (xs ≡ ys) × (d ≡ e)
suffixed-inj d e [] [] h = (refl, ground arith)
suffixed-inj d e [] (y ∷ ys) h =
    absurd (omega (arith, ap length h, length-append ys (underscore ∷ e ∷ [])))
suffixed-inj d e (x ∷ xs) [] h =
    absurd (omega (arith, ap length h, length-append xs (underscore ∷ d ∷ [])))
suffixed-inj d e (x ∷ xs) (y ∷ ys) h =
    let (rest, digit) = suffixed-inj d e xs ys (ground arith) in (ground (arith, rest), digit)

-- A name that the tools store whole.
pub record IsShort (xs : List ℕ) : Type 0 where
  pub string : no_nul xs ≡ true
  pub short : length xs ≤ 61

c_string-registry_key :
    (digit : ℕ) (xs : List ℕ)
    → digit ≢ 0
    → IsShort xs
    → c_string (registry_key digit xs) ≡ suffixed digit xs
unfolding registry_key
c_string-registry_key digit xs ne s =
    let fits : length (suffixed digit xs) ≤ 63 =
      omega (arith, s.short, length-append xs (underscore ∷ digit ∷ [])) in
    ap (λ (l : List ℕ). c_string (pad 64 l)) (take-all 63 (suffixed digit xs) fits)
    ∙ c_string-pad 64 (suffixed digit xs) (no_nul-suffixed digit xs ne s.string) (omega arith)

-- A key tells the name and the digit.
collection_key-inj :
    (d e : ℕ) (xs ys : List ℕ)
    → d ≢ 0
    → e ≢ 0
    → IsShort xs
    → IsShort ys
    → collection_key d (vm_key xs) ≡ collection_key e (vm_key ys)
    → (xs ≡ ys) × (d ≡ e)
collection_key-inj d e xs ys nd ne sx sy h = suffixed-inj d e xs ys (
    sym (c_string-registry_key d xs nd sx)
    ∙ ap c_string (
        sym (collection_key-vm_key xs sx.string sx.short d)
        ∙ h
        ∙ collection_key-vm_key ys sy.string sy.short e)
    ∙ c_string-registry_key e ys ne sy)

module _ (xs : List ℕ) (sx : IsShort xs) where
  pub own_keys : collection_key digit_1 (vm_key xs) ≢ collection_key digit_2 (vm_key xs)
  own_keys h =
      let (same, digit) =
        collection_key-inj digit_1 digit_2 xs xs (λ z. omega (arith, z)) (λ z. omega (arith, z)) sx
          sx h in
      omega (arith, digit)

  pub other_keys :
      (ys : List ℕ) → IsShort ys → vm_key ys ≢ vm_key xs → Apart (vm_key ys) (vm_key xs)
  other_keys ys sy ne =
      let clash =
        λ (d e : ℕ) (nd : d ≢ 0) (ne' : e ≢ 0)
            (h : collection_key d (vm_key ys) ≡ collection_key e (vm_key xs)).
          ne (ap vm_key (collection_key-inj d e ys xs nd ne' sy sx h).0) in
      let one : digit_1 ≢ 0 = λ z. omega (arith, z) in
      let two : digit_2 ≢ 0 = λ z. omega (arith, z) in
      (
        (clash digit_1 digit_1 one one, clash digit_1 digit_2 one two),
        (clash digit_2 digit_1 two one, clash digit_2 digit_2 two two),
      )
