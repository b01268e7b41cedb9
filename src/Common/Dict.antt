-- ===== src/Common/Dict.antt =====
-- Hash maps as association lists. The first entry with a key is the one that counts, as for a
-- pointer that a lookup returns: `modify` writes through that pointer.
use Prim.Native.Nat.{ℕ, ◌+◌, ◌≤◌}
use mathlib.Core.Path.{◌≡◌, refl}
use mathlib.Core.Logic.{ite, ◌≢◌}
use mathlib.Core.Bool.{Bool}
use mathlib.Core.Option
use mathlib.Core.Option.{Option, none, some}
use mathlib.Core.List.{List, [], ◌∷◌}
use native.Mathlib.Omega.{arith}
use phantom_tracker.Common.Tests.{if◌then◌else◌}

-- The number of values that pass a test.
abbrev pub bit : Bool → ℕ
bit b = if b then 1 else 0

module _ {ℓ} {K V : Type ℓ} where
  unfoldable pub count_if : (V → Bool) → List (K × V) → ℕ
  count_if p [] = 0
  count_if p ((j, v) ∷ m) = bit (p v) + count_if p m

module _ {ℓ} {K V : Type ℓ} (d : Discrete K) where
  unfoldable pub lookup : K → List (K × V) → Option V
  lookup k [] = none
  lookup k ((j, v) ∷ m) = ite (d k j) (some v) (lookup k m)

  unfoldable pub modify : K → (V → V) → List (K × V) → List (K × V)
  modify k f [] = []
  modify k f ((j, v) ∷ m) = ite (d k j) ((j, f v) ∷ m) ((j, v) ∷ modify k f m)

  -- BPF_ANY: replace the value, or add an entry.
  unfoldable pub insert : K → V → List (K × V) → List (K × V)
  insert k v [] = (k, v) ∷ []
  insert k v ((j, w) ∷ m) = ite (d k j) ((j, v) ∷ m) ((j, w) ∷ insert k v m)

  -- Every entry with the key goes.
  unfoldable pub delete : K → List (K × V) → List (K × V)
  delete k [] = []
  delete k ((j, w) ∷ m) = ite (d k j) (delete k m) ((j, w) ∷ delete k m)

  pub lookup-modify_self :
      (k : K) (f : V → V) (m : List (K × V)) → lookup k (modify k f m) ≡ Option.map f (lookup k m)
  unfolding lookup modify
  lookup-modify_self k f [] = refl
  lookup-modify_self k f ((j, v) ∷ m) = ground (arith, lookup-modify_self k f m)

  pub lookup-modify_ne :
      (k j : K) (f : V → V) (m : List (K × V)) → k ≢ j → lookup j (modify k f m) ≡ lookup j m
  unfolding lookup modify
  lookup-modify_ne k j f [] h = refl
  lookup-modify_ne k j f ((i, v) ∷ m) h = ground (arith, lookup-modify_ne k j f m)

  pub lookup-insert_self : (k : K) (v : V) (m : List (K × V)) → lookup k (insert k v m) ≡ some v
  unfolding lookup insert
  lookup-insert_self k v [] = ground arith
  lookup-insert_self k v ((j, w) ∷ m) = ground (arith, lookup-insert_self k v m)

  pub lookup-insert_ne :
      (k j : K) (v : V) (m : List (K × V)) → k ≢ j → lookup j (insert k v m) ≡ lookup j m
  unfolding lookup insert
  lookup-insert_ne k j v [] h = ground arith
  lookup-insert_ne k j v ((i, w) ∷ m) h = ground (arith, lookup-insert_ne k j v m)

  pub lookup-delete_self : (k : K) (m : List (K × V)) → lookup k (delete k m) ≡ none
  unfolding lookup delete
  lookup-delete_self k [] = refl
  lookup-delete_self k ((j, w) ∷ m) = ground (arith, lookup-delete_self k m)

  pub lookup-delete_ne : (k j : K) (m : List (K × V)) → k ≢ j → lookup j (delete k m) ≡ lookup j m
  unfolding lookup delete
  lookup-delete_ne k j [] h = refl
  lookup-delete_ne k j ((i, w) ∷ m) h = ground (arith, lookup-delete_ne k j m)

  -- A write through a found pointer changes a count by that one entry.
  pub count_if-modify :
      (p : V → Bool) (k : K) (f : V → V) (m : List (K × V)) (v : V)
      → lookup k m ≡ some v
      → count_if p (modify k f m) + bit (p v) ≡ count_if p m + bit (p (f v))
  unfolding lookup modify count_if
  count_if-modify p k f [] v h = ground arith
  count_if-modify p k f ((j, w) ∷ m) v h = ground (arith, count_if-modify p k f m v)

  pub count_if_pos :
      (p : V → Bool) (k : K) (m : List (K × V)) (v : V)
      → lookup k m ≡ some v
      → bit (p v) ≤ count_if p m
  unfolding lookup count_if
  count_if_pos p k [] v h = ground arith
  count_if_pos p k ((j, w) ∷ m) v h = ground (arith, count_if_pos p k m v)

  -- Where a value found after a write comes from.
  pub lookup-modify_inv :
      (k j : K) (f : V → V) (m : List (K × V)) (w : V)
      → lookup j (modify k f m) ≡ some w
      → (v : V) × (lookup j m ≡ some v) × (w ≡ ite (d k j) (f v) v)
  unfolding lookup modify
  lookup-modify_inv k j f [] w h = absurd (ground arith)
  lookup-modify_inv k j f ((i, v) ∷ m) w h = elim (d i j) [
    | yes p ↦ (v, ground arith, ground arith)
    | no p ↦
        (let rest : (u : V) × (lookup j m ≡ some u) × (w ≡ ite (d k j) (f u) u) = elim (d i k) [
          | yes q ↦ (w, ground arith, ground arith)
          | no q ↦ lookup-modify_inv k j f m w (ground arith)
        ] in
          (rest.0, ground arith, rest.2))
  ]

module _ {ℓ} {K V : Type ℓ} where
  pub count_if_mono :
      (p q : V → Bool) (m : List (K × V))
      → ((v : V) → bit (p v) ≤ bit (q v))
      → count_if p m ≤ count_if q m
  unfolding count_if
  count_if_mono p q [] h = omega arith
  count_if_mono p q ((j, v) ∷ m) h = omega (arith, h v, count_if_mono p q m h)
