-- ===== src/Tools/LinkedList/Chain.antt =====
-- pvsched-ebpf/host/user/linkedlist.c: what a list in the heap stands for.
use phantom_tracker.Common.{
  ◌≡◌, ◌≢◌, Bool, true, false, ◌||◌, Option, some, List, [], ◌∷◌, ◌++◌, arith, ◌==◌,
}
use phantom_tracker.Tools.LinkedList.{Ptr, null, Node, node, Heap, write}

-- Address and data of each node, in order.
abbrev pub Cells : Type 0 → Type 0
Cells A = List (Ptr × Option A)

module _ {A : Type 0} where
  unfoldable pub has : Ptr → Cells A → Bool
  has a [] = false
  has a ((p, d) ∷ xs) = (a == p) || has a xs

  -- From `p` the pointers lead through distinct nodes to NULL.
  pub data Chain (h : Heap A) : Ptr → Cells A → Type 0 where
    end : Chain h null []
    cons :
        {p q : Ptr} {d : Option A} {xs : Cells A}
        → p ≢ null
        → h p ≡ some (node d q)
        → has p xs ≡ false
        → Chain h q xs
        → Chain h p ((p, d) ∷ xs)

  pub frame :
      {h g : Heap A} {p : Ptr} {xs : Cells A}
      → Chain h p xs
      → ((a : Ptr) → has a xs ≡ true → g a ≡ h a)
      → Chain g p xs
  unfolding has
  frame end same = end
  frame (cons {p} some_node at new rest) same =
      cons some_node (ground (arith, same p)) new (frame rest λ a i. same a (ground arith))

  pub frame-write :
      {h : Heap A} {p : Ptr} {xs : Cells A} (a : Ptr) (n : Node A)
      → Chain h p xs
      → has a xs ≡ false
      → Chain (write h a n) p xs
  unfolding write
  frame-write a n c out = frame c (λ b i. ground arith)

  pub has-append :
      (a p : Ptr) (d : Option A) (xs : Cells A)
      → has a (xs ++ ((p, d) ∷ [])) ≡ (has a xs || (a == p))
  unfolding has
  has-append a p d [] = ground arith
  has-append a p d (x ∷ xs) = ground (arith, has-append a p d xs)
