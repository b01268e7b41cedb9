-- ===== src/Tools/LinkedList/Append.antt =====
-- pvsched-ebpf/host/user/linkedlist.c: `push_back` and `print_nodes` on a list.
use phantom_tracker.Common.{
  ℕ, zero, suc, ◌<◌, ◌≡◌, ◌≢◌, refl, false, Option, some, List, [], ◌∷◌, ◌++◌, arith, length,
}
use phantom_tracker.Tools.LinkedList.{
  Ptr, null, Node, node, Heap, done, write, load, set_next, create_node, link, push_back,
  print_nodes,
}
use phantom_tracker.Tools.LinkedList.Chain.{Cells, Chain, end, cons, has, frame-write, has-append}

module _ {A : Type 0} where
  abbrev pub values : Cells A → List (Option A)
  values [] = []
  values ((p, d) ∷ xs) = d ∷ values xs

  write_self : (h : Heap A) (p : Ptr) (n : Node A) → write h p n p ≡ some n
  unfolding write
  write_self h p n = ground arith

  link-Chain :
      (k : ℕ) (last : Ptr) (new : Option A) {h : Heap A} {p q : Ptr} {d : Option A} {xs : Cells A}
      → last ≢ null
      → h last ≡ some (node new null)
      → p ≢ null
      → h p ≡ some (node d q)
      → has p xs ≡ false
      → Chain h q xs
      → has last ((p, d) ∷ xs) ≡ false
      → length xs < k
      → (g : Heap A) × (link k p last h ≡ done tt g)
        × Chain g p ((p, d) ∷ (xs ++ ((last, new) ∷ [])))
        × ((a : Ptr) → has a ((p, d) ∷ xs) ≡ false → g a ≡ h a)
  unfolding link load set_next write has
  link-Chain zero last new nl hl np hp out c apart fuel = absurd (omega arith)
  link-Chain (suc k) last new {h} {p} {d} nl hl np hp out end apart fuel = (
    write h p (node d last),
    ground arith,
    cons np (ground arith) (ground arith) (cons nl (ground arith) refl end),
    λ a o. ground arith,
  )
  link-Chain (suc k) last new {h} {p} {q} {d} nl hl np hp out (cons {xs = ys} nq hq out' c) apart
        fuel =
      let (g, run, chain, same) =
        link-Chain k last new nl hl nq hq out' c (ground arith) (omega arith) in
      (
        g,
        ground arith,
        cons np (ground (arith, same p)) (ground (arith, has-append p last new ys)) chain,
        λ a o. ground (arith, same a),
      )

  pub uncons :
      {h : Heap A} {p : Ptr} {c : Ptr × Option A} {xs : Cells A}
      → Chain h p (c ∷ xs)
      → (q : Ptr) × (c.0 ≡ p)
        × (p ≢ null)
        × (h p ≡ some (node c.1 q))
        × (has p xs ≡ false)
        × Chain h q xs
  uncons (cons {q} np hp out rest) = (q, refl, np, hp, out, rest)

  -- Appending to a list that is not empty, with fuel above its length, returns the same head, and
  -- the list ends in the new node.
  pub push_back-Chain :
      (k : ℕ) (last : Ptr) (new : Option A) {h : Heap A} {p : Ptr} {c : Ptr × Option A}
      {xs : Cells A}
      → last ≢ null
      → has last (c ∷ xs) ≡ false
      → Chain h p (c ∷ xs)
      → length xs < k
      → (g : Heap A) × (push_back k p last new h ≡ done p g)
        × Chain g p (c ∷ (xs ++ ((last, new) ∷ [])))
  unfolding push_back create_node
  push_back-Chain k last new {p} {c} {xs} nl apart chain fuel =
      let made = frame-write last (node new null) chain apart in
      let (q, same, np, hp, out, rest) = uncons made in
      let (g, run, appended, _) =
        link-Chain k last new {d = c.1} nl (write_self _ last (node new null)) np hp out rest
          (ground arith) fuel in
      (
        g,
        ground arith,
        coe 1 0 (i. Chain g p ((same i, c.1) ∷ (xs ++ ((last, new) ∷ [])))) appended,
      )

  -- The nodes of a list are visited once each, in order.
  pub print_nodes-Chain :
      (k : ℕ) {h : Heap A} {p : Ptr} {xs : Cells A}
      → Chain h p xs
      → length xs < k
      → print_nodes k p h ≡ done (values xs) h
  unfolding print_nodes load
  print_nodes-Chain zero c fuel = absurd (omega arith)
  print_nodes-Chain (suc k) end fuel = refl
  print_nodes-Chain (suc k) (cons np hp out c) fuel =
      ground (arith, print_nodes-Chain k c (omega arith))
