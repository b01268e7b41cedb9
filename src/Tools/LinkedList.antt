-- ===== src/Tools/LinkedList.antt =====
-- pvsched-ebpf/host/user/linkedlist.c: nodes at addresses. The data of a node is what its pointer
-- points to, none for NULL; nobody writes it. A loop runs on fuel.
pub mod Chain
pub mod Append
use phantom_tracker.Common.{ℕ, zero, suc, Option, none, some, List, [], ◌∷◌, ◌==◌, if◌then◌else◌}

abbrev pub Ptr : Type 0
Ptr = ℕ

abbrev pub null : Ptr
null = 0

pub record Node (A : Type 0) : Type 0 where
  pub datum : Option A
  pub next : Ptr

abbrev pub Heap : Type 0 → Type 0
Heap A = Ptr → Option (Node A)

-- A fault is a read or a write through NULL, or where no node is.
pub data Run (A B : Type 0) : Type 0 where
  done : B → Heap A → Run A B
  fault : Run A B
  out_of_fuel : Run A B

module _ {A B C : Type 0} where
  abbrev pub bind : Run A B → (B → Heap A → Run A C) → Run A C
  bind (done b h) k = k b h
  bind fault k = fault
  bind out_of_fuel k = out_of_fuel

module _ {A : Type 0} where
  abbrev pub node : Option A → Ptr → Node A
  node d q = record { datum = d; next = q }

  unfoldable pub write : Heap A → Ptr → Node A → Heap A
  write h p n a = if a == p then some n else h a

  unfoldable pub load : Ptr → Heap A → Run A (Node A)
  load p h = if p == null then fault else elim (h p) [ none ↦ fault | some n ↦ done n h ]

  -- `p->next = q`
  unfoldable pub set_next : Ptr → Ptr → Heap A → Run A (Unit {0})
  set_next p q h = bind (load p h) λ n h. done tt (write h p (record n { next = q }))

  -- `fresh` is what malloc returns.
  unfoldable pub create_node : Ptr → Option A → Heap A → Ptr × Heap A
  create_node fresh d h = if fresh == null then (null, h) else (fresh, write h fresh (node d null))

  -- The walk to the last node, and the write behind it.
  unfoldable pub link : ℕ → Ptr → Ptr → Heap A → Run A (Unit {0})
  link zero temp last h = out_of_fuel
  link (suc k) temp last h = bind (load temp h) λ n h.
      let walk = link k n.next last h in if n.next == null then set_next temp last h else walk

  -- The new `*head`.
  unfoldable pub push_back : ℕ → Ptr → Ptr → Option A → Heap A → Run A Ptr
  push_back k head fresh d h =
      let (last, made) = create_node fresh d h in
      if head == null then done last made else bind (link k head last made) λ _ g. done head g

  -- What the callback is given, node by node.
  unfoldable pub print_nodes : ℕ → Ptr → Heap A → Run A (List (Option A))
  print_nodes zero temp h = out_of_fuel
  print_nodes (suc k) temp h =
      if temp == null
      then done [] h
      else bind (load temp h) λ n h. bind (print_nodes k n.next h) λ ds h. done (n.datum ∷ ds) h
