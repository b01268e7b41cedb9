-- ===== src/Tools/Vcpus/Returns.antt =====
-- pvsched-ebpf/host/user/register_vm.c: `extract_vcpu_info` on any text.
use phantom_tracker.Common.{
  ℕ, zero, suc, ◌+◌, ◌≤◌, ◌<◌, ◌≡◌, refl, ◌∙◌, arith, false, Option, none, some, List, [], ◌∷◌,
  ◌++◌, length, length-append, inl, inr, Bool-cases, Option-cases,
}
use phantom_tracker.Tracker.Register.{QmpVcpu}
use phantom_tracker.Tools.Text.{Bytes, find_after}
use phantom_tracker.Tools.Text.Found.{length-find_after}
use phantom_tracker.Tools.LinkedList.{Ptr, null, node, Heap, Run, done, write, create_node}
use phantom_tracker.Tools.LinkedList.Chain.{Cells, Chain, end, cons, has}
use phantom_tracker.Tools.LinkedList.Append.{values, push_back-Chain, print_nodes-Chain}
use phantom_tracker.Tools.Vcpus.{
  entry_key, vcpu_at, Mallocs, print_vcpu, extract_loop, extract_vcpu_info,
}
use phantom_tracker.Tools.Vcpus.Extracted.{
  AreFresh, round_stops, round_ends, round_goes_on, new-next,
}

-- Data pointers that are not NULL.
abbrev pub somes : List QmpVcpu → List (Option QmpVcpu)
somes [] = []
somes (v ∷ vs) = some v ∷ somes vs

somes-append :
    (xs : Cells QmpVcpu) (vs : List QmpVcpu) (p : Ptr) (v : QmpVcpu)
    → values xs ≡ somes vs
    → values (xs ++ ((p, some v) ∷ [])) ≡ somes (vs ++ (v ∷ []))
somes-append [] [] p v h = refl
somes-append [] (w ∷ vs) p v h = absurd (cc)
somes-append ((q, d) ∷ xs) [] p v h = absurd (cc)
somes-append ((q, d) ∷ xs) (w ∷ vs) p v h = ground (arith, somes-append xs vs p v)

-- A run that returned: the list behind the head holds `n` vCPUs at most, and no NULL.
pub record Returned (a : Mallocs) (d : Option QmpVcpu) (n : ℕ)
    (run : Run QmpVcpu (Ptr × List QmpVcpu)) : Type 0 where
  pub heap : Heap QmpVcpu
  pub cells : Cells QmpVcpu
  pub vcpus : List QmpVcpu
  pub printed : List QmpVcpu
  pub chain : Chain heap a.head ((a.head, d) ∷ cells)
  pub held : values cells ≡ somes vcpus
  pub bounded : length cells ≤ n
  pub returns : run ≡ done (a.head, printed) heap

module _ (a : Mallocs) (fresh : AreFresh a) where
  extract_loop-Returned :
      (k i : ℕ) (str : Bytes) (h : Heap QmpVcpu) (d : Option QmpVcpu) (xs : Cells QmpVcpu)
      (vs : List QmpVcpu)
      → values xs ≡ somes vs
      → length str < k
      → length xs ≡ i
      → ((j : ℕ) → i ≤ j → has (a.node j) ((a.head, d) ∷ xs) ≡ false)
      → Chain h a.head ((a.head, d) ∷ xs)
      → Returned a d (i + length str) (extract_loop k a i a.head str h)
  extract_loop-Returned zero i str h d xs vs points fuel count new c = absurd (omega arith)
  extract_loop-Returned (suc k) i str h d xs vs points fuel count new c =
      elim (Option-cases (find_after entry_key str)) [
        | inl missing ↦ record {
          heap = h;
          cells = xs;
          vcpus = vs;
          printed = print_vcpu (d ∷ values xs);
          chain = c;
          held = points;
          bounded = omega arith;
          returns =
              round_ends a k i a.head str h (d ∷ values xs) missing
                (print_nodes-Chain (i + 2) c (omega arith));
        }
        | inr (s, found) ↦ elim (Bool-cases (a.vcpu i)) [
          | inr failed ↦ record {
            heap = h;
            cells = xs;
            vcpus = vs;
            printed = [];
            chain = c;
            held = points;
            bounded = omega arith;
            returns = round_stops a k i a.head str h s found failed;
          }
          | inl made ↦
              (let v = vcpu_at s in
                let (g, pushed, chain) =
                  push_back-Chain (i + 1) (a.node i) (some v) (fresh.node_made i)
                    (new i (omega arith)) c (omega arith) in
                let shorter = length-find_after entry_key str s found in
                let r =
                  extract_loop-Returned k (i + 1) s g d (xs ++ ((a.node i, some v) ∷ []))
                    (vs ++ (v ∷ [])) (somes-append xs vs (a.node i) v points) (omega arith)
                    (omega (arith, length-append xs ((a.node i, some v) ∷ [])))
                    (new-next a fresh i d (some v) xs new) chain in
                record {
                  heap = r.heap;
                  cells = r.cells;
                  vcpus = r.vcpus;
                  printed = r.printed;
                  chain = r.chain;
                  held = r.held;
                  bounded = omega (arith, r.bounded);
                  returns = round_goes_on a k i a.head str h s g found made pushed ∙ r.returns;
                })
        ]
      ]

  -- Whatever the text, `extract_vcpu_info` returns its list: the loop ends, with no access through
  -- NULL, and behind the dummy head every node points to a vCPU, at most one for each byte. It
  -- needs answers of malloc that are fresh, and that it does not fail for the head and the nodes.
  pub extract_vcpu_info-Returned :
      (str : Bytes) (h : Heap QmpVcpu) → Returned a none (length str) (extract_vcpu_info a str h)
  unfolding extract_vcpu_info create_node write has
  extract_vcpu_info-Returned str h =
      let made = write h a.head (node none null) in
      let r =
        extract_loop-Returned (length str + 1) 0 str made none [] [] refl (omega arith) refl
          (λ j le. ground (arith, fresh.node_not_head j))
          (cons fresh.head_made (ground arith) refl end) in
      record {
        heap = r.heap;
        cells = r.cells;
        vcpus = r.vcpus;
        printed = r.printed;
        chain = r.chain;
        held = r.held;
        bounded = omega (arith, r.bounded);
        returns = ground (arith, fresh.head_made, r.returns);
      }
