-- ===== src/Tools/Vcpus/Extracted.antt =====
-- pvsched-ebpf/host/user/register_vm.c: the list that `extract_vcpu_info` builds.
use mathlib.Core.List.{append-nil, append_assoc}
use phantom_tracker.Common.{
  ℕ, zero, suc, ◌+◌, ◌≤◌, ◌<◌, ◌≡◌, ◌≢◌, refl, ap, ◌∙◌, sym, arith, Bool, true, false, ◌&&◌, Option,
  none, some, List, [], ◌∷◌, ◌++◌, if◌then◌else◌, length, length-append, inl, inr, Bool-cases,
  ℕ_discrete,
}
use phantom_tracker.Tracker.Register.{QmpVcpu}
use phantom_tracker.Tools.Text.{Bytes, find_after}
use phantom_tracker.Tools.Text.Found.{is_clear}
use phantom_tracker.Tools.LinkedList.{
  Ptr, null, node, Heap, done, write, create_node, push_back, print_nodes,
}
use phantom_tracker.Tools.LinkedList.Chain.{Cells, Chain, end, cons, has, has-append}
use phantom_tracker.Tools.LinkedList.Append.{values, push_back-Chain, print_nodes-Chain}
use phantom_tracker.Tools.Vcpus.{
  entry_key, vcpu_at, Mallocs, print_vcpu, extract_loop, extract_vcpu_info,
}
use phantom_tracker.Tools.Vcpus.Answer.{
  Entry, body, print_entries, AreEntries, body-append, vcpu_at-body, found_next, found_none,
}

-- malloc answers with addresses that are not in use, and for a node it does not fail.
pub record AreFresh (a : Mallocs) : Type 0 where
  pub head_made : a.head ≢ null
  pub node_made : (i : ℕ) → a.node i ≢ null
  pub node_not_head : (i : ℕ) → a.node i ≢ a.head
  pub node_distinct : (i j : ℕ) → a.node i ≡ a.node j → i ≡ j

-- The vCPUs up to the first for which malloc fails, at the addresses of their nodes.
unfoldable pub stored : Mallocs → ℕ → List Entry → Cells QmpVcpu
stored a i [] = []
stored a i (e ∷ es) =
    let rest = stored a (i + 1) es in if a.vcpu i then (a.node i, some e.vcpu) ∷ rest else []

unfoldable pub all_stored : Mallocs → ℕ → List Entry → Bool
all_stored a i [] = true
all_stored a i (e ∷ es) = a.vcpu i && all_stored a (i + 1) es

-- A round of the loop, on each of its branches.
module _ (a : Mallocs) (k i : ℕ) (head : Ptr) (str : Bytes) (h : Heap QmpVcpu) where
  pub round_stops :
      (s : Bytes)
      → find_after entry_key str ≡ some s
      → a.vcpu i ≡ false
      → extract_loop (suc k) a i head str h ≡ done (head, []) h
  unfolding extract_loop
  round_stops s found failed = rw (extract_loop, found, failed) refl

  pub round_ends :
      (ds : List (Option QmpVcpu))
      → find_after entry_key str ≡ none
      → print_nodes (i + 2) head h ≡ done ds h
      → extract_loop (suc k) a i head str h ≡ done (head, print_vcpu ds) h
  unfolding extract_loop
  round_ends ds missing printed = rw (extract_loop, missing, printed) refl

  pub round_goes_on :
      (s : Bytes) (g : Heap QmpVcpu)
      → find_after entry_key str ≡ some s
      → a.vcpu i ≡ true
      → push_back (i + 1) head (a.node i) (some (vcpu_at s)) h ≡ done head g
      → extract_loop (suc k) a i head str h ≡ extract_loop k a (i + 1) head s g
  unfolding extract_loop
  round_goes_on s g found made pushed = rw (extract_loop, found, made, pushed) refl

module _ (a : Mallocs) (fresh : AreFresh a) where
  pub new-next :
      (i : ℕ) (d v : Option QmpVcpu) (xs : Cells QmpVcpu)
      → ((j : ℕ) → i ≤ j → has (a.node j) ((a.head, d) ∷ xs) ≡ false)
      → (j : ℕ) → i + 1 ≤ j
      → has (a.node j) ((a.head, d) ∷ (xs ++ ((a.node i, v) ∷ []))) ≡ false
  new-next i d v xs new j le = elim (ℕ_discrete (a.node j) (a.node i)) [
    | yes same ↦ absurd (omega (arith, fresh.node_distinct j i same))
    | no other ↦
        has-append (a.node j) (a.node i) v ((a.head, d) ∷ xs) ∙ ground (arith, new j (omega arith))
  ]

  stored-made :
      (i : ℕ) (e : Entry) (es : List Entry)
      → a.vcpu i ≡ true
      → stored a i (e ∷ es) ≡ (a.node i, some e.vcpu) ∷ stored a (i + 1) es
  unfolding stored
  stored-made i e es made = ground (arith, made)

  all_stored-made :
      (i : ℕ) (e : Entry) (es : List Entry)
      → a.vcpu i ≡ true
      → all_stored a (i + 1) es ≡ all_stored a i (e ∷ es)
  unfolding all_stored
  all_stored-made i e es made = ground (arith, made)

  extract_loop-Chain :
      (k i : ℕ) (m : Bytes) (es : List Entry) (h : Heap QmpVcpu) (d : Option QmpVcpu)
      (xs : Cells QmpVcpu)
      → is_clear entry_key m ≡ true
      → AreEntries es
      → length es < k
      → length xs ≡ i
      → ((j : ℕ) → i ≤ j → has (a.node j) ((a.head, d) ∷ xs) ≡ false)
      → Chain h a.head ((a.head, d) ∷ xs)
      → (g : Heap QmpVcpu) × Chain g a.head ((a.head, d) ∷ (xs ++ stored a i es))
        × (extract_loop k a i a.head (m ++ print_entries es) h
            ≡ done
                (
                  a.head,
                  if all_stored a i es then print_vcpu (d ∷ values (xs ++ stored a i es)) else [],
                )
                g)
  unfolding stored all_stored
  extract_loop-Chain zero i m es h d xs clear are fuel count new c = absurd (omega arith)
  extract_loop-Chain (suc k) i m [] h d xs clear are fuel count new c = (
    h,
    rw (append-nil xs) c,
    round_ends a k i a.head (m ++ print_entries []) h (d ∷ values xs) (found_none m clear)
          (print_nodes-Chain (i + 2) c (omega arith))
        ∙ rw (append-nil xs) refl,
  )
  extract_loop-Chain (suc k) i m (e ∷ es) h d xs clear (is, are) fuel count new c =
      let found = found_next m e es clear in
      elim (Bool-cases (a.vcpu i)) [
        | inr failed ↦ (
          h,
          rw (failed, append-nil xs) c,
          round_stops a k i a.head (m ++ print_entries (e ∷ es)) h (body e (print_entries es)) found
                failed
              ∙ ground (arith, failed),
        )
        | inl made ↦
            (let (g, pushed, chain) =
                push_back-Chain (i + 1) (a.node i) (some e.vcpu) (fresh.node_made i)
                  (new i (omega arith)) c (omega arith) in
              let (g', chain', run) =
                extract_loop-Chain k (i + 1) (body e []) es g d
                  (xs ++ ((a.node i, some e.vcpu) ∷ [])) is.one_entry are (omega arith)
                  (omega (arith, length-append xs ((a.node i, some e.vcpu) ∷ [])))
                  (new-next i d (some e.vcpu) xs new) chain in
              let cells : xs ++ stored a i (e ∷ es)
                  ≡ (xs ++ ((a.node i, some e.vcpu) ∷ [])) ++ stored a (i + 1) es =
                ap (λ (l : Cells QmpVcpu). xs ++ l) (stored-made i e es made)
                ∙ sym (append_assoc xs ((a.node i, some e.vcpu) ∷ []) (stored a (i + 1) es)) in
              (
                g',
                coe 1 0 (j. Chain g' a.head ((a.head, d) ∷ cells j)) chain',
                round_goes_on a k i a.head (m ++ print_entries (e ∷ es)) h
                      (body e (print_entries es)) g found made
                      (ap (λ (v : QmpVcpu). push_back (i + 1) a.head (a.node i) (some v) h)
                          (vcpu_at-body e es is)
                        ∙ pushed)
                    ∙ ap (λ (l : Bytes). extract_loop k a (i + 1) a.head l g)
                        (body-append e (print_entries es))
                    ∙ run
                    ∙ (λ j.
                        done
                          (
                            a.head,
                            if all_stored-made i e es made j
                                then print_vcpu (d ∷ values (sym cells j))
                                else [],
                          )
                          g'),
              ))
      ]

  pub length-print_entries : (es : List Entry) → length es ≤ length (print_entries es)
  unfolding print_entries
  length-print_entries [] = omega arith
  length-print_entries (e ∷ es) = omega (
    arith,
    length-print_entries es,
    length-append entry_key (body e (print_entries es)),
    ap length (body-append e (print_entries es)),
    length-append (body e []) (print_entries es),
  )

  -- For the printed text of an answer, behind a front that holds no entry, `extract_vcpu_info`
  -- returns: its list is a dummy head and the answer's vCPUs in order, up to the first for which
  -- malloc fails. The list is printed only if there was memory for all. It needs answers of malloc
  -- that are fresh, and that it does not fail for the head and the nodes.
  pub extract_vcpu_info-Chain :
      (m : Bytes) (es : List Entry) (h : Heap QmpVcpu)
      → is_clear entry_key m ≡ true
      → AreEntries es
      → (g : Heap QmpVcpu) × Chain g a.head ((a.head, none) ∷ stored a 0 es)
        × (extract_vcpu_info a (m ++ print_entries es) h
            ≡ done
                (a.head, if all_stored a 0 es then print_vcpu (values (stored a 0 es)) else [])
                g)
  unfolding extract_vcpu_info create_node print_vcpu write has
  extract_vcpu_info-Chain m es h clear are =
      let made = write h a.head (node none null) in
      let text = m ++ print_entries es in
      let (g, chain, run) =
        extract_loop-Chain (length text + 1) 0 m es made none [] clear are
          (omega (arith, length-print_entries es, length-append m (print_entries es))) refl
          (λ j le. ground (arith, fresh.node_not_head j))
          (cons fresh.head_made (ground arith) refl end) in
      (g, chain, ground (arith, fresh.head_made))
