-- ===== src/Tools/Vcpus.antt =====
-- pvsched-ebpf/host/user/register_vm.c: `extract_vcpu_info`, the reading of QEMU's answer to
-- query-cpus-fast. The loop runs on fuel.
pub mod Answer
pub mod Extracted
pub mod Returns
use phantom_tracker.Common.{
  ℕ, zero, suc, ◌+◌, ◌-◌, ◌^◌, Bool, not, Option, none, some, List, [], ◌∷◌, ◌==◌, if◌then◌else◌,
  length,
}
use phantom_tracker.Tracker.Register.{QmpVcpu}
use phantom_tracker.Tools.Text.{Bytes, codes, find_after, scan_int, or_default}
use phantom_tracker.Tools.LinkedList.{
  Ptr, null, Heap, Run, done, out_of_fuel, bind, create_node, push_back, print_nodes, load,
}

abbrev pub entry_key : Bytes
entry_key = codes "{\"thread-id\": "

abbrev pub cpu_key : Bytes
cpu_key = codes "\"cpu-index\": "

-- The int -1, as an unsigned number.
abbrev pub minus_one : ℕ
minus_one = 2 ^ 32 - 1

unfoldable pub cpu_index_in : Option Bytes → ℕ
cpu_index_in none = minus_one
cpu_index_in (some s) = or_default minus_one (scan_int s)

-- What a round reads behind an entry's key: the index is the first one in the rest of the text.
unfoldable pub vcpu_at : Bytes → QmpVcpu
unfolding cpu_index_in
vcpu_at s = record {
  cpu_index = cpu_index_in (find_after cpu_key s);
  thread_id = or_default minus_one (scan_int s);
}

-- What malloc returns: for the dummy head, and in round `i` for the vCPU and for its node.
pub record Mallocs : Type 0 where
  pub head : Ptr
  pub vcpu : ℕ → Bool
  pub node : ℕ → Ptr

-- `print_vcpu` prints nothing for NULL.
unfoldable pub print_vcpu : List (Option QmpVcpu) → List QmpVcpu
print_vcpu [] = []
print_vcpu (none ∷ ds) = print_vcpu ds
print_vcpu (some v ∷ ds) = v ∷ print_vcpu ds

-- The head of the list, and what was printed at the end. There are `i` nodes behind the head.
unfoldable pub extract_loop :
    ℕ → Mallocs → ℕ → Ptr → Bytes → Heap QmpVcpu → Run QmpVcpu (Ptr × List QmpVcpu)
unfolding print_vcpu
extract_loop zero a i head str h = out_of_fuel
extract_loop (suc k) a i head str h = elim (find_after entry_key str) [
  | none ↦ bind (print_nodes (i + 2) head h) λ ds h. done (head, print_vcpu ds) h
  | some s ↦
      if not (a.vcpu i)
      then done (head, []) h
      else bind (push_back (i + 1) head (a.node i) (some (vcpu_at s)) h)
          λ head h. extract_loop k a (i + 1) head s h
]

unfoldable pub extract_vcpu_info : Mallocs → Bytes → Heap QmpVcpu → Run QmpVcpu (Ptr × List QmpVcpu)
unfolding extract_loop
extract_vcpu_info a query_result h =
    let (head, made) = create_node a.head none h in
    if head == null
    then done (null, []) made
    else extract_loop (length query_result + 1) a 0 head query_result made
