-- ===== src/Tools/RegisterVm/Ends.antt =====
-- pvsched-ebpf/host/user/register_vm.c: how the tool ends.
use phantom_tracker.Common.{
  ℕ, zero, suc, ◌+◌, ◌^◌, ◌≤◌, ◌<◌, ◌≡◌, ◌≢◌, refl, arith, Option, none, List, [], ◌∷◌, length,
}
use phantom_tracker.Tracker.Register.{QmpVcpu}
use phantom_tracker.Tools.Text.{Bytes}
use phantom_tracker.Tools.LinkedList.{Ptr, Heap, done, bind, load}
use phantom_tracker.Tools.LinkedList.Chain.{Cells, Chain, end, cons}
use phantom_tracker.Tools.LinkedList.Append.{values, uncons}
use phantom_tracker.Tools.Vcpus.{extract_vcpu_info}
use phantom_tracker.Tools.Vcpus.Returns.{somes}
use phantom_tracker.Tools.RegisterVm.{
  MainAnswers, Process, Exit, exit, buffer_size, qmp_details, register_and_setup,
  extract_and_register,
}

-- An end with exit code 0 or 1 where `fds` descriptors and `buffers` buffers are held.
pub data Ends (fds buffers : ℕ) : Exit → Type 0 where
  ends :
      {ret : ℕ} {p : Process}
      → ret ≤ 1
      → p.fds ≡ fds
      → p.buffers ≡ buffers
      → Ends fds buffers (exit ret p)

-- Walking the nodes gives what they point to.
pub qmp_details-Chain :
    (k : ℕ) {h : Heap QmpVcpu} {p : Ptr} {xs : Cells QmpVcpu} (vs : List QmpVcpu)
    → Chain h p xs
    → values xs ≡ somes vs
    → length xs < k
    → qmp_details k p h ≡ done vs h
unfolding qmp_details load
qmp_details-Chain zero vs c points fuel = absurd (omega arith)
qmp_details-Chain (suc k) [] end points fuel = refl
qmp_details-Chain (suc k) (v ∷ vs) end points fuel = absurd (cc)
qmp_details-Chain (suc k) [] (cons np hp out c) points fuel = absurd (cc)
qmp_details-Chain (suc k) (v ∷ vs) (cons np hp out c) points fuel =
    ground (arith, qmp_details-Chain k vs c)

listed :
    (k : ℕ) {g : Heap QmpVcpu} {head : Ptr} {c : Ptr × Option QmpVcpu} {cells : Cells QmpVcpu}
    (vs : List QmpVcpu)
    → Chain g head (c ∷ cells)
    → values cells ≡ somes vs
    → length cells < k
    → bind (load head g) (λ n h. qmp_details k n.next h) ≡ done vs g
unfolding load
listed k vs chain points fuel =
    let (q, _, np, hp, out, rest) = uncons chain in
    let walked = qmp_details-Chain k vs rest points fuel in ground (arith, np, hp, walked)

-- What was extracted is what is registered.
pub extract_and_register-extracted :
    (a : MainAnswers) (path vm_name : Bytes) (nb_vcpus : ℕ) (text : Bytes) (p : Process)
    {g : Heap QmpVcpu} {head : Ptr} {c : Ptr × Option QmpVcpu} {cells : Cells QmpVcpu}
    {printed : List QmpVcpu} (vs : List QmpVcpu)
    → extract_vcpu_info a.mallocs text (λ q. none) ≡ done (head, printed) g
    → Chain g head (c ∷ cells)
    → values cells ≡ somes vs
    → length cells ≤ length text
    → extract_and_register a path vm_name nb_vcpus text p
      ≡ register_and_setup a path vm_name nb_vcpus vs p
unfolding extract_and_register
extract_and_register-extracted a path vm_name nb_vcpus text p vs run chain points few =
    let (q, _, np, hp, out, rest) = uncons chain in
    let list = listed (length text + 1) vs chain points (omega arith) in
    ground (arith, run, np, list)

pub buffer_size_pos : (n : ℕ) → n ≢ 0 → n < 2 ^ 32 → (0 < buffer_size n) × (buffer_size n < 2 ^ 64)
unfolding buffer_size
buffer_size_pos n some_cpus fits = ground arith
