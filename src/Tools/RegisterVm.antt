-- ===== src/Tools/RegisterVm.antt =====
-- pvsched-ebpf/host/user/register_vm.c: `main`, the tool that asks QEMU for the vCPUs of a VM and
-- registers them. Descriptors and buffers that it holds are counted.
pub mod Ends
pub mod Registers
pub mod Ready
pub mod Watched
use phantom_tracker.Common.{
  ℕ, zero, suc, ◌+◌, ◌-◌, ◌*◌, ◌^◌, Bool, true, false, not, Option, none, some, List, [], ◌∷◌, ltb,
  leb, ◌==◌, if◌then◌else◌, u64, length,
}
use phantom_tracker.Tracker.State.{Tracker}
use phantom_tracker.Tracker.Register.{QmpVcpu, ToolAnswers, MapAnswers, register_vm, setup_vm_maps}
use phantom_tracker.Tools.Text.{Bytes, atoi}
use phantom_tracker.Tools.LinkedList.{Ptr, null, Heap, Run, done, fault, out_of_fuel, bind, load}
use phantom_tracker.Tools.Vcpus.{Mallocs, extract_vcpu_info}
use phantom_tracker.Tools.Qmp.{
  CharBuf, text_of, Socket, Line, line, failed, overrun, waiting, qmp_read_line, qmp_send_recv,
}

-- What the calls answer, true where they succeed. `connects` are the answers of `connect`, which is
-- called again after a failure; behind them it goes on failing.
pub record MainAnswers : Type 0 where
  pub malloc_buff : Bool
  pub socket : Bool
  pub connects : List Bool
  pub write_capabilities : Bool
  pub write_query : Bool
  pub mallocs : Mallocs
  pub tool : ToolAnswers
  pub maps : MapAnswers

pub record Process : Type 0 where
  pub tracker : Tracker
  pub fds : ℕ
  pub buffers : ℕ

-- A process crashes at a write outside a buffer, or at an access through NULL; it hangs where it
-- waits for ever.
pub data Exit : Type 0 where
  exit : ℕ → Process → Exit
  crashed : Exit
  hung : Exit

abbrev pub qmp_vcpu_size : ℕ
qmp_vcpu_size = 4096

-- `(size_t)nb_vcpus * QMP_VCPU_SIZE`; the int is extended by its sign.
unfoldable pub buffer_size : ℕ → ℕ
buffer_size nb_vcpus =
    u64 ((if ltb nb_vcpus (2 ^ 31) then nb_vcpus else nb_vcpus + (2 ^ 64 - 2 ^ 32)) * qmp_vcpu_size)

unfoldable pub cleanup_buff : ℕ → Process → Exit
cleanup_buff ret p = exit ret (record p { buffers = p.buffers - 1 })

unfoldable pub cleanup_fd : ℕ → Process → Exit
unfolding cleanup_buff
cleanup_fd ret p = cleanup_buff ret (record p { fds = p.fds - 1 })

-- Whether the loop around `connect` ends.
unfoldable pub connect_loop : List Bool → Bool
connect_loop [] = false
connect_loop (true ∷ rest) = true
connect_loop (false ∷ rest) = connect_loop rest

-- The length of `sun_path` is 108; none is a loop that does not end.
unfoldable pub qmp_connect : Bool → List Bool → Bytes → Process → Option (Bool × Process)
unfolding connect_loop
qmp_connect socket connects path p =
    if not socket
    then some (false, p)
    else (let opened = record p { fds = p.fds + 1 } in
        if leb 108 (length path)
        then some (false, record opened { fds = opened.fds - 1 })
        else (if connect_loop connects then some (true, opened) else none))

-- The nodes that `register_vm` walks through, and what their data pointers point to.
unfoldable pub qmp_details : ℕ → Ptr → Heap QmpVcpu → Run QmpVcpu (List QmpVcpu)
qmp_details zero temp h = out_of_fuel
qmp_details (suc k) temp h =
    if temp == null
    then done [] h
    else bind (load temp h) λ n h. elim n.datum [
      | none ↦ fault
      | some v ↦ bind (qmp_details k n.next h) λ vs h. done (v ∷ vs) h
    ]

module _ (a : MainAnswers) (path vm_name : Bytes) (nb_vcpus : ℕ) where
  -- What follows the reading of the list.
  unfoldable pub register_and_setup : List QmpVcpu → Process → Exit
  unfolding cleanup_fd
  register_and_setup vcpus p =
      let (registered, t) = register_vm a.tool vcpus vm_name path nb_vcpus p.tracker in
      let (set_up, t') = setup_vm_maps a.maps vm_name t in
      if not registered
      then cleanup_fd 1 (record p { tracker = t })
      else cleanup_fd (if set_up then 0 else 1) (record p { tracker = t' })

  -- `register_vm` skips the dummy head.
  unfoldable pub extract_and_register : Bytes → Process → Exit
  unfolding register_and_setup qmp_details
  extract_and_register text p = elim (extract_vcpu_info a.mallocs text (λ q. none)) [
    | fault ↦ crashed
    | out_of_fuel ↦ hung
    | done (head, printed) h ↦
        if head == null
        then cleanup_fd 1 p
        else elim (bind (load head h) λ n h. qmp_details (length text + 1) n.next h) [
          | fault ↦ crashed
          | out_of_fuel ↦ hung
          | done vcpus h ↦ register_and_setup vcpus p
        ]
  ]

  unfoldable pub after_line : Line → Process → (CharBuf → Socket → Exit) → Exit
  after_line overrun p k = crashed
  after_line waiting p k = hung
  after_line (failed b s) p k = cleanup_fd 1 p
  after_line (line n b s) p k = k b s

  -- The greeting, the capabilities and the query.
  unfoldable pub dialogue : Socket → CharBuf → ℕ → Process → Exit
  unfolding after_line extract_and_register
  dialogue fd buff bufsz p = after_line (qmp_read_line fd buff bufsz) p λ buff fd.
      after_line (qmp_send_recv a.write_capabilities fd buff bufsz) p λ buff fd.
        after_line (qmp_send_recv a.write_query fd buff bufsz) p
          λ buff fd. extract_and_register (text_of buff) p

unfoldable pub main : MainAnswers → List Bytes → Socket → Process → Exit
unfolding dialogue qmp_connect cleanup_buff buffer_size
main a [] fd p = exit 1 p
main a (prog ∷ []) fd p = exit 1 p
main a (prog ∷ path ∷ []) fd p = exit 1 p
main a (prog ∷ path ∷ vm_name ∷ []) fd p = exit 1 p
main a (prog ∷ path ∷ vm_name ∷ nb ∷ more) fd p =
    let nb_vcpus = atoi nb in
    let bufsz = buffer_size nb_vcpus in
    let buff : CharBuf = record { size = bufsz; cell = λ i. 0 } in
    if not a.malloc_buff
    then exit 1 p
    else elim (qmp_connect a.socket a.connects path (record p { buffers = p.buffers + 1 })) [
      | none ↦ hung
      | some (connected, p') ↦
          if not connected
          then cleanup_buff 1 p'
          else dialogue a path vm_name nb_vcpus fd buff bufsz p'
    ]
