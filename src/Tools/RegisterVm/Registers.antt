-- ===== src/Tools/RegisterVm/Registers.antt =====
-- pvsched-ebpf/host/user/register_vm.c: what the tool registers.
use phantom_tracker.Common.{
  ℕ, ◌+◌, ◌^◌, ◌≤◌, ◌<◌, ◌≡◌, ◌≢◌, refl, ap, ◌∙◌, arith, Bool, true, false, none, List, [], ◌∷◌,
  ◌++◌, leb, length, length-append,
}
use phantom_tracker.Tracker.Register.{QmpVcpu}
use phantom_tracker.Tools.Text.{Bytes, atoi}
use phantom_tracker.Tools.Text.Decimal.{atoi-lt}
use phantom_tracker.Tools.Text.Found.{is_clear}
use phantom_tracker.Tools.LinkedList.Append.{values}
use phantom_tracker.Tools.Vcpus.{entry_key, Mallocs}
use phantom_tracker.Tools.Vcpus.Answer.{Entry, AreEntries, print_entries}
use phantom_tracker.Tools.Vcpus.Extracted.{
  AreFresh, stored, all_stored, length-print_entries, extract_vcpu_info-Chain,
}
use phantom_tracker.Tools.Vcpus.Returns.{somes}
use phantom_tracker.Tools.Qmp.{CharBuf, text_of, Socket, qmp_read_line, qmp_send_recv}
use phantom_tracker.Tools.Qmp.Lines.{sent, newline, is_plain, qmp_read_line-newline}
use phantom_tracker.Tools.RegisterVm.{
  MainAnswers, Process, Exit, buffer_size, connect_loop, qmp_connect, register_and_setup,
  extract_and_register, after_line, dialogue, main,
}
use phantom_tracker.Tools.RegisterVm.Ends.{extract_and_register-extracted, buffer_size_pos}

abbrev pub vcpus_of : List Entry → List QmpVcpu
vcpus_of [] = []
vcpus_of (e ∷ es) = e.vcpu ∷ vcpus_of es

values-stored :
    (a : Mallocs) (i : ℕ) (es : List Entry)
    → all_stored a i es ≡ true
    → (values (stored a i es) ≡ somes (vcpus_of es)) × (length (stored a i es) ≤ length es)
unfolding stored all_stored
values-stored a i [] h = (refl, omega arith)
values-stored a i (e ∷ es) h =
    let (points, few) = values-stored a (i + 1) es (ground arith) in (ground arith, ground arith)

-- The text of a line, in a buffer that it fits in.
pub record IsLine (bufsz : ℕ) (cs : Bytes) : Type 0 where
  pub plain : is_plain cs ≡ true
  pub short : length cs + 1 < bufsz

module _ (a : MainAnswers) (path vm_name : Bytes) (nb_vcpus : ℕ) (fresh : AreFresh a.mallocs) where
  -- The list of an answer is what is registered.
  registers-answer :
      (front : Bytes) (es : List Entry) (p : Process)
      → is_clear entry_key front ≡ true
      → AreEntries es
      → all_stored a.mallocs 0 es ≡ true
      → extract_and_register a path vm_name nb_vcpus (front ++ print_entries es) p
        ≡ register_and_setup a path vm_name nb_vcpus (vcpus_of es) p
  registers-answer front es p clear are memory =
      let (g, chain, run) =
        extract_vcpu_info-Chain a.mallocs fresh front es (λ q. none) clear are in
      let (points, few) = values-stored a.mallocs 0 es memory in
      extract_and_register-extracted a path vm_name nb_vcpus (front ++ print_entries es) p
        (vcpus_of es) run chain points
        (omega (
          arith,
          few,
          length-print_entries a.mallocs fresh es,
          length-append front (print_entries es),
        ))

  after_line-newline :
      (cs : Bytes) (rest : Socket) (bufsz : ℕ) (b : CharBuf) (p : Process)
      (k : CharBuf → Socket → Exit) (e : Exit)
      → IsLine bufsz cs
      → b.size ≡ bufsz
      → bufsz < 2 ^ 64
      → ((b : CharBuf) → b.size ≡ bufsz → text_of b ≡ newline cs → k b rest ≡ e)
      → after_line a path vm_name nb_vcpus (qmp_read_line (sent (newline cs) rest) b bufsz) p k ≡ e
  unfolding after_line
  after_line-newline cs rest bufsz b p k e is size fits next =
      let (b', run, size', text) =
        qmp_read_line-newline cs rest bufsz b is.plain size is.short fits in
      rw run (next b' size' text)

  qmp_send_recv-true :
      (write : Bool) (fd : Socket) (b : CharBuf) (bufsz : ℕ)
      → write ≡ true
      → qmp_send_recv write fd b bufsz ≡ qmp_read_line fd b bufsz
  unfolding qmp_send_recv
  qmp_send_recv-true write fd b bufsz e = rw e refl

  dialogue-registers :
      (greeting capabilities reply front : Bytes) (es : List Entry) (rest : Socket) (bufsz : ℕ)
      (b : CharBuf) (p : Process)
      → a.write_capabilities ≡ true
      → a.write_query ≡ true
      → IsLine bufsz greeting
      → IsLine bufsz capabilities
      → IsLine bufsz reply
      → b.size ≡ bufsz
      → bufsz < 2 ^ 64
      → newline reply ≡ front ++ print_entries es
      → is_clear entry_key front ≡ true
      → AreEntries es
      → all_stored a.mallocs 0 es ≡ true
      → dialogue a path vm_name nb_vcpus
          (sent (newline greeting) (sent (newline capabilities) (sent (newline reply) rest)))
          b
          bufsz
          p
        ≡ register_and_setup a path vm_name nb_vcpus (vcpus_of es) p
  unfolding dialogue
  dialogue-registers greeting capabilities reply front es rest bufsz b p w1 w2 l1 l2 l3 size fits
        text clear are memory =
      after_line-newline greeting _ bufsz b p _ _ l1 size fits λ b1 e1 _.
        rw (qmp_send_recv-true a.write_capabilities _ b1 bufsz w1) (
          after_line-newline capabilities _ bufsz b1 p _ _ l2 e1 fits λ b2 e2 _.
            rw (qmp_send_recv-true a.write_query _ b2 bufsz w2) (
              after_line-newline reply _ bufsz b2 p _ _ l3 e2 fits λ b3 _ read.
                ap (λ (t : Bytes). extract_and_register a path vm_name nb_vcpus t p) (read ∙ text)
                ∙ registers-answer front es p clear are memory))

-- The process that holds the socket and the buffer.
abbrev pub connected : Process → Process
connected p = record p { fds = p.fds + 1; buffers = p.buffers + 1 }

module _ (a : MainAnswers) (prog path vm_name nb : Bytes) (more : List Bytes)
    (fresh : AreFresh a.mallocs) (malloc : a.malloc_buff ≡ true) (socket : a.socket ≡ true)
    (listens : connect_loop a.connects ≡ true) (w1 : a.write_capabilities ≡ true)
    (w2 : a.write_query ≡ true) (short_path : length path < 108) (some_cpus : atoi nb ≢ 0) where
  -- When QEMU greets, accepts the capabilities and answers with the objects of some vCPUs, on lines
  -- that fit in the buffer, the tool registers exactly these vCPUs, in order, with their threads
  -- and indices, and sets up the buffers of the VM. It needs calls that succeed, `connect` in the
  -- end, memory from malloc that is fresh, a path that fits in an address, and a number of vCPUs
  -- that is not zero.
  pub main-registers :
      (greeting capabilities reply front : Bytes) (es : List Entry) (rest : Socket) (p : Process)
      → IsLine (buffer_size (atoi nb)) greeting
      → IsLine (buffer_size (atoi nb)) capabilities
      → IsLine (buffer_size (atoi nb)) reply
      → newline reply ≡ front ++ print_entries es
      → is_clear entry_key front ≡ true
      → AreEntries es
      → all_stored a.mallocs 0 es ≡ true
      → main a
          (prog ∷ path ∷ vm_name ∷ nb ∷ more)
          (sent (newline greeting) (sent (newline capabilities) (sent (newline reply) rest)))
          p
        ≡ register_and_setup a path vm_name (atoi nb) (vcpus_of es) (connected p)
  unfolding main qmp_connect
  main-registers greeting capabilities reply front es rest p l1 l2 l3 text clear are memory =
      let bufsz = buffer_size (atoi nb) in
      let (_, fits) = buffer_size_pos (atoi nb) some_cpus (atoi-lt nb) in
      let fits_path : leb 108 (length path) ≡ false = ground (arith, short_path) in
      rw (malloc, socket, fits_path, listens)
        (dialogue-registers a path vm_name (atoi nb) fresh greeting capabilities reply front es rest
          bufsz (record { size = bufsz; cell = λ i. 0 }) (connected p) w1 w2 l1 l2 l3 refl fits text
          clear are memory)
