-- ===== src/Tests/RegisterVm.antt =====
-- main of register_vm.c at concrete inputs.
use phantom_tracker.Common.{
  ◌+◌, ◌<◌, ◌≡◌, ◌≢◌, refl, arith, true, false, some, [], ◌∷◌, lookup, insert, length, ◌++◌,
}
use phantom_tracker.Tracker.State.{Name-discrete}
use phantom_tracker.Tracker.Keys.{digit_1, digit_2, collection_key}
use phantom_tracker.Tracker.Switch.Exact.{Exact}
use phantom_tracker.Tracker.Register.{
  c_string, vm_key, register_vm, delete_of, add_vcpus, new_buffer, setup_vm_maps,
}
use phantom_tracker.Tracker.Register.Fresh.{Unused}
use phantom_tracker.Tools.Text.{
  Bytes, codes, atoi, scan_int, signed_number, skip_space, unsigned_number, read_digits, int_of,
  or_default, starts, is_digit, is_space,
}
use phantom_tracker.Tools.Text.Found.{is_clear}
use phantom_tracker.Tools.Text.Decimal.{decimal_before, print_before}
use phantom_tracker.Tools.Vcpus.Answer.{print_entries, body}
use phantom_tracker.Tools.Vcpus.Extracted.{all_stored}
use phantom_tracker.Tools.Qmp.{byte, end_of_file, qmp_read_line}
use phantom_tracker.Tools.Qmp.Lines.{sent, newline, is_plain}
use phantom_tracker.Tools.RegisterVm.{
  MainAnswers, Process, crashed, hung, connect_loop, qmp_connect, main, register_and_setup,
  buffer_size, cleanup_buff, cleanup_fd,
}
use phantom_tracker.Tools.RegisterVm.Ends.{Ends}
use phantom_tracker.Tools.RegisterVm.Registers.{vcpus_of, connected, IsLine, main-registers}
use phantom_tracker.Tools.RegisterVm.Ready.{register_and_setup-Exact}
use phantom_tracker.Tests.Tracker.{two_vcpus, two_vcpus-Exact}
use phantom_tracker.Tests.Register.{name, all_done, all_set, two_vcpus-AllPadded}
use phantom_tracker.Tests.Tools.{mallocs, mallocs-AreFresh, front, entries, entries-AreEntries}

abbrev pub all_up : MainAnswers
all_up = record {
  malloc_buff = true;
  socket = true;
  connects = false ∷ true ∷ [];
  write_capabilities = true;
  write_query = true;
  mallocs = mallocs;
  tool = all_done;
  maps = all_set;
}

abbrev pub process : Process
process = record { tracker = two_vcpus; fds = 3; buffers = 0 }

abbrev two : Bytes
two = codes "2"

atoi-two : atoi two ≡ 2
unfolding atoi or_default scan_int signed_number skip_space is_space unsigned_number is_digit int_of
    read_digits
atoi-two = refl

two-ne-zero : atoi two ≢ 0
two-ne-zero = omega (arith, atoi-two)

abbrev pub sock : Bytes
sock = codes "/tmp/a.sock"

-- Nobody listens on the socket.
nobody_listens :
    main
      (record all_up { connects = false ∷ [] })
      (codes "register_vm" ∷ sock ∷ name ∷ two ∷ [])
      (byte 65 ∷ end_of_file ∷ [])
      process
    ≡ hung
unfolding main qmp_connect connect_loop
nobody_listens = refl

-- A number that is no number is zero, and the greeting is written outside the buffer.
no_number :
    main all_up (codes "register_vm" ∷ sock ∷ name ∷ codes "two" ∷ []) (byte 65 ∷ []) process
    ≡ crashed
unfolding main qmp_connect connect_loop atoi qmp_read_line or_default scan_int signed_number
    skip_space is_space unsigned_number is_digit
no_number = refl

abbrev greeting : Bytes
greeting = codes "{\"QMP\": {}}"

abbrev capabilities : Bytes
capabilities = codes "{\"return\": {}}"

abbrev answer_line : Bytes
answer_line =
    codes
      "{\"return\": [{\"thread-id\": 4120, \"target\": \"x86_64\", \"cpu-index\": 0}, {\"thread-id\": 4121, \"target\": \"x86_64\", \"cpu-index\": 1}]}"

answer_line-entries : newline answer_line ≡ front ++ print_entries entries
unfolding print_entries body decimal_before print_before
answer_line-entries = refl

size-two : buffer_size (atoi two) ≡ 8192
unfolding buffer_size
size-two = rw atoi-two refl

IsLine-in :
    (cs : Bytes) → is_plain cs ≡ true → length cs + 1 < 8192 → IsLine (buffer_size (atoi two)) cs
IsLine-in cs plain short = record { plain = plain; short = rw size-two short }

main-registers_example :
    main all_up
      (codes "register_vm" ∷ sock ∷ name ∷ two ∷ [])
      (sent (newline greeting) (sent (newline capabilities) (sent (newline answer_line) [])))
      process
    ≡ register_and_setup all_up sock name (atoi two) (vcpus_of entries) (connected process)
unfolding is_clear starts all_stored connect_loop
main-registers_example =
    main-registers all_up (codes "register_vm") sock name two [] mallocs-AreFresh refl refl refl
      refl refl (omega arith) two-ne-zero greeting capabilities answer_line front entries [] process
      (IsLine-in greeting refl (omega arith)) (IsLine-in capabilities refl (omega arith))
      (IsLine-in answer_line refl (omega arith)) answer_line-entries refl entries-AreEntries refl

entries-Unused : Unused name (vcpus_of entries) (delete_of name two_vcpus.vcpus)
unfolding delete_of c_string lookup insert
entries-Unused = (ground arith, (ground arith, tt))

abbrev pub ready : Process
ready = record process {
  tracker =
      (setup_vm_maps all_set name
        (register_vm all_done (vcpus_of entries) name sock 2 two_vcpus).1).1;
}

register_and_setup-Exact_example :
    Exact ready.tracker
    × (lookup Name-discrete (collection_key digit_1 (vm_key name)) ready.tracker.map_registry
        ≡ some new_buffer)
    × (lookup Name-discrete (collection_key digit_2 (vm_key name)) ready.tracker.map_registry
        ≡ some new_buffer)
unfolding register_and_setup register_vm setup_vm_maps add_vcpus cleanup_fd cleanup_buff
register_and_setup-Exact_example =
    register_and_setup-Exact all_up sock name 2 (vcpus_of entries) (connected process) ready refl
      (omega arith) two_vcpus-AllPadded entries-Unused (omega arith) (omega arith) refl
      two_vcpus-Exact refl
