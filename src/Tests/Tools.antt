-- ===== src/Tests/Tools.antt =====
-- register_vm.c at concrete inputs: a VM of two vCPUs.
use phantom_tracker.Common.{
  ℕ, ◌+◌, ◌*◌, ◌≤◌, u32, ◌≡◌, refl, arith, true, none, some, [], ◌∷◌, List, length, ◌++◌,
  if◌then◌else◌,
}
use phantom_tracker.Tracker.Register.{QmpVcpu}
use phantom_tracker.Tools.Text.{Bytes, codes, skip_space, starts, is_digit, is_space}
use phantom_tracker.Tools.Text.Found.{is_clear}
use phantom_tracker.Tools.Text.Decimal.{decimal_before, print_before}
use phantom_tracker.Tools.LinkedList.{Heap, done}
use phantom_tracker.Tools.LinkedList.Chain.{Chain}
use phantom_tracker.Tools.LinkedList.Append.{values}
use phantom_tracker.Tools.Vcpus.{Mallocs, print_vcpu, extract_vcpu_info}
use phantom_tracker.Tools.Vcpus.Answer.{Entry, AreEntries, print_entries, body}
use phantom_tracker.Tools.Vcpus.Extracted.{AreFresh, stored, all_stored, extract_vcpu_info-Chain}
use phantom_tracker.Tools.Vcpus.Returns.{Returned, extract_vcpu_info-Returned}
use phantom_tracker.Tools.Qmp.{byte, qmp_read_line, overrun}
use phantom_tracker.Shmem.Host.{Backend, empty_registry, set_device, g2h_offset}
use phantom_tracker.Abi.{msg_size}
use phantom_tracker.Shmem.Host.Register.{
  host_registry_ioctl, host_register_vm, host_ivshmem_create_static_backend,
}
use phantom_tracker.Shmem.Host.Register.Valid.{Live}
use phantom_tracker.Tools.RegisterVmBackend.{BackendExit, nb_cpu_of, register_vm_backend}
use phantom_tracker.Tools.RegisterVmBackend.Granted.{register_vm_backend-printed}
use phantom_tracker.Tests.Rounding.{round_up, round_from, round_up-RoundsUp}
use phantom_tracker.Tests.Shmem.{all_well}

abbrev pub mallocs : Mallocs
mallocs = record { head = 1; vcpu = λ i. true; node = λ i. i + 2 }

pub mallocs-AreFresh : AreFresh mallocs
mallocs-AreFresh = record {
  head_made = omega arith;
  node_made = λ i. omega arith;
  node_not_head = λ i. omega arith;
  node_distinct = λ i j e. omega arith;
}

abbrev pub front : Bytes
front = codes "{\"return\": ["

abbrev entry : ℕ → ℕ → Bytes → Entry
entry thread cpu behind = record {
  vcpu = record { cpu_index = cpu; thread_id = thread };
  between = codes ", \"target\": \"x86_64\", ";
  behind = behind;
}

abbrev pub entries : List Entry
entries = entry 4120 0 (codes "}, ") ∷ entry 4121 1 (codes "}]}\n") ∷ []

pub entries-AreEntries : AreEntries entries
unfolding decimal_before print_before is_clear body is_digit starts
entries-AreEntries = (
  record {
    thread = omega arith;
    cpu = omega arith;
    ends_thread = refl;
    ends_cpu = refl;
    one_cpu = refl;
    one_entry = refl;
  },
  (
    record {
      thread = omega arith;
      cpu = omega arith;
      ends_thread = refl;
      ends_cpu = refl;
      one_cpu = refl;
      one_entry = refl;
    },
    tt,
  ),
)

abbrev empty : Heap QmpVcpu
empty = λ p. none

extract_vcpu_info-Chain_example :
    (g : Heap QmpVcpu) × Chain g 1 ((1, none) ∷ stored mallocs 0 entries)
    × (extract_vcpu_info mallocs (front ++ print_entries entries) empty
        ≡ done
            (
              1,
              if all_stored mallocs 0 entries
                  then print_vcpu (values (stored mallocs 0 entries))
                  else [],
            )
            g)
unfolding is_clear starts
extract_vcpu_info-Chain_example =
    extract_vcpu_info-Chain mallocs mallocs-AreFresh front entries empty refl entries-AreEntries

-- An entry without its index takes the index of the next one, and a number that is missing is -1.
abbrev odd : Bytes
odd = codes "[{\"thread-id\": 7}, {\"thread-id\": x, \"cpu-index\": 3}]"

extract_vcpu_info-Returned_example :
    Returned mallocs none (length odd) (extract_vcpu_info mallocs odd empty)
extract_vcpu_info-Returned_example = extract_vcpu_info-Returned mallocs mallocs-AreFresh odd empty

-- With a size of zero the first byte lands outside the buffer.
empty_buffer : qmp_read_line (byte 65 ∷ []) (record { size = 0; cell = λ i. 0 }) 0 ≡ overrun
unfolding qmp_read_line
empty_buffer = refl

-- The tool asks for a region for four CPUs.
abbrev printed_4 : BackendExit
printed_4 =
    register_vm_backend round_up all_well true (codes "register_vm_backend" ∷ codes "4" ∷ [])
      empty_registry

register_vm_backend-printed_example :
    (nb_cpu : ℕ) × (b : Backend) × (nb_cpu_of (codes "4") ≡ some nb_cpu)
    × (0 ≡ empty_registry.next_vm_id)
    × (printed_4.registry ≡ set_device (record empty_registry { next_vm_id = 1 }) 1 (some b))
    × Live 1 b
    × (16384 ≡ b.size)
    × (g2h_offset + u32 nb_cpu * msg_size ≤ b.size)
unfolding register_vm_backend skip_space is_space is_digit host_registry_ioctl host_register_vm
    host_ivshmem_create_static_backend round_up round_from
register_vm_backend-printed_example =
    register_vm_backend-printed round_up all_well true (codes "register_vm_backend") (codes "4")
      empty_registry 0 16384 round_up-RoundsUp refl
