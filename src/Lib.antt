-- ===== src/Lib.antt =====
-- The phantom tracker: a scheduler-aware monitor of virtual machines. eBPF programs on the host count
-- the vCPUs of each VM that were preempted while they ran an OpenMP thread ("phantoms"), average the
-- count over every scheduler tick, and publish it to the guest through shared memory.
--
-- Parts, and the files that model them:
-- - The layout of the shared memory, include/pvsched.h and include/pvsched_shmem.h, is Abi: messages
--   of 64 bytes, slots, and the header on the first page. Pages have 4096 bytes, as on x86-64.
-- - pvsched-shmem/host/host_ivshmem.c is Shmem/Host: `bpf_host_ivshmem_h2g_write` and
--   `bpf_host_ivshmem_g2h_read`; Shmem/Host/Register: `host_register_vm` behind `host_registry_ioctl`,
--   and the creation and destruction of backends; Shmem/Host/Register/Load, `host_ivshmem_init` and
--   `host_ivshmem_exit`; and Shmem/Host/Files: `host_ivshmem_fops` and `host_registry_fops` with their
--   open, release and mmap, and the files and mappings of them as a step relation.
--   What the kernel's calls answer is a record of booleans and error numbers (Answers), and the
--   kernel's `roundup_pow_of_two` is a parameter, of which RoundsUp states what is documented.
-- - pvsched-ebpf/host/ebpf/create_maps/create_maps.bpf.c is Tracker/State (its pinned maps),
--   Tracker/Counter (`atomic_dec_if_pos`, `atomic_inc_if_lt_ceil`), Tracker/Keys (the names of a VM's
--   two buffers) and Tracker/Switch (`phantom_switch_handler`).
-- - pvsched-ebpf/host/ebpf/timer/timer.bpf.c is Tracker/Average (`phantom_average`),
--   Tracker/Watermark (`next_history_slot`, `write_watermark`) and Tracker/Timer (`callback_fn`,
--   `timer_cb`, `phantom_timer_handler`). It works on the maps of Tracker/State. Tracker/Timer/Claim is
--   `phantom_timer_handler` once more, call by call, on CPUs that interleave.
-- - Tracker/History is the two programs together, context switches and callbacks in any order, and
--   Tools/RegisterVm/Watched the same behind a registration, for a guest that reads what is published.
--   A buffer may fill up; only the 32-bit index of the next sample must not wrap around.
-- - pvsched-shmem/guest/guest_ivshmem.c is Shmem/Guest: `guest_ivshmem_mmap` and
--   `bpf_guest_ivshmem_g2h_write`; Shmem/Guest/Files, `guest_ivshmem_open` and the
--   files that are open; Shmem/Guest/Driver, `guest_ivshmem_probe` with a function for each label of its
--   error path, and `guest_ivshmem_remove`; Shmem/Guest/Chardev; and Shmem/Guest/Load,
--   `guest_ivshmem_init` and `guest_ivshmem_exit`, with the devices on the bus as a list. What the
--   driver holds of the kernel is counted, and its lock notes an unlock too many.
-- - pvsched-ebpf/host/ebpf/idle_avg/global_running_tracker.bpf.c is Tracker/Idle; its per-CPU loop,
--   which a Makefile writes, is a sum over a list of run queues.
-- - pvsched-ebpf/guest/omp_thread_reg.bpf.c is Threads, with the schedule of the guest as a step
--   relation in Threads/Shown.
-- - pvsched-ebpf/host/h2g_msg_timer/h2g_msg_timer.bpf.c is Clock.
-- - pvsched-ebpf/host/include/register_vm.h is Tracker/Register, and the `main` of
--   pvsched-ebpf/host/user/cleanup.c is Tracker/Register/Cleanup; both work on the maps of
--   Tracker/State. Tracker/Register/Directory is what both do to the files of a VM's directory, with the
--   loop of `unlink_dir_contents`. Strings are lists of bytes, and a name in a map is 64 bytes.
-- - Tools are the other command line tools: pvsched-ebpf/host/user/linkedlist.c is Tools/LinkedList,
--   nodes in a heap; register_vm.c beside it is Tools/Vcpus (`extract_vcpu_info`), Tools/Qmp
--   (`qmp_read_line`, `qmp_send_recv`) and Tools/RegisterVm (`qmp_connect` and `main`), with what it uses
--   of the C library to read text in Tools/Text; pvsched-shmem/host/usr/register_vm_backend.c is
--   Tools/RegisterVmBackend, which calls the ioctl of Shmem/Host/Register. The bytes that QEMU sends are
--   a list of answers of `read`, malloc answers with addresses, and an `int` is its 32 bits.
-- - The loaders are Loaders: create_maps.loader.c, global_running_tracker.loader.c and timer.loader.c
--   of pvsched-ebpf/host/ebpf, pvsched-ebpf/guest/omp_thread_reg.loader.c, and
--   pvsched-ebpf/host/h2g_msg_timer/h2g_msg_timer_loader.c. What libbpf answers is a record of booleans,
--   and the state is what is pinned under /sys/fs/bpf and what the process holds.
-- Common holds the helpers that the parts share, Tests the theorems at concrete inputs.
--
-- The parts meet in the registry of Shmem/Host, which the tracker's state holds: the handler of
-- context switches reads the run state of a vCPU from it, and the timer publishes a watermark in it.
--
-- How state is modelled: maps are association lists or functions, and every operation takes the
-- state and returns it. Words of 32 and 64 bits wrap where the code adds to them. A handler runs as
-- one step, except in Tracker/Timer/Claim, and except that another CPU may write a phantom counter
-- between the load and the compare-and-swap of each of the 24 attempts: what it writes is a
-- function of the attempt (World). Registrations with the driver come one after the other, and only
-- the driver and the guest's own writes store to a region. Loops are recursion on a count that the
-- code fixes (24 attempts, 61 bytes, 256 minors, the entries of an array map), so they need no
-- fuel. Those over a list in the heap or over a text run on fuel, one more than the number of nodes
-- or the length of the text. Answers that may go on for ever, of `connect` and of `read`, are
-- lists, behind which the tool waits: Exit and Line say so.
--
-- Not modelled: the build of the eBPF programs, the scripts, the test programs, messages and the
-- polling that only prints, the capacity of the hash maps, and timer periods.
pub mod Common
pub mod Abi
pub mod Shmem
pub mod Tracker
pub mod Threads
pub mod Clock
pub mod Tools
pub mod Loaders
pub mod Tests
