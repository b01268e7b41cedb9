-- ===== src/Tools.antt =====
-- The command line tools: pvsched-ebpf/host/user, and register_vm_backend.c of
-- pvsched-shmem/host/usr.
pub mod LinkedList
pub mod Text
pub mod Vcpus
pub mod Qmp
pub mod RegisterVm
pub mod RegisterVmBackend
