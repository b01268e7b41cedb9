-- ===== src/Shmem.antt =====
-- The shared memory modules, pvsched-shmem/host and pvsched-shmem/guest.
pub mod Host
pub mod Guest
