-- ===== src/Abi/Field.antt =====
-- struct ivshmem_header of include/pvsched_shmem.h: the byte offsets of its fields, three of 32 bits
-- and four of 64 bits, naturally aligned.
use Prim.Native.Nat.{ℕ}

abbrev pub magic : ℕ
magic = 0

abbrev pub version : ℕ
version = 4

abbrev pub latest_slot : ℕ
latest_slot = 8

abbrev pub h2g_page_offset : ℕ
h2g_page_offset = 16

abbrev pub h2g_page_size : ℕ
h2g_page_size = 24

abbrev pub g2h_page_offset : ℕ
g2h_page_offset = 32

abbrev pub g2h_page_size : ℕ
g2h_page_size = 40
