-- ===== src/Shmem/Host/Slots.antt =====
-- pvsched-shmem/host/host_ivshmem.c: what the two message functions do to the slots of a region,
-- on every branch, and which addresses they touch.
use phantom_tracker.Common.{
  Option, none, Option-cases, ℕ, ◌≡◌, some, arith, refl, inl, inr, Bool-cases, ◌==◌, if◌then◌else◌,
  leb, ◌||◌, ◌&&◌,
}
use phantom_tracker.Abi.{
  nr_host_ivshmem_msgs, nr_guest_ivshmem_msgs, h2g_latest_slot, Memory, store, load_header, ok, err,
  einval, is_ok,
}
use phantom_tracker.Shmem.Host.{
  Backend, Registry, bpf_host_ivshmem_h2g_write, h2g_slot, g2h_slot, host_ivshmem_h2g_write_msg,
  host_ivshmem_g2h_read,
}

-- The region after a message was published in a history slot.
abbrev pub published : Memory → ℕ → ℕ → Memory
published mem index msg = store (store mem (h2g_slot index) msg) (h2g_slot h2g_latest_slot) msg

module _ (b : Backend) (mem : Memory) (mapped : b.mem ≡ some mem) where
  -- A message is published exactly for the history slots; then the slot and the latest slot hold
  -- it. For the latest slot itself and past the page the write is refused and changes nothing.
  pub h2g_write-eq :
      (index msg : ℕ)
      → host_ivshmem_h2g_write_msg (some b) index (some msg) ≡ (
          if index == 0 || leb nr_host_ivshmem_msgs index
          then (err einval, some b)
          else (ok, some (record b { mem = some (published mem index msg) })))
  unfolding host_ivshmem_h2g_write_msg
  h2g_write-eq index msg = ground arith

  -- A read gives the slot's message for the indices of one page, and refuses the others.
  pub g2h_read-eq :
      (index old : ℕ)
      → host_ivshmem_g2h_read (some b) index (some old) ≡ (
          if leb nr_guest_ivshmem_msgs index
          then (err einval, some old)
          else (ok, some (mem (g2h_slot index))))
  unfolding host_ivshmem_g2h_read
  g2h_read-eq index old = ground arith

pub published-slots :
    (mem : Memory) (index msg j : ℕ)
    → published mem index msg (h2g_slot j)
      ≡ (if j == index || j == h2g_latest_slot then msg else mem (h2g_slot j))
published-slots mem index msg j = ground arith

-- With a mapped region at minor 1: a message for a history slot is published, and one for any other
-- index is refused. In the region, a published message is written at the addresses of its slot and
-- of the latest slot, and every other address, so also the header and every run state of the guest,
-- is as before; a refused one changes no address. No other device, nor the rest of the registry,
-- changes.
pub h2g_write-frame :
    (r : Registry) (b : Backend) (mem : Memory) (index msg addr i k : ℕ)
    → r.devices 1 ≡ some b
    → b.mem ≡ some mem
    → let (ret, r') = bpf_host_ivshmem_h2g_write r index (some msg) in
      (mem' : Memory) × (ret
        ≡ (if index == 0 || leb nr_host_ivshmem_msgs index then err einval else ok))
      × (r' ≡ record r { devices = r'.devices })
      × (r'.devices i ≡ (if i == 1 then some (record b { mem = some mem' }) else r.devices i))
      × (mem' addr ≡ (
          if is_ok ret && (addr == h2g_slot index || addr == h2g_slot h2g_latest_slot)
          then msg
          else mem addr))
      × (mem' (g2h_slot k) ≡ mem (g2h_slot k))
      × (load_header mem' ≡ load_header mem)
unfolding bpf_host_ivshmem_h2g_write load_header
h2g_write-frame r b mem index msg addr i k there mapped =
    elim (Bool-cases (index == 0 || leb nr_host_ivshmem_msgs index)) [
      | inl bad ↦ (
        mem,
        ground (arith, h2g_write-eq b mem mapped index msg),
        refl,
        ground (arith, h2g_write-eq b mem mapped index msg),
        ground (arith, h2g_write-eq b mem mapped index msg),
        refl,
        refl,
      )
      | inr good ↦ (
        published mem index msg,
        ground (arith, h2g_write-eq b mem mapped index msg),
        refl,
        ground (arith, h2g_write-eq b mem mapped index msg),
        ground (arith, h2g_write-eq b mem mapped index msg),
        ground arith,
        ground arith,
      )
    ]

-- A backend that is written to keeps its size, whatever the write returns.
pub h2g_write-size :
    (b : Backend) (index : ℕ) (msg : Option ℕ)
    → (c : Backend) × ((host_ivshmem_h2g_write_msg (some b) index msg).1 ≡ some c)
      × (c.size ≡ b.size)
unfolding host_ivshmem_h2g_write_msg
h2g_write-size b index none = (b, ground arith, refl)
h2g_write-size b index (some msg) = elim (Option-cases b.mem) [
  | inl unmapped ↦ (b, ground arith, refl)
  | inr (mem, mapped) ↦ elim (Bool-cases (index == 0 || leb nr_host_ivshmem_msgs index)) [
    | inl bad ↦ (b, ground (arith, h2g_write-eq b mem mapped index msg), refl)
    | inr good ↦ (
      record b { mem = some (published mem index msg) },
      ground (arith, h2g_write-eq b mem mapped index msg),
      refl,
    )
  ]
]
