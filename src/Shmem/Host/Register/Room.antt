-- ===== src/Shmem/Host/Register/Room.antt =====
-- pvsched-shmem/host/host_ivshmem.c: does a registered region hold the slots that are read?
use phantom_tracker.Common.{ℕ, ◌+◌, ◌*◌, ◌≤◌, ◌<◌, ◌≡◌, some, arith, ap}
use phantom_tracker.Abi.{page_size, msg_size, ok, nr_guest_ivshmem_msgs, Memory}
use phantom_tracker.Shmem.Host.{Backend, Registry, g2h_offset, g2h_slot, host_ivshmem_g2h_read}
use phantom_tracker.Shmem.Host.Slots.{g2h_read-eq}
use phantom_tracker.Shmem.Host.Register.{VmRegReq, Answers, new_backend, nb_pages, host_register_vm}
use phantom_tracker.Shmem.Host.Register.Valid.{RoundsUp, register-inv, create-fields, create-mem}

module _ (f : ℕ → ℕ) (rounds : RoundsUp f) where
  new_backend-room :
      (nb_cpu : ℕ) → 1 ≤ nb_cpu → g2h_offset + page_size ≤ (new_backend f nb_cpu).size
  new_backend-room nb_cpu h = omega (arith, rounds.ge (nb_pages nb_cpu * page_size))

  new_backend-zero : (new_backend f 0).size ≡ g2h_offset
  new_backend-zero = rounds.exact 13

  -- The backend of a registration: its size is that of a new one, and a read is by address.
  registered :
      (a : Answers) (r r' : Registry) (req req' : VmRegReq)
      → host_register_vm f a r req ≡ (ok, req', r')
      → (b : Backend) × (mem : Memory) × (r'.devices (r.next_vm_id + 1) ≡ some b)
        × (b.size ≡ (new_backend f req.nb_cpu).size)
        × (b.mem ≡ some mem)
  registered a r r' req req' e =
      let (b, few, created, id, same) = register-inv f rounds a r r' req req' e in
      let vm = create-fields a (r.next_vm_id + 1) (new_backend f req.nb_cpu) b created in
      let mapped = create-mem a (r.next_vm_id + 1) (new_backend f req.nb_cpu) b created in
      (b, _, ground arith, vm.0, mapped)

  module _ (a : Answers) (r r' : Registry) (req req' : VmRegReq)
      (done : host_register_vm f a r req ≡ (ok, req', r')) (index old : ℕ)
      (index_in : index < nr_guest_ivshmem_msgs) where
    -- A VM registered with at least one CPU has room for every slot that can be read: each index
    -- below the limit reads a message that lies inside the region.
    pub register_room :
        1 ≤ req.nb_cpu
        → (b : Backend) × (mem : Memory) × (r'.devices (r.next_vm_id + 1) ≡ some b)
          × (host_ivshmem_g2h_read (some b) index (some old) ≡ (ok, some (mem (g2h_slot index))))
          × (g2h_slot index + msg_size ≤ b.size)
    register_room h =
        let (b, mem, here, size, mapped) = registered a r r' req req' done in
        (
          b,
          mem,
          here,
          ground (arith, g2h_read-eq b mem mapped index old),
          omega (arith, size, new_backend-room req.nb_cpu h),
        )

    -- A VM that asks for no CPU is accepted, but its region ends where the guest's part would
    -- begin: a read of any index below the limit is accepted too, at an address past the region.
    pub register_no_room :
        req.nb_cpu ≡ 0
        → (b : Backend) × (mem : Memory) × (r'.devices (r.next_vm_id + 1) ≡ some b)
          × (host_ivshmem_g2h_read (some b) index (some old) ≡ (ok, some (mem (g2h_slot index))))
          × (b.size ≤ g2h_slot index)
    register_no_room h =
        let (b, mem, here, size, mapped) = registered a r r' req req' done in
        (
          b,
          mem,
          here,
          ground (arith, g2h_read-eq b mem mapped index old),
          omega (arith, size, ap (λ (n : ℕ). (new_backend f n).size) h, new_backend-zero),
        )
