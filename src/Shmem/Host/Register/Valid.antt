-- ===== src/Shmem/Host/Register/Valid.antt =====
-- pvsched-shmem/host/host_ivshmem.c: what a backend and the registry are between two calls, and the
-- two outcomes of a registration.
use phantom_tracker.Common.{
  ℕ, ◌+◌, ◌*◌, ◌^◌, ◌≤◌, ◌<◌, ◌≡◌, refl, true, none, some, arith, inl, inr, Bool-cases, leb, ◌||◌,
  if◌then◌else◌,
}
use phantom_tracker.Abi.{
  page_size, msg_size, Ret, Memory, Header, load_header, ok, err, Errno, max_nb_devices,
  zero_memory,
}
use phantom_tracker.Shmem.Host.{Backend, Registry, g2h_offset, set_device}
use phantom_tracker.Shmem.Host.Register.{
  VmRegReq, Answers, backend_header, store_header, nb_pages, new_backend, host_register_vm,
  host_ivshmem_create_static_backend, host_registry_ioctl, phant_reg, reply,
}

-- What the program relies on in the kernel's `roundup_pow_of_two`.
pub record RoundsUp (f : ℕ → ℕ) : Type 0 where
  pub ge : (n : ℕ) → n ≤ f n
  pub power : (n : ℕ) → 1 ≤ n → (k : ℕ) × (f n ≡ 2 ^ k)
  pub exact : (k : ℕ) → f (2 ^ k) ≡ 2 ^ k

-- A backend that userspace can open under a minor number.
pub record Live (minor : ℕ) (b : Backend) : Type 0 where
  pub memory : Memory
  pub mapped : b.mem ≡ some memory
  pub described : load_header memory ≡ backend_header b.size
  pub two_pages : g2h_offset ≤ b.size
  pub power : (k : ℕ) × (b.size ≡ 2 ^ k)
  pub numbered : b.minor ≡ minor
  pub added : b.cdev ≡ true

pub record Inv (r : Registry) : Type 0 where
  pub reserved : r.devices 0 ≡ none
  pub few : r.next_vm_id < max_nb_devices
  pub unused : (i : ℕ) → r.next_vm_id < i → r.devices i ≡ none
  pub live : (i : ℕ) (b : Backend) → r.devices i ≡ some b → Live i b

load-store_header : (h : Header) → load_header (store_header zero_memory h) ≡ h
unfolding load_header store_header
load-store_header h = refl

module _ (a : Answers) (minor : ℕ) (b b' : Backend)
    (created : host_ivshmem_create_static_backend a minor b ≡ (ok, b')) where
  pub create-mem : b'.mem ≡ some (store_header zero_memory (backend_header b.size))
  unfolding host_ivshmem_create_static_backend
  create-mem = ground arith

  pub create-fields : (b'.size ≡ b.size) × (b'.minor ≡ minor) × (b'.cdev ≡ true)
  unfolding host_ivshmem_create_static_backend
  create-fields = ground arith

  create-Live : g2h_offset ≤ b.size → (k : ℕ) × (b.size ≡ 2 ^ k) → Live minor b'
  create-Live two p = record {
    memory = store_header zero_memory (backend_header b.size);
    mapped = create-mem;
    described = rw create-fields.0 (load-store_header (backend_header b.size));
    two_pages = rw create-fields.0 two;
    power = rw create-fields.0 p;
    numbered = create-fields.1;
    added = create-fields.2;
  }

reply-ok :
    (f : ℕ → ℕ) (a : Answers) (out : Ret × VmRegReq × Registry) (req : VmRegReq) (r : Registry)
    → reply f a out ≡ (ok, some req, r)
    → out ≡ (ok, req, r)
unfolding reply
reply-ok f a (err e, req', r') req r h = absurd (cc)
reply-ok f a (ok, req', r') req r h = ground arith

module _ (f : ℕ → ℕ) (rounds : RoundsUp f) where
  new_backend-size :
      (nb_cpu : ℕ)
      → (g2h_offset + nb_cpu * msg_size ≤ (new_backend f nb_cpu).size)
        × ((k : ℕ) × ((new_backend f nb_cpu).size ≡ 2 ^ k))
  new_backend-size nb_cpu = (
    omega (arith, rounds.ge (nb_pages nb_cpu * page_size)),
    rounds.power (nb_pages nb_cpu * page_size) (omega arith),
  )

  pub register-inv :
      (a : Answers) (r r' : Registry) (req req' : VmRegReq)
      → host_register_vm f a r req ≡ (ok, req', r')
      → (b : Backend) × (r.next_vm_id + 1 < max_nb_devices)
        × (host_ivshmem_create_static_backend a (r.next_vm_id + 1) (new_backend f req.nb_cpu)
            ≡ (ok, b))
        × (req' ≡ record req { vm_id = r.next_vm_id; size = b.size })
        × (r' ≡ set_device (record r { next_vm_id = r.next_vm_id + 1 }) (r.next_vm_id + 1) (some b))
  unfolding host_register_vm
  register-inv a r r' req req' e = (
    (host_ivshmem_create_static_backend a (r.next_vm_id + 1) (new_backend f req.nb_cpu)).1,
    ground arith,
    ground arith,
    ground arith,
    ground arith,
  )

  -- A registration that succeeds takes the next id and returns it, puts a new backend at the minor
  -- number after the id, and changes nothing else. The backend is live, its size is the one
  -- reported, and it has room for two pages and one message for each requested CPU.
  pub register-ok :
      (a : Answers) (r r' : Registry) (req req' : VmRegReq)
      → host_register_vm f a r req ≡ (ok, req', r')
      → (b : Backend) × (req' ≡ record req { vm_id = r.next_vm_id; size = b.size })
        × (r' ≡ set_device (record r { next_vm_id = r.next_vm_id + 1 }) (r.next_vm_id + 1) (some b))
        × (r.next_vm_id + 1 < max_nb_devices)
        × Live (r.next_vm_id + 1) b
        × (g2h_offset + req.nb_cpu * msg_size ≤ b.size)
  register-ok a r r' req req' e =
      let (b, bound, created, id, same) = register-inv a r r' req req' e in
      let live =
        create-Live a (r.next_vm_id + 1) (new_backend f req.nb_cpu) b created
          (omega (arith, (new_backend-size req.nb_cpu).0)) (new_backend-size req.nb_cpu).1 in
      let size = create-fields a (r.next_vm_id + 1) (new_backend f req.nb_cpu) b created in
      (b, id, same, bound, live, omega (arith, (new_backend-size req.nb_cpu).0, size.0))

  -- A registration that fails leaves the devices and the request alone. The id is given back too,
  -- but for one error: when the backend's own allocation fails, the id is lost.
  pub register-err :
      (a : Answers) (r r' : Registry) (req req' : VmRegReq) (e : Errno)
      → host_register_vm f a r req ≡ (err e, req', r')
      → (req' ≡ req)
        × (r'.devices ≡ r.devices)
        × (r'.next_vm_id ≡ (
            if leb max_nb_devices (r.next_vm_id + 1) || a.kzalloc
            then r.next_vm_id
            else r.next_vm_id + 1))
  unfolding host_register_vm
  register-err a r r' req req' e h = ground arith

  -- What the ioctl returns to the caller is what the registration filled in.
  pub ioctl-ok :
      (a : Answers) (r r' : Registry) (req req' : VmRegReq)
      → host_registry_ioctl f a phant_reg r req ≡ (ok, some req', r')
      → host_register_vm f a r req ≡ (ok, req', r')
  unfolding host_registry_ioctl
  ioctl-ok a r r' req req' h = elim (Bool-cases a.copy_from_user) [
    | inr e ↦ absurd (ground (arith, e))
    | inl e ↦ reply-ok f a (host_register_vm f a r req) req' r' (ground (arith, e))
  ]
