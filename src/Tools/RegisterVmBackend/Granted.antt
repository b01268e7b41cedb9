-- ===== src/Tools/RegisterVmBackend/Granted.antt =====
-- pvsched-shmem/host/usr/register_vm_backend.c against host_ivshmem.c: what the tool prints.
use phantom_tracker.Common.{
  ℕ, ◌+◌, ◌*◌, ◌≤◌, ◌≡◌, refl, ap, ◌∙◌, sym, arith, Bool, Option, none, some, [], ◌∷◌, u32, inl,
  inr, Bool-cases, Option-cases,
}
use phantom_tracker.Abi.{Ret, ok, err, msg_size}
use phantom_tracker.Shmem.Host.{Backend, Registry, g2h_offset, set_device}
use phantom_tracker.Shmem.Host.Register.{VmRegReq, Answers, phant_reg, host_registry_ioctl}
use phantom_tracker.Shmem.Host.Register.Valid.{RoundsUp, Live, register-ok, ioctl-ok}
use phantom_tracker.Tools.Text.{Bytes}
use phantom_tracker.Tools.RegisterVmBackend.{
  nb_cpu_of, report, request, request_if, register_vm_backend,
}

report-printed :
    (out : Ret × Option VmRegReq × Registry) (id size : ℕ)
    → (report out).printed ≡ some (id, size)
    → (req : VmRegReq) × (out ≡ (ok, some req, out.2))
      × (id ≡ req.vm_id)
      × (size ≡ req.size)
      × ((report out).registry ≡ out.2)
unfolding report
report-printed (err e, req, r) id size h = absurd (cc)
report-printed (ok, none, r) id size h = absurd (cc)
report-printed (ok, some req, r) id size h = (req, refl, ground arith, ground arith, refl)

-- Where the tool prints an id and a size, it was given one number, and the driver's registry holds
-- a live backend of that size at the minor number after the id, which is the next free one. The
-- backend has room for two pages and for one message for each of the CPUs that the low 32 bits of
-- the number count. It needs a `roundup_pow_of_two` as documented.
pub register_vm_backend-printed :
    (f : ℕ → ℕ) (a : Answers) (open_device : Bool) (prog nb : Bytes) (r : Registry) (id size : ℕ)
    → RoundsUp f
    → (register_vm_backend f a open_device (prog ∷ nb ∷ []) r).printed ≡ some (id, size)
    → (nb_cpu : ℕ) × (b : Backend) × (nb_cpu_of nb ≡ some nb_cpu)
      × (id ≡ r.next_vm_id)
      × ((register_vm_backend f a open_device (prog ∷ nb ∷ []) r).registry
          ≡ set_device (record r { next_vm_id = id + 1 }) (id + 1) (some b))
      × Live (id + 1) b
      × (size ≡ b.size)
      × (g2h_offset + u32 nb_cpu * msg_size ≤ b.size)
unfolding register_vm_backend request_if request
register_vm_backend-printed f a open_device prog nb r id size rounds h =
    elim (Option-cases (nb_cpu_of nb)) [
      | inl e ↦ absurd (ground (arith, e))
      | inr (n, e) ↦ elim (Bool-cases open_device) [
        | inr shut ↦ absurd (ground (arith, e, shut))
        | inl up ↦
            (let req : VmRegReq = record { nb_cpu = u32 n; vm_id = 0; size = 0 } in
              let out = host_registry_ioctl f a phant_reg r req in
              let same : register_vm_backend f a open_device (prog ∷ nb ∷ []) r ≡ report out =
                ground (arith, e, up) in
              let (req', answered, id', size', r') =
                report-printed out id size (sym (ap (λ x. x.printed) same) ∙ h) in
              let (b, filled, stored, _, live, room) =
                register-ok f rounds a r out.2 req req'
                  (ioctl-ok f rounds a r out.2 req req' answered) in
              let taken : id ≡ r.next_vm_id = id' ∙ ap (λ (q : VmRegReq). q.vm_id) filled in
              (
                n,
                b,
                e,
                taken,
                ap (λ x. x.registry) same
                    ∙ r'
                    ∙ stored
                    ∙ ap (λ (i : ℕ). set_device (record r { next_vm_id = i + 1 }) (i + 1) (some b))
                        (sym taken),
                coe 1 0 (i. Live (taken i + 1) b) live,
                size' ∙ ap (λ (q : VmRegReq). q.size) filled,
                room,
              ))
      ]
    ]
