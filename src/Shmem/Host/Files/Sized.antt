-- ===== src/Shmem/Host/Files/Sized.antt =====
-- pvsched-shmem/host/host_ivshmem.c: a backend stays where it is, whatever happens to the registry.
use phantom_tracker.Common.{ℕ, ◌+◌, ◌≡◌, ◌≢◌, refl, sym, ap, ◌∙◌, arith, Option, some, ℕ_discrete}
use phantom_tracker.Abi.{Ret, ok, err, store}
use phantom_tracker.Shmem.Host.{Backend, Registry, bpf_host_ivshmem_h2g_write}
use phantom_tracker.Shmem.Host.Slots.{h2g_write-size}
use phantom_tracker.Shmem.Host.Register.{VmRegReq, Answers, host_register_vm}
use phantom_tracker.Shmem.Host.Register.Valid.{RoundsUp, Inv, register-ok, register-err}
use phantom_tracker.Shmem.Host.History.{Step, register, publish, guest_store}

-- A backend of a size at a minor number.
abbrev pub Sized : Registry → ℕ → ℕ → Type 0
Sized r i size = (b : Backend) × (r.devices i ≡ some b) × (b.size ≡ size)

publish-Sized :
    (r : Registry) (index : ℕ) (msg : Option ℕ) (i size : ℕ)
    → Sized r i size
    → Sized (bpf_host_ivshmem_h2g_write r index msg).1 i size
unfolding bpf_host_ivshmem_h2g_write
publish-Sized r index msg i size (c, here, same) = elim (ℕ_discrete i 1) [
  | yes p ↦
      (let one : r.devices 1 ≡ some c = ap r.devices (sym p) ∙ here in
        let (c', written, kept) = h2g_write-size c index msg in
        (c', ground (arith, one, written), kept ∙ same))
  | no q ↦ (c, ground arith, same)
]

register-Sized :
    (f : ℕ → ℕ) (rounds : RoundsUp f) (i size : ℕ) (a : Answers) (r : Registry) (req : VmRegReq)
    (result : Ret × VmRegReq × Registry)
    → host_register_vm f a r req ≡ result
    → Inv r
    → Sized r i size
    → Sized result.2 i size
register-Sized f rounds i size a r req (ok, req', r') e v (c, here, same) =
    let (b, id, changed, _, _, _) = register-ok f rounds a r r' req req' e in
    let old : i ≢ r.next_vm_id + 1 = λ p. ground (arith, v.unused i (omega (arith, p))) in
    rw changed (c, ground arith, same)
register-Sized f rounds i size a r req (err n, req', r') e v (c, here, same) =
    let (_, devices, _) = register-err f rounds a r r' req req' n e in
    (c, ap (λ (d : ℕ → Option Backend). d i) devices ∙ here, same)

-- Whatever happens to the registry, a backend stays where it is, with its size.
pub Step-Sized :
    (f : ℕ → ℕ) (rounds : RoundsUp f) (i size : ℕ) {r r' : Registry}
    → Step f r r'
    → Inv r
    → Sized r i size
    → Sized r' i size
Step-Sized f rounds i size {r} (register a req) v s =
    register-Sized f rounds i size a r req _ refl v s
Step-Sized f rounds i size {r} (publish index msg) v s = publish-Sized r index msg i size s
Step-Sized f rounds i size {r} (guest_store j a x b mem e m h) v (c, here, same) =
    elim (ℕ_discrete i j) [
      | yes p ↦ (record b { mem = some (store mem a x) }, ground arith, ground arith)
      | no q ↦ (c, ground arith, same)
    ]
