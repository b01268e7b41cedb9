-- ===== src/Shmem/Host/Register/Destroyed.antt =====
-- pvsched-shmem/host/host_ivshmem.c: the loop that destroys the backends.
use phantom_tracker.Common.{
  ℕ, zero, suc, ◌+◌, ◌≤◌, ◌<◌, ◌≡◌, refl, arith, Option, none, if◌then◌else◌, ◌==◌, Option-cases,
  inl, inr, ap, ◌∙◌, ℕ_discrete, dec_lt,
}
use phantom_tracker.Abi.{max_nb_devices}
use phantom_tracker.Shmem.Host.{Backend, Registry}
use phantom_tracker.Shmem.Host.Register.{destroy_devices, host_destroy_registry_backend}
use phantom_tracker.Shmem.Host.Register.Valid.{Inv}

abbrev emptied : ℕ → (ℕ → Option Backend) → ℕ → Option Backend
emptied i devices j = if j == i then none else devices j

-- The loop empties the minors that it visits, and leaves the others alone.
destroy_devices-below :
    (n i j : ℕ) (devices : ℕ → Option Backend)
    → j < i
    → (destroy_devices n i devices).1 j ≡ devices j
unfolding destroy_devices
destroy_devices-below zero i j devices h = refl
destroy_devices-below (suc n) i j devices h = elim (Option-cases (devices i)) [
  | inl e ↦ rw (e, destroy_devices) (destroy_devices-below n (i + 1) j devices (omega arith))
  | inr (b, e) ↦
      rw (e, destroy_devices)
        (destroy_devices-below n (i + 1) j (emptied i devices) (omega arith) ∙ ground arith)
]

pub destroy_devices-left :
    (n i j : ℕ) (devices : ℕ → Option Backend)
    → i ≤ j
    → j < i + n
    → (destroy_devices n i devices).1 j ≡ none
unfolding destroy_devices
destroy_devices-left zero i j devices h l = absurd (omega arith)
destroy_devices-left (suc n) i j devices h l =
    -- The minor that was just visited stays empty, and the rest is emptied from the next one on.
    let visited : (d : ℕ → Option Backend) → d i ≡ none → (destroy_devices n (i + 1) d).1 j ≡ none =
      λ d e. elim (ℕ_discrete j i) [
        | yes p ↦ destroy_devices-below n (i + 1) j d (omega arith) ∙ ap d p ∙ e
        | no q ↦ destroy_devices-left n (i + 1) j d (omega arith) (omega arith)
      ] in
    elim (Option-cases (devices i)) [
      | inl e ↦ rw (e, destroy_devices) (visited devices e)
      | inr (b, e) ↦ rw (e, destroy_devices) (visited (emptied i devices) (ground arith))
    ]

pub destroy_devices-none :
    (n i j : ℕ) (devices : ℕ → Option Backend)
    → devices j ≡ none
    → (destroy_devices n i devices).1 j ≡ none
unfolding destroy_devices
destroy_devices-none zero i j devices h = h
destroy_devices-none (suc n) i j devices h = elim (Option-cases (devices i)) [
  | inl e ↦ rw (e, destroy_devices) (destroy_devices-none n (i + 1) j devices h)
  | inr (b, e) ↦
      rw (e, destroy_devices) (destroy_devices-none n (i + 1) j (emptied i devices) (ground arith))
]

-- The destruction leaves no backend, and the ids are as before.
pub destroy_registry-Inv :
    (r : Registry)
    → Inv r
    → Inv (host_destroy_registry_backend r).1
      × ((i : ℕ) → (host_destroy_registry_backend r).1.devices i ≡ none)
unfolding host_destroy_registry_backend
destroy_registry-Inv r v =
    let empty : (i : ℕ) → (destroy_devices max_nb_devices 0 r.devices).1 i ≡ none = λ i.
      elim (dec_lt i max_nb_devices) [
        | yes p ↦ destroy_devices-left max_nb_devices 0 i r.devices (omega arith) (omega arith)
        | no q ↦
            destroy_devices-none max_nb_devices 0 i r.devices (v.unused i (omega (arith, v.few)))
      ] in
    (
      record {
        reserved = empty 0;
        few = v.few;
        unused = λ i h. empty i;
        live = λ i b h. absurd (ground (arith, empty i));
      },
      empty,
    )
