-- ===== src/Shmem/Host/Files/Safe.antt =====
-- pvsched-shmem/host/host_ivshmem.c: what the files that are open on its devices point to, over any
-- history of the registry and of file operations.
use mathlib.Core.Path.{subst}
use phantom_tracker.Common.{
  ℕ, ◌≡◌, ◌≢◌, refl, arith, none, some, Option-cases, Bool-cases, inl, inr, ◌==◌, ℕ_discrete,
}
use phantom_tracker.Abi.{Ret, ok}
use phantom_tracker.Shmem.Host.{Backend, Registry, empty_registry}
use phantom_tracker.Shmem.Host.Register.{host_destroy_registry_backend}
use phantom_tracker.Shmem.Host.Register.Valid.{RoundsUp, Inv}
use phantom_tracker.Shmem.Host.Register.Destroyed.{destroy_registry-Inv}
use phantom_tracker.Shmem.Host.History.{Step, Step-Inv, empty-Inv}
use phantom_tracker.Shmem.Host.Files.{
  PrivateData, backend, Vma, Call, returned, host_ivshmem_open, host_ivshmem_mmap,
  host_ivshmem_fops, host_registry_fops, fops_of, OpenFile, Mapped, Devices, put, FileStep, served,
  opened, mapped, unmapped, closed, destroyed,
}
use phantom_tracker.Shmem.Host.Files.Sized.{Sized, Step-Sized}

-- Every file of a backend's device points to the backend that is there, and every mapping is of such
-- a file and as long as the region.
pub record Safe (s : Devices) : Type 0 where
  pub registry : Inv s.registry
  pub pointers :
      (fd : ℕ) (file : OpenFile)
      → s.files fd ≡ some file
      → file.minor ≢ 0
      → (file.private_data ≡ backend file.minor)
        × (b : Backend) × (s.registry.devices file.minor ≡ some b)
  pub regions :
      (id : ℕ) (m : Mapped)
      → s.mappings id ≡ some m
      → (file : OpenFile) × (s.files m.fd ≡ some file)
        × (file.minor ≢ 0)
        × Sized s.registry file.minor m.len

served-Safe :
    (f : ℕ → ℕ) (rounds : RoundsUp f) (s : Devices) (r : Registry)
    → Step f s.registry r
    → Safe s
    → Safe (record s { registry = r })
served-Safe f rounds s r step v = record {
  registry = Step-Inv f rounds step v.registry;
  pointers = λ fd file e ne.
      let (points, b, here) = v.pointers fd file e ne in
      let (c, there, _) = Step-Sized f rounds file.minor b.size step v.registry (b, here, refl) in
      (points, c, there);
  regions = λ id m e.
      let (file, open_file, ne, sized) = v.regions id m e in
      (file, open_file, ne, Step-Sized f rounds file.minor m.len step v.registry sized);
}

open-backend :
    (r : Registry) (minor : ℕ) (d : PrivateData)
    → minor ≢ 0
    → (fops_of minor).open_file r minor ≡ (ok, d)
    → (d ≡ backend minor) × (b : Backend) × (r.devices minor ≡ some b)
unfolding fops_of host_ivshmem_fops host_ivshmem_open
open-backend r minor d ne e = elim (Option-cases (r.devices minor)) [
  | inl missing ↦ absurd (ground arith)
  | inr (b, here) ↦ (ground arith, b, here)
]

opened-Safe :
    (s : Devices) (fd minor : ℕ) (d : PrivateData)
    → s.files fd ≡ none
    → (fops_of minor).open_file s.registry minor ≡ (ok, d)
    → Safe s
    → Safe (record s { files = put fd (some (record { minor = minor; private_data = d })) s.files })
opened-Safe s fd minor d fresh e v = record {
  registry = v.registry;
  pointers = λ j file h ne. elim (ℕ_discrete j fd) [
    | yes p ↦
        (let same : record { minor = minor; private_data = d } ≡ file = ground arith in
          subst
            (λ (x : OpenFile).
              x.minor ≢ 0
              → (x.private_data ≡ backend x.minor)
                × (b : Backend) × (s.registry.devices x.minor ≡ some b))
            same (λ n. open-backend s.registry minor d n e) ne)
    | no q ↦ v.pointers j file (ground arith) ne
  ];
  regions = λ id m h.
      let (file, open_file, ne, sized) = v.regions id m h in (file, ground arith, ne, sized);
}

-- Only the devices of backends can be mapped, and only whole.
mmap-backend :
    (minor : ℕ) (op : Ret → Registry → PrivateData → Vma → Call)
    → (fops_of minor).mmap ≡ some op
    → (minor ≢ 0) × (op ≡ host_ivshmem_mmap)
unfolding fops_of host_ivshmem_fops host_registry_fops
mmap-backend minor op e = elim (Bool-cases (minor == 0)) [
  | inl zero ↦ absurd (ground arith)
  | inr other ↦ (ground arith, ground arith)
]

mmap-size :
    (remap : Ret) (r : Registry) (minor : ℕ) (b : Backend) (vma : Vma)
    → r.devices minor ≡ some b
    → host_ivshmem_mmap remap r (backend minor) vma ≡ returned ok
    → b.size ≡ vma.len
unfolding host_ivshmem_mmap
mmap-size remap r minor b vma here e = ground arith

mapped-Safe :
    (s : Devices) (id fd : ℕ) (file : OpenFile) (op : Ret → Registry → PrivateData → Vma → Call)
    (remap : Ret) (vma : Vma)
    → s.files fd ≡ some file
    → (fops_of file.minor).mmap ≡ some op
    → op remap s.registry file.private_data vma ≡ returned ok
    → Safe s
    → Safe (record s { mappings = put id (some (record { fd = fd; len = vma.len })) s.mappings })
mapped-Safe s id fd file op remap vma is_open has_op granted v = record {
  registry = v.registry;
  pointers = v.pointers;
  regions = λ j m h. elim (ℕ_discrete j id) [
    | yes p ↦
        (let (ne, same) = mmap-backend file.minor op has_op in
          let (points, b, here) = v.pointers fd file is_open ne in
          let size = mmap-size remap s.registry file.minor b vma here (
            subst (λ o. o remap s.registry (backend file.minor) vma ≡ returned ok) same
              (subst (λ d. op remap s.registry d vma ≡ returned ok) points granted)) in
          (file, ground (arith, is_open), ne, (b, here, ground arith)))
    | no q ↦ v.regions j m (ground arith)
  ];
}

unmapped-Safe :
    (s : Devices) (id : ℕ) → Safe s → Safe (record s { mappings = put id none s.mappings })
unmapped-Safe s id v = record {
  registry = v.registry;
  pointers = v.pointers;
  regions = λ j m h. v.regions j m (ground arith);
}

closed-Safe :
    (s : Devices) (fd : ℕ)
    → ((id : ℕ) (m : Mapped) → s.mappings id ≡ some m → m.fd ≢ fd)
    → Safe s
    → Safe (record s { files = put fd none s.files })
closed-Safe s fd unused v = record {
  registry = v.registry;
  pointers = λ j file h ne. v.pointers j file (ground arith) ne;
  regions = λ id m h.
      let (file, is_open, ne, sized) = v.regions id m h in
      (file, ground (arith, unused id m h, is_open), ne, sized);
}

destroyed-Safe :
    (s : Devices)
    → ((fd : ℕ) → s.files fd ≡ none)
    → Safe s
    → Safe (record s { registry = (host_destroy_registry_backend s.registry).1 })
destroyed-Safe s none_open v = record {
  registry = (destroy_registry-Inv s.registry v.registry).0;
  pointers = λ fd file h ne. absurd (ground (arith, none_open fd));
  regions = λ id m h.
      let (file, is_open, ne, sized) = v.regions id m h in
      absurd (ground (arith, none_open m.fd, is_open));
}

-- A freshly loaded module, on whose devices no file is open.
abbrev pub fresh : Devices
fresh = record { registry = empty_registry; files = λ fd. none; mappings = λ id. none }

pub data FileReach (f : ℕ → ℕ) : Devices → Type 0 where
  loaded : FileReach f fresh
  later : {s t : Devices} → FileReach f s → FileStep f s t → FileReach f t

module _ (f : ℕ → ℕ) (rounds : RoundsUp f) where
  fresh-Safe : Safe fresh
  fresh-Safe = record {
    registry = empty-Inv f rounds;
    pointers = λ fd file e ne. absurd (ground arith);
    regions = λ id m e. absurd (ground arith);
  }

  FileStep-Safe : {s t : Devices} → FileStep f s t → Safe s → Safe t
  FileStep-Safe {s} (served r step) v = served-Safe f rounds s r step v
  FileStep-Safe {s} (opened fd minor d free e) v = opened-Safe s fd minor d free e v
  FileStep-Safe {s} (mapped id fd file op remap vma is_open has_op granted) v =
      mapped-Safe s id fd file op remap vma is_open has_op granted v
  FileStep-Safe {s} (unmapped id) v = unmapped-Safe s id v
  FileStep-Safe {s} (closed fd unused) v = closed-Safe s fd unused v
  FileStep-Safe {s} (destroyed none_open) v = destroyed-Safe s none_open v

  -- Whatever happens to the registry and to the files, as long as a mapping keeps its file open and
  -- an open file keeps the module loaded: every file of a backend's device points to the backend
  -- that is there, so no mmap follows a dangling pointer, and every mapping is of such a file and
  -- exactly as long as the region that the backend still has.
  pub FileReach-Safe : {s : Devices} → FileReach f s → Safe s
  FileReach-Safe loaded = fresh-Safe
  FileReach-Safe (later h step) = FileStep-Safe step (FileReach-Safe h)
