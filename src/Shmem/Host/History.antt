-- ===== src/Shmem/Host/History.antt =====
-- pvsched-shmem/host/host_ivshmem.c: the registry over any history of registrations, of messages
-- that the host publishes, and of stores that guests make in their part of a region.
use mathlib.Core.Option.{some-injective}
use mathlib.Core.Path.{subst}
use phantom_tracker.Common.{
  ℕ, ◌+◌, ◌≤◌, ◌≡◌, refl, sym, ap, ◌∙◌, Option, none, some, arith, ◌==◌, if◌then◌else◌,
  Option-cases, Bool-cases, ◌||◌, leb, inl, inr, ℕ_discrete,
}
use phantom_tracker.Abi.{
  max_nb_devices, Memory, store, load_header, h2g_latest_slot, Ret, ok, err, nr_host_ivshmem_msgs,
}
use phantom_tracker.Abi
use phantom_tracker.Shmem.Host.{
  Backend, Registry, empty_registry, g2h_offset, h2g_slot, set_device, bpf_host_ivshmem_h2g_write,
  host_ivshmem_h2g_write_msg,
}
use phantom_tracker.Shmem.Host.Slots.{h2g_write-eq}
use phantom_tracker.Shmem.Host.Register.{VmRegReq, Answers, host_register_vm}
use phantom_tracker.Shmem.Host.Register.Valid.{RoundsUp, Live, Inv, register-ok, register-err}

-- A store at or past the guest's part leaves the header alone, and so does publishing.
load_header-store :
    (mem : Memory) (a v : ℕ) → Abi.page_size ≤ a → load_header (store mem a v) ≡ load_header mem
unfolding load_header
load_header-store mem a v h = ground arith

store-Live :
    (i : ℕ) (b : Backend) (mem : Memory) (a v : ℕ)
    → b.mem ≡ some mem
    → Abi.page_size ≤ a
    → Live i b
    → Live i (record b { mem = some (store mem a v) })
store-Live i b mem a v e h l = record {
  memory = store mem a v;
  mapped = refl;
  described = ground (arith, load_header-store mem a v, l.mapped, l.described);
  two_pages = l.two_pages;
  power = l.power;
  numbered = l.numbered;
  added = l.added;
}

at_same_index : {i j : ℕ} {b c : Backend} → j ≡ i → Live i b → some b ≡ some c → Live j c
at_same_index {i} {j} {b} {c} p l e =
    subst (λ k. Live k c) (sym p) (subst (Live i) (some-injective b c e) l)

set_device-Inv :
    (r : Registry) (i : ℕ) (b b' : Backend)
    → r.devices i ≡ some b
    → Live i b'
    → Inv r
    → Inv (set_device r i (some b'))
set_device-Inv r i b b' e l v = record {
  reserved = ground (arith, v.reserved);
  few = v.few;
  unused = λ j h. ground (arith, v.unused j h);
  live = λ j c h. elim (ℕ_discrete j i) [
    | yes p ↦ at_same_index p l (ground arith)
    | no p ↦ v.live j c (ground arith)
  ];
}

pub data Step (f : ℕ → ℕ) (r : Registry) : Registry → Type 0 where
  register : (a : Answers) (req : VmRegReq) → Step f r (host_register_vm f a r req).2
  publish : (index : ℕ) (msg : Option ℕ) → Step f r (bpf_host_ivshmem_h2g_write r index msg).1
  guest_store :
      (i a v : ℕ) (b : Backend) (mem : Memory)
      → r.devices i ≡ some b
      → b.mem ≡ some mem
      → g2h_offset ≤ a
      → Step f r (set_device r i (some (record b { mem = some (store mem a v) })))

-- Writing back the device that is there is no change.
unchanged-Inv :
    (r : Registry) (o : Option Backend) → r.devices 1 ≡ o → Inv r → Inv (set_device r 1 o)
unchanged-Inv r o e v = subst Inv (λ k. record r { devices = λ j. same j k }) v
  where
    same : (j : ℕ) → r.devices j ≡ (if j == 1 then o else r.devices j)
    same j = ground arith

publish_memory-Inv :
    (r : Registry) (b : Backend) (mem : Memory) (index msg : ℕ)
    → r.devices 1 ≡ some b
    → b.mem ≡ some mem
    → Inv r
    → Inv (set_device r 1 (host_ivshmem_h2g_write_msg (some b) index (some msg)).1)
publish_memory-Inv r b mem index msg e m v =
    rw (h2g_write-eq b mem m index msg)
      (elim (Bool-cases (index == 0 || leb nr_host_ivshmem_msgs index)) [
        | inl bad ↦ rw bad (unchanged-Inv r (some b) e v)
        | inr good ↦ rw good (
            set_device-Inv r 1 b _ e
              (store-Live 1 (record b { mem = some _ }) _ (h2g_slot h2g_latest_slot) msg refl
                (omega arith)
                (store-Live 1 b mem (h2g_slot index) msg m (omega arith) (v.live 1 b e)))
              v)
      ])

publish_device-Inv :
    (r : Registry) (o : Option Backend) (index : ℕ) (msg : Option ℕ)
    → r.devices 1 ≡ o
    → Inv r
    → Inv (set_device r 1 (host_ivshmem_h2g_write_msg o index msg).1)
unfolding host_ivshmem_h2g_write_msg
publish_device-Inv r none index msg e v = unchanged-Inv r none e v
publish_device-Inv r (some b) index none e v =
    subst (λ o. Inv (set_device r 1 o)) (ground arith) (unchanged-Inv r (some b) e v)
publish_device-Inv r (some b) index (some msg) e v = elim (Option-cases b.mem) [
  | inl unmapped ↦ subst (λ o. Inv (set_device r 1 o)) (ground arith) (unchanged-Inv r (some b) e v)
  | inr (mem, mapped) ↦ publish_memory-Inv r b mem index msg e mapped v
]

publish-Inv :
    (r : Registry) (index : ℕ) (msg : Option ℕ)
    → Inv r
    → Inv (bpf_host_ivshmem_h2g_write r index msg).1
unfolding bpf_host_ivshmem_h2g_write
publish-Inv r index msg v = publish_device-Inv r (r.devices 1) index msg refl v

pub data Reach (f : ℕ → ℕ) : Registry → Type 0 where
  loaded : Reach f empty_registry
  later : {r s : Registry} → Reach f r → Step f r s → Reach f s

module _ (f : ℕ → ℕ) (rounds : RoundsUp f) where
  register-Inv :
      (a : Answers) (r : Registry) (req : VmRegReq) (result : Ret × VmRegReq × Registry)
      → host_register_vm f a r req ≡ result
      → Inv r
      → Inv result.2
  register-Inv a r req (ok, req', r') e v =
      let (b, id, same, few, live, _) = register-ok f rounds a r r' req req' e in
      rw same (record {
        reserved = ground (arith, v.reserved);
        few = few;
        unused = λ j h. ground (arith, v.unused j (omega arith));
        live = λ j c h. elim (ℕ_discrete j (r.next_vm_id + 1)) [
          | yes p ↦ at_same_index p live (ground arith)
          | no p ↦ v.live j c (ground arith)
        ];
      })
  register-Inv a r req (err e, req', r') h v =
      let (_, same, next) = register-err f rounds a r r' req req' e h in
      record {
        reserved = ap (λ (d : ℕ → Option Backend). d 0) same ∙ v.reserved;
        few = ground arith;
        unused = λ j g. ap (λ (d : ℕ → Option Backend). d j) same ∙ v.unused j (ground arith);
        live = λ j b g. v.live j b (sym (ap (λ (d : ℕ → Option Backend). d j) same) ∙ g);
      }

  -- The invariant is kept by every registration, published message and store of a guest.
  pub Step-Inv : {r s : Registry} → Step f r s → Inv r → Inv s
  Step-Inv {r} (register a req) v = register-Inv a r req _ refl v
  Step-Inv {r} (publish index msg) v = publish-Inv r index msg v
  Step-Inv {r} (guest_store i a x b mem e m h) v =
      set_device-Inv r i b _ e (store-Live i b mem a x m (omega arith) (v.live i b e)) v

  -- So does the registry of a freshly loaded module.
  pub empty-Inv : Inv empty_registry
  empty-Inv = record {
    reserved = refl;
    few = omega arith;
    unused = λ i h. refl;
    live = λ i b e. cc;
  }

  -- In every registry that the module can reach by registrations that come one after the other,
  -- with messages of the host and stores of guests in their own parts in any order between them:
  -- minor 0 is reserved, fewer than 256 ids are taken, no device lies beyond the ids, and every
  -- device is live: its region is mapped and begins with the header that describes it, it holds at
  -- least two pages, and its size is a power of two. Two registrations at once, and a process or a
  -- guest that stores to the first two pages of its mapping, are excluded.
  pub Reach-Inv : {r : Registry} → Reach f r → Inv r
  Reach-Inv loaded = empty-Inv
  Reach-Inv (later h s) = Step-Inv s (Reach-Inv h)
