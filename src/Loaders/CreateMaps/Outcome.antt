-- ===== src/Loaders/CreateMaps/Outcome.antt =====
-- pvsched-ebpf/host/ebpf/create_maps/create_maps.loader.c: how a run of the loader ends, step by step.
use phantom_tracker.Common.{
  ℕ, ◌+◌, ◌-◌, ◌≡◌, refl, ap, arith, Bool, true, false, not, ◌&&◌, Option, none, some, List, [],
  ◌⊎◌, inl, inr, Bool-cases,
}
use phantom_tracker.Tracker.State.{Name, Vm, Vcpu, Buffer}
use phantom_tracker.Loaders.{
  Bpffs, Loader, bpf_obj_get, reuse_fd, pin_new, map_or_new, Names, get-Names,
}
use phantom_tracker.Loaders.CreateMaps.{
  CreateAnswers, opened, main, reuse_maps, pin_link, pin_maps, cleanup_link, cleanup_inner,
  cleanup_skel,
}

-- The end of a run over the files `f`, where the process held `skels` skeletons and `links` links.
pub record Outcome (f : Bpffs) (skels links : ℕ) (out : ℕ × Loader) : Type 0 where
  pub code : (out.0 ≡ 0) ⊎ (out.0 ≡ 1)
  pub skels_back : out.1.skels ≡ skels
  pub links_back : out.1.links ≡ links
  pub vms_kept : (m : List (Name × Vm)) → f.vms ≡ some m → out.1.files.vms ≡ some m
  pub vcpus_kept : (m : List (ℕ × Vcpu)) → f.vcpus ≡ some m → out.1.files.vcpus ≡ some m
  pub registry_kept :
      (m : List (Name × Buffer)) → f.map_registry ≡ some m → out.1.files.map_registry ≡ some m
  pub state_kept : out.1.files.global_tracker_state ≡ f.global_tracker_state
  pub attached : out.0 ≡ 0 → out.1.files.sched_switch_link ≡ true
  pub vms_pinned : out.0 ≡ 0 → out.1.files.vms ≡ some (map_or_new f.vms [])
  pub vcpus_pinned : out.0 ≡ 0 → out.1.files.vcpus ≡ some (map_or_new f.vcpus [])
  pub registry_pinned : out.0 ≡ 0 → out.1.files.map_registry ≡ some (map_or_new f.map_registry [])

pin_new-keeps :
    {A : Type 0} (fd : Option A) (answer : Bool) (file : Option A) (new m : A)
    → file ≡ some m
    → (pin_new fd answer file new).1 ≡ some m
pin_new-keeps none answer none new m h = absurd (cc)
pin_new-keeps none answer (some old) new m h = h
pin_new-keeps (some fd) answer file new m h = h

pin_new-pinned :
    {A : Type 0} (fd : Option A) (answer : Bool) (file : Option A) (new : A)
    → Names fd file
    → (pin_new fd answer file new).0 ≡ true
    → (pin_new fd answer file new).1 ≡ some (map_or_new file new)
pin_new-pinned none true none new names h = refl
pin_new-pinned none false none new names h = absurd (cc)
pin_new-pinned none answer (some old) new names h = absurd (cc)
pin_new-pinned (some fd) answer none new (inl e) h = absurd (cc)
pin_new-pinned (some fd) answer none new (inr e) h = absurd (cc)
pin_new-pinned (some fd) answer (some old) new names h = refl

module _ (a : CreateAnswers) (f : Bpffs) (skels links : ℕ) where
  failed-Outcome :
      (l : Loader) → l.files ≡ f → l.skels ≡ skels → l.links ≡ links → Outcome f skels links (1, l)
  failed-Outcome l same s k = record {
    code = inr refl;
    skels_back = s;
    links_back = k;
    vms_kept = λ m h. ground (arith, same);
    vcpus_kept = λ m h. ground (arith, same);
    registry_kept = λ m h. ground (arith, same);
    state_kept = ground (arith, same);
    attached = λ e. absurd (omega arith);
    vms_pinned = λ e. absurd (omega arith);
    vcpus_pinned = λ e. absurd (omega arith);
    registry_pinned = λ e. absurd (omega arith);
  }

  module _ (vms_fd : Option (List (Name × Vm))) (vcpus_fd : Option (List (ℕ × Vcpu)))
      (registry_fd : Option (List (Name × Buffer))) (n1 : Names vms_fd f.vms)
      (n2 : Names vcpus_fd f.vcpus) (n3 : Names registry_fd f.map_registry) where
    pin_maps-Outcome :
        (l : Loader)
        → l.files ≡ record f { sched_switch_link = true }
        → l.skels ≡ skels + 1
        → l.links ≡ links + 1
        → Outcome f skels links (pin_maps a vms_fd vcpus_fd registry_fd l)
    unfolding pin_maps cleanup_link cleanup_inner cleanup_skel
    pin_maps-Outcome l same s k = record {
      code = ground arith;
      skels_back = ground arith;
      links_back = ground arith;
      vms_kept = λ m h. ground (arith, same, pin_new-keeps vms_fd a.pin_vms l.files.vms [] m);
      vcpus_kept =
          λ m h. ground (arith, same, pin_new-keeps vcpus_fd a.pin_vcpus l.files.vcpus [] m);
      registry_kept = λ m h.
          ground (arith, same, pin_new-keeps registry_fd a.pin_registry l.files.map_registry [] m);
      state_kept = ground (arith, same);
      attached = λ e. ground (arith, same);
      vms_pinned = λ e. ground (arith, same, pin_new-pinned vms_fd a.pin_vms l.files.vms []);
      vcpus_pinned =
          λ e. ground (arith, same, pin_new-pinned vcpus_fd a.pin_vcpus l.files.vcpus []);
      registry_pinned = λ e.
          ground (arith, same, pin_new-pinned registry_fd a.pin_registry l.files.map_registry []);
    }

    pin_link-Outcome :
        (l : Loader)
        → l.files ≡ f
        → l.skels ≡ skels + 1
        → l.links ≡ links + 1
        → Outcome f skels links (pin_link a vms_fd vcpus_fd registry_fd l)
    unfolding pin_link cleanup_link cleanup_inner cleanup_skel
    pin_link-Outcome l same s k = elim (Bool-cases (a.pin_link && not l.files.sched_switch_link)) [
      | inr e ↦ rw e (
          failed-Outcome (record l { fds = l.fds - 1; links = l.links - 1; skels = l.skels - 1 })
            same (omega arith) (omega arith))
      | inl e ↦ rw e (
          pin_maps-Outcome (record l { files = record l.files { sched_switch_link = true } })
            (ap (λ (g : Bpffs). record g { sched_switch_link = true }) same) s k)
    ]

module _ (a : CreateAnswers) (f : Bpffs) (skels links : ℕ) where
  cleanup_inner-Outcome :
      (l : Loader)
      → l.files ≡ f
      → l.skels ≡ skels + 1
      → l.links ≡ links
      → Outcome f skels links (cleanup_inner 1 l)
  unfolding cleanup_inner cleanup_skel
  cleanup_inner-Outcome l same s k =
      failed-Outcome a f skels links (record l { fds = l.fds - 1; skels = l.skels - 1 }) same
        (omega arith) k

  reuse_maps-Outcome :
      (l : Loader)
      → l.files ≡ f
      → l.skels ≡ skels + 1
      → l.links ≡ links
      → Outcome f skels links (reuse_maps a l)
  unfolding reuse_maps
  reuse_maps-Outcome l same s k =
      let vms_fd = bpf_obj_get a.get_vms l.files.vms in
      let l1 = opened vms_fd l in
      let vcpus_fd = bpf_obj_get a.get_vcpus l.files.vcpus in
      let l2 = opened vcpus_fd l1 in
      let registry_fd = bpf_obj_get a.get_registry l.files.map_registry in
      let l3 = opened registry_fd l2 in
      elim (Bool-cases (reuse_fd vms_fd a.reuse_vms)) [
        | inr e1 ↦ rw e1 (cleanup_inner-Outcome l1 same s k)
        | inl e1 ↦ elim (Bool-cases (reuse_fd vcpus_fd a.reuse_vcpus)) [
          | inr e2 ↦ rw (e1, e2) (cleanup_inner-Outcome l2 same s k)
          | inl e2 ↦
              elim (Bool-cases (reuse_fd registry_fd a.reuse_registry && a.load && a.attach)) [
                | inr e3 ↦ rw (e1, e2, e3) (cleanup_inner-Outcome l3 same s k)
                | inl e3 ↦
                    rw (e1, e2, e3)
                      (pin_link-Outcome a f skels links vms_fd vcpus_fd registry_fd
                        (coe 0 1 (i. Names vms_fd (same i).vms) (get-Names a.get_vms l.files.vms))
                        (coe 0 1 (i. Names vcpus_fd (same i).vcpus)
                          (get-Names a.get_vcpus l.files.vcpus))
                        (coe 0 1 (i. Names registry_fd (same i).map_registry)
                          (get-Names a.get_registry l.files.map_registry))
                        (record l3 { links = l3.links + 1 }) same s (omega arith))
              ]
        ]
      ]

pub load-Outcome : (a : CreateAnswers) (l : Loader) → Outcome l.files l.skels l.links (main a l)
unfolding main cleanup_skel
load-Outcome a l =
    let l1 = record l { skels = l.skels + 1 } in
    let l2 = record l1 { fds = l1.fds + 1 } in
    let same : l1.skels - 1 ≡ l.skels = omega arith in
    elim (Bool-cases a.open_skel) [
      | inr e1 ↦ rw e1 (failed-Outcome a l.files l.skels l.links l refl refl refl)
      | inl e1 ↦ elim (Bool-cases a.map_create) [
        | inr e2 ↦
            rw (e1, e2)
              (failed-Outcome a l.files l.skels l.links (record l1 { skels = l1.skels - 1 }) refl
                same refl)
        | inl e2 ↦ elim (Bool-cases a.set_inner_map_fd) [
          | inr e3 ↦
              rw (e1, e2, e3) (cleanup_inner-Outcome a l.files l.skels l.links l2 refl refl refl)
          | inl e3 ↦
              rw (e1, e2, e3) (reuse_maps-Outcome a l.files l.skels l.links l2 refl refl refl)
        ]
      ]
    ]
