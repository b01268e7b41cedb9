-- ===== src/Loaders/CreateMaps.antt =====
-- pvsched-ebpf/host/ebpf/create_maps/create_maps.loader.c: the loader of the handler of context
-- switches. It keeps maps that are already pinned.
pub mod Outcome
pub mod Kept
use phantom_tracker.Common.{
  ℕ, ◌+◌, ◌-◌, Bool, true, false, not, ◌&&◌, Option, none, some, List, [], if◌then◌else◌, bit,
}
use phantom_tracker.Tracker.State.{Name, Vm, Vcpu, Buffer}
use phantom_tracker.Loaders.{Bpffs, Loader, bpf_obj_get, is_some, reuse_fd, pin_new}

-- What the calls answer, true where they succeed.
pub record CreateAnswers : Type 0 where
  pub open_skel : Bool
  pub map_create : Bool
  pub set_inner_map_fd : Bool
  pub get_vms : Bool
  pub reuse_vms : Bool
  pub get_vcpus : Bool
  pub reuse_vcpus : Bool
  pub get_registry : Bool
  pub reuse_registry : Bool
  pub load : Bool
  pub attach : Bool
  pub pin_link : Bool
  pub pin_vms : Bool
  pub pin_vcpus : Bool
  pub pin_registry : Bool

unfoldable pub cleanup_skel : ℕ → Loader → ℕ × Loader
cleanup_skel ret l = (ret, record l { skels = l.skels - 1 })

unfoldable pub cleanup_inner : ℕ → Loader → ℕ × Loader
unfolding cleanup_skel
cleanup_inner ret l = cleanup_skel ret (record l { fds = l.fds - 1 })

unfoldable pub cleanup_link : ℕ → Loader → ℕ × Loader
unfolding cleanup_inner
cleanup_link ret l = cleanup_inner ret (record l { links = l.links - 1 })

-- A descriptor that is never closed.
abbrev pub opened : {A : Type 0} → Option A → Loader → Loader
opened fd l = record l { fds = l.fds + bit (is_some fd) }

module _ (a : CreateAnswers) where
  -- The three maps are pinned only when they were not already.
  unfoldable pub pin_maps :
      Option (List (Name × Vm))
      → Option (List (ℕ × Vcpu))
      → Option (List (Name × Buffer))
      → Loader
      → ℕ × Loader
  unfolding cleanup_link
  pin_maps vms_fd vcpus_fd registry_fd l =
      let (ok_1, vms) = pin_new vms_fd a.pin_vms l.files.vms [] in
      let l1 = record l { files = record l.files { vms = vms } } in
      let (ok_2, vcpus) = pin_new vcpus_fd a.pin_vcpus l1.files.vcpus [] in
      let l2 = record l1 { files = record l1.files { vcpus = vcpus } } in
      let (ok_3, registry) = pin_new registry_fd a.pin_registry l2.files.map_registry [] in
      let l3 = record l2 { files = record l2.files { map_registry = registry } } in
      if not ok_1
      then cleanup_link 1 l1
      else if not ok_2
      then cleanup_link 1 l2
      else cleanup_link (if ok_3 then 0 else 1) l3

  unfoldable pub pin_link :
      Option (List (Name × Vm))
      → Option (List (ℕ × Vcpu))
      → Option (List (Name × Buffer))
      → Loader
      → ℕ × Loader
  unfolding pin_maps cleanup_link
  pin_link vms_fd vcpus_fd registry_fd l =
      if not (a.pin_link && not l.files.sched_switch_link)
      then cleanup_link 1 l
      else pin_maps vms_fd vcpus_fd registry_fd
          (record l { files = record l.files { sched_switch_link = true } })

  -- From the pinned maps on; the maps are loaded, and the program is attached.
  unfoldable pub reuse_maps : Loader → ℕ × Loader
  unfolding pin_link cleanup_inner
  reuse_maps l =
      let vms_fd = bpf_obj_get a.get_vms l.files.vms in
      let l1 = opened vms_fd l in
      let vcpus_fd = bpf_obj_get a.get_vcpus l.files.vcpus in
      let l2 = opened vcpus_fd l1 in
      let registry_fd = bpf_obj_get a.get_registry l.files.map_registry in
      let l3 = opened registry_fd l2 in
      if not (reuse_fd vms_fd a.reuse_vms)
      then cleanup_inner 1 l1
      else if not (reuse_fd vcpus_fd a.reuse_vcpus)
      then cleanup_inner 1 l2
      else if not (reuse_fd registry_fd a.reuse_registry && a.load && a.attach)
      then cleanup_inner 1 l3
      else pin_link vms_fd vcpus_fd registry_fd (record l3 { links = l3.links + 1 })

  unfoldable pub main : Loader → ℕ × Loader
  unfolding reuse_maps cleanup_inner cleanup_skel
  main l =
      let l1 = record l { skels = l.skels + 1 } in
      let l2 = record l1 { fds = l1.fds + 1 } in
      if not a.open_skel
      then (1, l)
      else if not a.map_create
      then cleanup_skel 1 l1
      else if not a.set_inner_map_fd
      then cleanup_inner 1 l2
      else reuse_maps l2
