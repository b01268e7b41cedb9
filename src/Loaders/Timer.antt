-- ===== src/Loaders/Timer.antt =====
-- pvsched-ebpf/host/ebpf/timer/timer.loader.c: the loader of the timer, which works on the maps that
-- the other two loaders pin.
use phantom_tracker.Common.{
  ℕ, ◌+◌, ◌-◌, ◌≡◌, ap, ◌∙◌, arith, Bool, true, not, ◌&&◌, Option, some, List, [], if◌then◌else◌,
  bit,
}
use phantom_tracker.Tracker.State.{Name, Vm, Vcpu, Buffer, GlobalState}
use phantom_tracker.Loaders.{Bpffs, Loader, bpf_obj_get, is_some, reuse_fd, map_or_new, start}
use phantom_tracker.Loaders.CreateMaps
use phantom_tracker.Loaders.CreateMaps.{CreateAnswers}
use phantom_tracker.Loaders.CreateMaps.Kept.{main-all_pinned}
use phantom_tracker.Loaders.IdleAvg
use phantom_tracker.Loaders.IdleAvg.{IdleAnswers, zero_state, init_state, polling}

pub record TimerAnswers : Type 0 where
  pub open_skel : Bool
  pub get_vms : Bool
  pub reuse_vms : Bool
  pub get_vcpus : Bool
  pub reuse_vcpus : Bool
  pub get_registry : Bool
  pub reuse_registry : Bool
  pub get_state : Bool
  pub reuse_state : Bool
  pub load : Bool
  pub attach : Bool

-- The maps that the attached program works on.
pub record TimerMaps : Type 0 where
  pub vms : List (Name × Vm)
  pub vcpus : List (ℕ × Vcpu)
  pub map_registry : List (Name × Buffer)
  pub global_tracker_state : GlobalState

-- The loader exits, or it waits for a signal while the program works on its maps.
pub data Attached : Type 0 where
  exited : ℕ → Loader → Attached
  waiting : TimerMaps → Loader → Attached

unfoldable pub cleanup_inner : Loader → Attached
cleanup_inner l = exited 1 (record l { skels = l.skels - 1 })

abbrev opened : {A : Type 0} → Option A → Loader → Loader
opened fd l = record l { fds = l.fds + bit (is_some fd) }

unfoldable pub main : TimerAnswers → Loader → Attached
unfolding cleanup_inner
main a l =
    let vms_fd = bpf_obj_get a.get_vms l.files.vms in
    let vcpus_fd = bpf_obj_get a.get_vcpus l.files.vcpus in
    let map_registry_fd = bpf_obj_get a.get_registry l.files.map_registry in
    let state_fd = bpf_obj_get a.get_state l.files.global_tracker_state in
    let l1 = opened vms_fd (record l { skels = l.skels + 1 }) in
    let l2 = opened vcpus_fd l1 in
    let l3 = opened map_registry_fd l2 in
    let l4 = opened state_fd l3 in
    if not a.open_skel
    then exited 1 l
    else if not (reuse_fd vms_fd a.reuse_vms)
    then cleanup_inner l1
    else if not (reuse_fd vcpus_fd a.reuse_vcpus)
    then cleanup_inner l2
    else if not (reuse_fd map_registry_fd a.reuse_registry)
    then cleanup_inner l3
    else if not (reuse_fd state_fd a.reuse_state && a.load && a.attach)
    then cleanup_inner l4
    else waiting
        (record {
          vms = map_or_new vms_fd [];
          vcpus = map_or_new vcpus_fd [];
          map_registry = map_or_new map_registry_fd [];
          global_tracker_state = map_or_new state_fd zero_state;
        })
        l4

abbrev polled : Bpffs → ℕ → Bpffs
polled g n = record g {
  global_tracker_state = some (map_or_new g.global_tracker_state (init_state n));
}

waiting-maps :
    (c : TimerAnswers) (l l' : Loader) (maps : TimerMaps)
    → c.get_vms ≡ true
    → c.get_vcpus ≡ true
    → c.get_registry ≡ true
    → c.get_state ≡ true
    → main c l ≡ waiting maps l'
    → maps ≡ record {
      vms = map_or_new l.files.vms [];
      vcpus = map_or_new l.files.vcpus [];
      map_registry = map_or_new l.files.map_registry [];
      global_tracker_state = map_or_new l.files.global_tracker_state zero_state;
    }
unfolding main cleanup_inner
waiting-maps c l l' maps g1 g2 g3 g4 h = ground arith

-- After the two other loaders have succeeded, in their order, the timer works on the maps that they
-- pinned: those that were there before either ran, or else new ones. It needs that the timer's
-- loader can open the pinned maps, and gets as far as waiting for a signal.
pub main-waiting :
    (a : CreateAnswers) (b : IdleAnswers) (c : TimerAnswers) (f : Bpffs) (l1 l2 l3 : Loader)
    (maps : TimerMaps)
    → CreateMaps.main a (start f) ≡ (0, l1)
    → IdleAvg.main b (start l1.files) ≡ polling l2
    → c.get_vms ≡ true
    → c.get_vcpus ≡ true
    → c.get_registry ≡ true
    → c.get_state ≡ true
    → main c (start l2.files) ≡ waiting maps l3
    → (n : ℕ) × (maps ≡ record {
      vms = map_or_new f.vms [];
      vcpus = map_or_new f.vcpus [];
      map_registry = map_or_new f.map_registry [];
      global_tracker_state = map_or_new f.global_tracker_state (init_state n);
    })
main-waiting a b c f l1 l2 l3 maps created idle g1 g2 g3 g4 timed =
    let (n, files) = IdleAvg.main-polling b (start l1.files) l2 idle in
    let all = files ∙ ap (λ (g : Bpffs). polled g n) (main-all_pinned a (start f) l1 created) in
    (
      n,
      waiting-maps c (start l2.files) l3 maps g1 g2 g3 g4 timed ∙ λ i. record {
        vms = map_or_new (all i).vms [];
        vcpus = map_or_new (all i).vcpus [];
        map_registry = map_or_new (all i).map_registry [];
        global_tracker_state = map_or_new (all i).global_tracker_state zero_state;
      },
    )
