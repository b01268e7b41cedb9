-- ===== src/Tests/Loaders.antt =====
-- The loaders at concrete answers: nothing is pinned but a map of VMs.
use phantom_tracker.Common.{ℕ, ◌≡◌, refl, true, false, none, some, [], ◌∷◌}
use phantom_tracker.Loaders.{Bpffs, Loader, start}
use phantom_tracker.Loaders.CreateMaps
use phantom_tracker.Loaders.CreateMaps.{CreateAnswers}
use phantom_tracker.Loaders.CreateMaps.Kept.{Loaded, main-Loaded, all_pinned}
use phantom_tracker.Loaders.IdleAvg
use phantom_tracker.Loaders.IdleAvg.{IdleAnswers, init_state, polling}
use phantom_tracker.Loaders.Timer
use phantom_tracker.Loaders.Timer.{TimerAnswers, TimerMaps, waiting, main-waiting}
use phantom_tracker.Loaders.OmpThreadReg
use phantom_tracker.Loaders.OmpThreadReg.{OmpFiles, OmpLoader, OmpAnswers, all_files, main-main}
use phantom_tracker.Tests.Tracker.{name_a, vm_a}

abbrev files : Bpffs
files = record {
  vms = some ((name_a, vm_a) ∷ []);
  vcpus = none;
  map_registry = none;
  global_tracker_state = none;
  sched_switch_link = false;
}

abbrev create : CreateAnswers
create = record {
  open_skel = true;
  map_create = true;
  set_inner_map_fd = true;
  get_vms = true;
  reuse_vms = true;
  get_vcpus = true;
  reuse_vcpus = true;
  get_registry = true;
  reuse_registry = true;
  load = true;
  attach = true;
  pin_link = true;
  pin_vms = true;
  pin_vcpus = true;
  pin_registry = true;
}

main-Loaded_example : Loaded (start files) (CreateMaps.main create (start files))
main-Loaded_example = main-Loaded create (start files)

-- The map of VMs cannot be opened, so a new one is made, which cannot be pinned in place of the old:
-- the load fails, but the link stays pinned, and the program works on a map without a file.
link_stays :
    let (ret, l) = CreateMaps.main (record create { get_vms = false }) (start files) in
    (ret ≡ 1) × (l.files.sched_switch_link ≡ true) × (l.files.vms ≡ files.vms)
unfolding CreateMaps.main
link_stays = (refl, refl, refl)

abbrev idle : IdleAnswers
idle = record {
  open_skel = true;
  get_state = true;
  reuse_state = true;
  load = true;
  num_cpus = some 8;
  update_state = true;
  attach = true;
  pin_state = true;
}

abbrev timer : TimerAnswers
timer = record {
  open_skel = true;
  get_vms = true;
  reuse_vms = true;
  get_vcpus = true;
  reuse_vcpus = true;
  get_registry = true;
  reuse_registry = true;
  get_state = true;
  reuse_state = true;
  load = true;
  attach = true;
}

abbrev created : Loader
created = record (start (all_pinned files)) { fds = 1 }

abbrev polled : Loader
polled = record (start (record (all_pinned files) { global_tracker_state = some (init_state 8) })) {
  skels = 1;
}

abbrev waited : Loader
waited = record polled { fds = 4 }

abbrev timer_maps : TimerMaps
timer_maps = record {
  vms = (name_a, vm_a) ∷ [];
  vcpus = [];
  map_registry = [];
  global_tracker_state = init_state 8;
}

main-waiting_example :
    (n : ℕ) × (timer_maps ≡ record {
      vms = (name_a, vm_a) ∷ [];
      vcpus = [];
      map_registry = [];
      global_tracker_state = init_state n;
    })
unfolding CreateMaps.main IdleAvg.main Timer.main
main-waiting_example =
    main-waiting create idle timer files created polled waited timer_maps refl refl refl refl refl
      refl refl

abbrev omp : OmpAnswers
omp = record {
  open_and_load = true;
  attach_master = true;
  attach_workers = true;
  pin_master = true;
  pin_map = true;
  attach_switch = true;
  pin_switch = true;
  attach_exit = true;
  pin_exit = true;
  attach_exec = true;
  pin_exec = true;
}

abbrev omp_start : OmpLoader
omp_start = record {
  files = record {
    master = false;
    omp_threads_map = false;
    sched_switch = false;
    sched_process_exit = false;
    sched_process_exec = false;
  };
  skels = 0;
  links = 0;
}

main-main_example :
    ((OmpThreadReg.main omp omp_start).after.skels ≡ 0)
    × ((OmpThreadReg.main omp omp_start).after.links ≡ 0)
    × ((OmpThreadReg.main omp omp_start).after.files ≡ all_files)
    × ((OmpThreadReg.main omp (OmpThreadReg.main omp omp_start).after).after.skels ≡ 0)
    × ((OmpThreadReg.main omp (OmpThreadReg.main omp omp_start).after).after.links ≡ 0)
    × ((OmpThreadReg.main omp (OmpThreadReg.main omp omp_start).after).after.files ≡ all_files)
    × ((OmpThreadReg.main omp (OmpThreadReg.main omp omp_start).after).waited ≡ false)
    × ((OmpThreadReg.main omp (OmpThreadReg.main omp omp_start).after).ret ≡ 0)
unfolding OmpThreadReg.main
main-main_example = main-main omp omp omp_start refl
