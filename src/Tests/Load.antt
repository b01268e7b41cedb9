-- ===== src/Tests/Load.antt =====
-- Loading and unloading the driver of the host at concrete inputs.
use phantom_tracker.Common.{◌≡◌, refl, arith, true, false, none}
use phantom_tracker.Abi.{ok, err, enomem}
use phantom_tracker.Shmem.Host.{empty_registry}
use phantom_tracker.Shmem.Host.Register.Load.{
  HostModule, InitAnswers, host_ivshmem_init, host_ivshmem_exit, Unloaded, host_init-err,
  exit-host_init,
}
use phantom_tracker.Tests.Shmem.{first_vm}

abbrev unloaded : HostModule
unloaded = record {
  registry = record empty_registry { cdev = false; dev = false };
  held = record { regions = 0; classes = 0; debugfs_root = false; stray_releases = 0 };
}

unloaded-Unloaded : Unloaded unloaded
unloaded-Unloaded = record {
  no_region = refl;
  no_class = refl;
  no_debugfs = refl;
  no_cdev = refl;
  no_dev = refl;
  no_backend = λ i. refl;
}

abbrev answers : InitAnswers
answers = record {
  alloc_chrdev_region = ok;
  class_create = ok;
  debugfs_create_dir = true;
  cdev_add = ok;
  device_create = ok;
  register_kfuncs = ok;
}

-- The class cannot be created.
abbrev no_class : InitAnswers
no_class = record answers { class_create = err enomem }

host_init-err_example :
    let m = (host_ivshmem_init no_class unloaded).1 in
    (m.held ≡ record unloaded.held { debugfs_root = true; stray_releases = 1 })
    × (m.registry.cdev ≡ false)
    × (m.registry.dev ≡ false)
    × (m.registry.devices 1 ≡ none)
unfolding host_ivshmem_init
host_init-err_example =
    host_init-err no_class unloaded (host_ivshmem_init no_class unloaded).1 enomem 1
      unloaded-Unloaded refl

-- One VM registered in between.
exit-host_init_example :
    let gone =
      host_ivshmem_exit (record (host_ivshmem_init answers unloaded).1 { registry = first_vm.2 }) in
    (gone.held ≡ unloaded.held)
    × (gone.registry.cdev ≡ false)
    × (gone.registry.dev ≡ false)
    × (gone.registry.devices 1 ≡ none)
unfolding host_ivshmem_init
exit-host_init_example =
    exit-host_init answers unloaded (host_ivshmem_init answers unloaded).1 first_vm.2 1
      unloaded-Unloaded refl (omega arith)
