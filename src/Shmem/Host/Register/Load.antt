-- ===== src/Shmem/Host/Register/Load.antt =====
-- pvsched-shmem/host/host_ivshmem.c: the control device, and loading and unloading of the module.
use phantom_tracker.Common.{
  ℕ, ◌+◌, ◌-◌, ◌%◌, ◌<◌, ◌≡◌, refl, sym, arith, Bool, true, false, not, none, if◌then◌else◌, ◌==◌,
  ap, ◌∙◌, ◌&&◌,
}
use phantom_tracker.Abi.{page_size, msg_size, max_nb_devices, Ret, ok, err, Errno, einval, is_ok}
use phantom_tracker.Shmem.Host.{Registry}
use phantom_tracker.Shmem.Host.Register.{host_destroy_registry_backend}
use phantom_tracker.Shmem.Host.Register.Destroyed.{destroy_devices-left, destroy_devices-none}

-- What the module holds of the kernel, whether its debugfs directory exists, and how often it released what it did not hold.
pub record HostHeld : Type 0 where
  pub regions : ℕ
  pub classes : ℕ
  pub debugfs_root : Bool
  pub stray_releases : ℕ

pub record HostModule : Type 0 where
  pub registry : Registry
  pub held : HostHeld

-- What the kernel answers while the module is loaded.
pub record InitAnswers : Type 0 where
  pub alloc_chrdev_region : Ret
  pub class_create : Ret
  pub debugfs_create_dir : Bool
  pub cdev_add : Ret
  pub device_create : Ret
  pub register_kfuncs : Ret

-- A device that cannot be created leaves the cdev added; the caller deletes it.
unfoldable pub host_create_registry_backend : Ret → Ret → Registry → Ret × Registry
host_create_registry_backend (err e) device r = (err e, r)
host_create_registry_backend ok (err e) r = (err e, record r { cdev = true; dev = false })
host_create_registry_backend ok ok r = (ok, record r { cdev = true; dev = true })

abbrev pub unregister_chrdev_region : HostHeld → HostHeld
unregister_chrdev_region h =
    if h.regions == 0
    then record h { stray_releases = h.stray_releases + 1 }
    else record h { regions = h.regions - 1 }

abbrev pub err_destroy_class : HostHeld → HostHeld
err_destroy_class h =
    unregister_chrdev_region (record h { debugfs_root = false; classes = h.classes - 1 })

abbrev pub err_destroy_backend : HostModule → HostModule
err_destroy_backend m = record {
  registry = (host_destroy_registry_backend m.registry).1;
  held = err_destroy_class m.held;
}

init_kfuncs : Ret → HostModule → Ret × HostModule
init_kfuncs (err e) m = (err e, err_destroy_backend m)
init_kfuncs ok m = (ok, m)

init_registry : InitAnswers → Ret × Registry → HostHeld → Ret × HostModule
unfolding init_kfuncs
init_registry a (err e, r) h = (err e, err_destroy_backend (record { registry = r; held = h }))
init_registry a (ok, r) h = init_kfuncs a.register_kfuncs (record { registry = r; held = h })

-- The debugfs directory is made before the class is looked at; removing NULL is no release.
init_class : InitAnswers → Ret → HostModule → Ret × HostModule
unfolding init_registry host_create_registry_backend
init_class a (err e) m =
    (err e, record m { held = unregister_chrdev_region (unregister_chrdev_region m.held) })
init_class a ok m =
    init_registry a (host_create_registry_backend a.cdev_add a.device_create m.registry)
      (record m.held { classes = m.held.classes + 1 })

init_region : InitAnswers → Ret → HostModule → Ret × HostModule
unfolding init_class
init_region a (err e) m = (err e, m)
init_region a ok m = init_class a a.class_create (record m {
  held = record m.held { regions = m.held.regions + 1; debugfs_root = a.debugfs_create_dir };
})

unfoldable pub host_ivshmem_init : InitAnswers → HostModule → Ret × HostModule
unfolding init_region
host_ivshmem_init a m =
    if not (page_size % msg_size == 0)
    then (err einval, m)
    else init_region a a.alloc_chrdev_region m

unfoldable pub host_ivshmem_exit : HostModule → HostModule
host_ivshmem_exit m = err_destroy_backend m

-- A module that holds nothing.
pub record Unloaded (m : HostModule) : Type 0 where
  pub no_region : m.held.regions ≡ 0
  pub no_class : m.held.classes ≡ 0
  pub no_debugfs : m.held.debugfs_root ≡ false
  pub no_cdev : m.registry.cdev ≡ false
  pub no_dev : m.registry.dev ≡ false
  pub no_backend : (i : ℕ) → m.registry.devices i ≡ none

destroyed-backends :
    (r : Registry) (i : ℕ)
    → r.devices i ≡ none
    → (host_destroy_registry_backend r).1.devices i ≡ none
unfolding host_destroy_registry_backend
destroyed-backends r i h = destroy_devices-none max_nb_devices 0 i r.devices h

created-backends :
    (cdev device : Ret) (r : Registry)
    → (host_create_registry_backend cdev device r).1.devices ≡ r.devices
unfolding host_create_registry_backend
created-backends (err e) device r = refl
created-backends ok (err e) r = refl
created-backends ok ok r = refl

init_registry-backends :
    (a : InitAnswers) (ret : Ret) (r : Registry) (h : HostHeld) (i : ℕ)
    → r.devices i ≡ none
    → (init_registry a (ret, r) h).1.registry.devices i ≡ none
unfolding init_registry init_kfuncs
init_registry-backends a (err e) r h i none_there = destroyed-backends r i none_there
init_registry-backends a ok r h i none_there =
    ground (arith, none_there, destroyed-backends r i none_there)

init_class-backends :
    (a : InitAnswers) (ret : Ret) (m : HostModule) (i : ℕ)
    → m.registry.devices i ≡ none
    → (init_class a ret m).1.registry.devices i ≡ none
unfolding init_class
init_class-backends a (err e) m i h = h
init_class-backends a ok m i h =
    let (ret, r) = host_create_registry_backend a.cdev_add a.device_create m.registry in
    init_registry-backends a ret r (record m.held { classes = m.held.classes + 1 }) i
      (ap (λ d. d i) (created-backends a.cdev_add a.device_create m.registry) ∙ h)

init_region-backends :
    (a : InitAnswers) (ret : Ret) (m : HostModule) (i : ℕ)
    → m.registry.devices i ≡ none
    → (init_region a ret m).1.registry.devices i ≡ none
unfolding init_region
init_region-backends a (err e) m i h = h
init_region-backends a ok m i h =
    init_class-backends a a.class_create
      (record m {
        held = record m.held { regions = m.held.regions + 1; debugfs_root = a.debugfs_create_dir };
      })
      i h

-- No backend is there after a load, whatever it returns.
init-backends :
    (a : InitAnswers) (m : HostModule) (i : ℕ)
    → m.registry.devices i ≡ none
    → (host_ivshmem_init a m).1.registry.devices i ≡ none
unfolding host_ivshmem_init
init-backends a m i h = ground (arith, init_region-backends a a.alloc_chrdev_region m i h)

-- Loading a module that holds nothing, where it fails, leaves no cdev, device or backend behind,
-- and gives back the region, the class and the directory that it took, but for one error: if the
-- class cannot be created, the region of device numbers is released twice, and the debugfs
-- directory stays.
pub host_init-err :
    (a : InitAnswers) (m m' : HostModule) (e : Errno) (i : ℕ)
    → Unloaded m
    → host_ivshmem_init a m ≡ (err e, m')
    → (m'.held ≡ (
        if is_ok a.alloc_chrdev_region && not (is_ok a.class_create)
        then record m.held {
          debugfs_root = a.debugfs_create_dir;
          stray_releases = m.held.stray_releases + 1;
        }
        else m.held))
      × (m'.registry.cdev ≡ false)
      × (m'.registry.dev ≡ false)
      × (m'.registry.devices i ≡ none)
unfolding host_ivshmem_init host_destroy_registry_backend
host_init-err a m m' e i u h = (
  ground (arith, u.no_region, u.no_class, u.no_debugfs),
  ground (arith, u.no_cdev),
  ground (arith, u.no_dev),
  ap (λ (x : Ret × HostModule). x.1.registry.devices i) (sym h)
      ∙ init-backends a m i (u.no_backend i),
)

-- Unloading a module that held nothing and was then loaded gives back the region, the class and the
-- directory that loading took, and leaves neither the cdev nor the device of the control device,
-- nor a backend under any minor number, whatever VMs were registered in between.
pub exit-host_init :
    (a : InitAnswers) (m m' : HostModule) (r : Registry) (i : ℕ)
    → Unloaded m
    → host_ivshmem_init a m ≡ (ok, m')
    → i < max_nb_devices
    → ((host_ivshmem_exit (record m' { registry = r })).held ≡ m.held)
      × ((host_ivshmem_exit (record m' { registry = r })).registry.cdev ≡ false)
      × ((host_ivshmem_exit (record m' { registry = r })).registry.dev ≡ false)
      × ((host_ivshmem_exit (record m' { registry = r })).registry.devices i ≡ none)
unfolding host_ivshmem_init host_ivshmem_exit host_destroy_registry_backend
exit-host_init a m m' r i u h l = (
  ground (arith, u.no_region, u.no_class, u.no_debugfs),
  refl,
  refl,
  destroy_devices-left max_nb_devices 0 i r.devices (omega arith) l,
)
