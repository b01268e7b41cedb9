-- ===== src/Shmem/Guest/Chardev.antt =====
-- pvsched-shmem/guest/guest_ivshmem.c: the character device through which userspace maps the pages.
use phantom_tracker.Common.{◌+◌, ◌-◌, ◌≡◌, true, false, not, if◌then◌else◌, arith}
use phantom_tracker.Abi.{Ret, ok, err}
use phantom_tracker.Shmem.Guest.{CharState}

-- What the kernel answers to the four calls.
pub record CharAnswers : Type 0 where
  pub alloc_chrdev_region : Ret
  pub class_create : Ret
  pub cdev_add : Ret
  pub device_create : Ret

abbrev pub err_unregister_chrdev : CharState → CharState
err_unregister_chrdev c = record c { regions = c.regions - 1 }

abbrev pub err_destroy_class : CharState → CharState
err_destroy_class c =
    err_unregister_chrdev (record c { classes = c.classes - 1; class_set = false })

abbrev pub err_del_cdev : CharState → CharState
err_del_cdev c = err_destroy_class (record c { cdevs = c.cdevs - 1 })

char_device : Ret → CharState → Ret × CharState
char_device (err e) c = (err e, err_del_cdev c)
char_device ok c = (ok, record c { nodes = c.nodes + 1 })

char_cdev : Ret → Ret → CharState → Ret × CharState
char_cdev (err e) device c = (err e, err_destroy_class c)
char_cdev ok device c = char_device device (record c { cdevs = c.cdevs + 1 })

char_class : Ret → Ret → Ret → CharState → Ret × CharState
char_class (err e) cdev device c = (err e, err_unregister_chrdev (record c { class_set = false }))
char_class ok cdev device c =
    char_cdev cdev device (record c { classes = c.classes + 1; class_set = true })

char_region : Ret → CharAnswers → CharState → Ret × CharState
char_region (err e) a c = (err e, c)
char_region ok a c =
    char_class a.class_create a.cdev_add a.device_create (record c { regions = c.regions + 1 })

unfoldable pub guest_ivshmem_register_chardev : CharAnswers → CharState → Ret × CharState
unfolding char_region char_class char_cdev char_device
guest_ivshmem_register_chardev a c = char_region a.alloc_chrdev_region a c

unfoldable pub guest_ivshmem_unregister_chardev : CharState → CharState
guest_ivshmem_unregister_chardev c = if not c.class_set then c else record c {
  nodes = c.nodes - 1;
  cdevs = c.cdevs - 1;
  classes = c.classes - 1;
  class_set = false;
  regions = c.regions - 1;
}

-- What a caller that gives up does with the outcome of a registration.
unfoldable pub undo : Ret × CharState → CharState
unfolding guest_ivshmem_unregister_chardev
undo (err e, c) = c
undo (ok, c) = guest_ivshmem_unregister_chardev c

-- From a state with no class, a registration of the character device that fails leaves no region,
-- class, cdev or node behind; one that succeeds is undone by the unregistration.
pub undo-register_chardev :
    (a : CharAnswers) (c : CharState)
    → c.class_set ≡ false
    → undo (guest_ivshmem_register_chardev a c) ≡ c
unfolding undo guest_ivshmem_register_chardev
undo-register_chardev a c h = ground arith
