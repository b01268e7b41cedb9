-- ===== src/Tests/Register.antt =====
-- The registration tools at concrete inputs: the VM of two vCPUs registers again, with one.
use phantom_tracker.Common.{
  ℕ, ◌≡◌, ◌∙◌, refl, true, false, ite, some, none, arith, [], ◌∷◌, List, lookup,
}
use phantom_tracker.Tracker.State.{Name, Name-discrete, Tracker}
use phantom_tracker.Tracker.Keys.{digit_1, digit_2, collection_key}
use phantom_tracker.Tracker.Switch.Exact.{Exact, registered, phantoms}
use phantom_tracker.Tracker.Register.{
  pad, c_string, vm_key, registry_key, QmpVcpu, ToolAnswers, register_vm, MapAnswers, setup_vm_maps,
  new_buffer, new_vm, delete_of, add_vcpus,
}
use phantom_tracker.Tracker.Register.Keys.{collection_key-vm_key, setup-found}
use phantom_tracker.Tracker.Register.Fresh.{AllPadded, Unused, register_vm-Exact}
use phantom_tracker.Tracker.Register.Cleanup.{
  CleanupAnswers, opened, missing, cleanup, cleanup-Exact,
}
use phantom_tracker.Tracker.Register.Directory.{
  files_of, DirAnswers, cleanup_vm, SetupAnswers, setups, setup_files, pin_buffer, without,
  contains,
}
use phantom_tracker.Tracker.Register.Directory.Cleared.{refused}
use phantom_tracker.Tracker.Register.Directory.Forgotten.{cleanup_vm-setups}
use phantom_tracker.Abi.{Memory}
use phantom_tracker.Shmem.Host.{h2g_slot}
use phantom_tracker.Shmem.Host.Slots.{published}
use phantom_tracker.Tracker.Watermark.{watermark, next_history_slot}
use phantom_tracker.Tracker.Timer.{callback_fn, swap_buffers, swap_to_1, swap_to_2}
use phantom_tracker.Tracker.Timer.Seen.{callback_fn-watermark}
use phantom_tracker.Tests.Shmem.{small_backend}
use phantom_tracker.Tests.Timer.{tick}
use phantom_tracker.Tests.Tracker.{two_vcpus, two_vcpus-Exact, vm_a}

abbrev pub name : List ℕ
name = b'a' ∷ []

collection_key-vm_key_example : collection_key digit_1 (vm_key name) ≡ registry_key digit_1 name
collection_key-vm_key_example = collection_key-vm_key name refl (omega arith) digit_1

abbrev pub all_set : MapAnswers
all_set = record {
  open_registry = true;
  mkdir = true;
  create_1 = true;
  pin_1 = true;
  create_2 = true;
  pin_2 = true;
  update_1 = true;
  update_2 = true;
}

abbrev with_buffers : Tracker
with_buffers = (setup_vm_maps all_set name two_vcpus).1

with_buffers-found :
    (lookup Name-discrete (collection_key digit_1 (vm_key name)) with_buffers.map_registry
      ≡ some new_buffer)
    × (lookup Name-discrete (collection_key digit_2 (vm_key name)) with_buffers.map_registry
        ≡ some new_buffer)
unfolding setup_vm_maps
with_buffers-found = setup-found name refl (omega arith) all_set two_vcpus with_buffers refl

-- A tick for the VM, whose buffers are still empty.
abbrev ones : Memory
ones = λ x. 1

callback_fn-watermark_example :
    let s = swap_buffers tick vm_a new_buffer new_buffer in
    let w = watermark 52 s.avg 0 in
    ((callback_fn tick none with_buffers (vm_key name) vm_a).shmem.devices 1
      ≡ some (record small_backend { mem = some (published ones 1 w) }))
    × (published ones 1 w (h2g_slot 0) ≡ w)
    × (published ones 1 w (h2g_slot 1) ≡ w)
unfolding setup_vm_maps next_history_slot swap_buffers swap_to_1 swap_to_2
callback_fn-watermark_example =
    callback_fn-watermark tick none with_buffers (vm_key name) vm_a new_buffer new_buffer
      (record small_backend { mem = some ones }) ones with_buffers-found.0 with_buffers-found.1 refl
      refl

pub two_vcpus-AllPadded : AllPadded two_vcpus.vcpus
unfolding c_string pad vm_key
two_vcpus-AllPadded = (refl, (refl, tt))

abbrev one_vcpu : List QmpVcpu
one_vcpu = record { cpu_index = 0; thread_id = 12 } ∷ []

one_vcpu-Unused : Unused name one_vcpu (delete_of name two_vcpus.vcpus)
unfolding delete_of c_string lookup
one_vcpu-Unused = (ground arith, tt)

abbrev pub all_done : ToolAnswers
all_done = record {
  malloc_vm = true;
  open_vms = true;
  open_vcpus = true;
  keys = true;
  update_vm = true;
  add_vcpu = λ i. true;
}

abbrev again : Tracker
again = (register_vm all_done one_vcpu name [] 1 two_vcpus).1

ite_same {ℓ} : {A : Type ℓ} (n : Name) (x y : A) → ite (Name-discrete n n) x y ≡ x
ite_same n x y = ground arith

register_vm-Exact_example :
    Exact again
    × (lookup Name-discrete (vm_key name) again.vms ≡ some (new_vm [] 1))
    × (registered (vm_key name) again ≡ 1)
    × (phantoms (vm_key name) again ≡ 0)
unfolding register_vm add_vcpus
register_vm-Exact_example =
    let (exact, entry, count, none_flagged) =
      register_vm-Exact all_done one_vcpu name [] 1 two_vcpus again refl (omega arith)
        two_vcpus-AllPadded one_vcpu-Unused (omega arith) (omega arith) refl (vm_key name)
        two_vcpus-Exact refl in
    (exact, entry ∙ ite_same _ _ _, count ∙ ite_same _ _ _, none_flagged ∙ ite_same _ _ _)

abbrev no_registry : CleanupAnswers
no_registry = record {
  unlink_contents = true;
  rmdir = true;
  registry = missing;
  vms = opened;
  vcpus = opened;
  keys = true;
}

cleanup-Exact_example :
    let t' = (cleanup no_registry name two_vcpus).1 in
    Exact t'
    × (lookup Name-discrete (vm_key name) t'.vms ≡ none)
    × (registered (vm_key name) t' ≡ 0)
cleanup-Exact_example =
    cleanup-Exact no_registry name two_vcpus refl (omega arith) two_vcpus-AllPadded refl refl refl
      two_vcpus-Exact

-- A file that a tool of another version pinned, and that cannot be unlinked.
abbrev stray : Name
stray = b'x' ∷ []

abbrev stray_refused : DirAnswers
stray_refused = record {
  opendir = true;
  unlink = λ n. ite (Name-discrete n stray) false true;
  rmdir = true;
}

abbrev all_maps : CleanupAnswers
all_maps = record no_registry { registry = opened }

-- The second set-up cannot unlink the first buffer, and so not pin its own.
abbrev two_setups : List SetupAnswers
two_setups =
    record { maps = all_set; unlink_1 = true; unlink_2 = true }
    ∷ record { maps = all_set; unlink_1 = false; unlink_2 = true }
    ∷ []

stray-stays :
    refused stray_refused.unlink (files_of (setups two_setups name (some (stray ∷ [])) two_vcpus).0)
    ≡ stray ∷ []
unfolding setups setup_files pin_buffer without contains refused
stray-stays = ground arith

cleanup_vm-setups_example :
    let (d', t') = setups two_setups name (some (stray ∷ [])) two_vcpus in
    let (ret, left, t'') = cleanup_vm stray_refused all_maps name d' t' in
    (ret ≡ false)
    × (left ≡ some (stray ∷ []))
    × (lookup Name-discrete (collection_key digit_1 (vm_key name)) t''.map_registry ≡ none)
    × (lookup Name-discrete (collection_key digit_2 (vm_key name)) t''.map_registry ≡ none)
cleanup_vm-setups_example =
    let all =
      cleanup_vm-setups name stray_refused all_maps refl refl refl refl refl refl (omega arith)
        two_setups (some (stray ∷ [])) two_vcpus (ground arith, ground arith, tt) in
    rw stray-stays at all
