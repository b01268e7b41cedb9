-- ===== src/Tracker/Register/Cleanup.antt =====
-- pvsched-ebpf/host/user/cleanup.c: the tool that forgets a VM, on the maps; its files are in
-- Directory. A deletion in a hash map fails only where the key is missing, which is no error here.
use phantom_tracker.Common.{
  ℕ, ◌≤◌, ◌≡◌, ap, ◌∙◌, arith, Bool, true, false, not, ◌&&◌, List, if◌then◌else◌, length, none,
  lookup, delete, ite, lookup-delete_self, lookup-delete_ne,
}
use phantom_tracker.Tracker.State.{Name, Name-discrete, Vm, Tracker}
use phantom_tracker.Tracker.Keys.{digit_1, digit_2}
use phantom_tracker.Tracker.Switch.Exact.{Exact, registered}
use phantom_tracker.Tracker.Register.{vm_key, registry_key, delete_of, cleanup_stale_vcpus}
use phantom_tracker.Tracker.Register.Keys.{no_nul}
use phantom_tracker.Tracker.Register.Fresh.{AllPadded, c_string-vm_key, deleted-counts}

-- `bpf_obj_get` of a pinned map: a descriptor, no such map, or another error.
pub data Pinned : Type 0 where
  opened missing failed : Pinned

pub record CleanupAnswers : Type 0 where
  pub unlink_contents : Bool
  pub rmdir : Bool
  pub registry : Pinned
  pub vms : Pinned
  pub vcpus : Pinned
  pub keys : Bool

is_opened : Pinned → Bool
is_opened opened = true
is_opened missing = false
is_opened failed = false

is_failed : Pinned → Bool
is_failed opened = false
is_failed missing = false
is_failed failed = true

-- The tool goes on after every error; the Boolean is true where it exits with 0.
unfoldable pub cleanup : CleanupAnswers → List ℕ → Tracker → Bool × Tracker
unfolding is_opened is_failed
cleanup a vm_name t = (
  a.unlink_contents
      && a.rmdir
      && not (is_failed a.registry)
      && not (is_failed a.vms)
      && not (is_failed a.vcpus),
  record t {
    map_registry =
        if is_opened a.registry
        then delete Name-discrete (registry_key digit_2 vm_name)
            (delete Name-discrete (registry_key digit_1 vm_name) t.map_registry)
        else t.map_registry;
    vms = if is_opened a.vms then delete Name-discrete (vm_key vm_name) t.vms else t.vms;
    vcpus = if is_opened a.vcpus then cleanup_stale_vcpus a.keys vm_name t.vcpus else t.vcpus;
  },
)

found-delete :
    (key n : Name) (vms : List (Name × Vm))
    → lookup Name-discrete n (delete Name-discrete key vms)
      ≡ ite (Name-discrete key n) none (lookup Name-discrete n vms)
found-delete key n vms =
    ground
      (arith, lookup-delete_self Name-discrete key vms, lookup-delete_ne Name-discrete key n vms)

module _ (a : CleanupAnswers) (vm_name : List ℕ) (t : Tracker) (string : no_nul vm_name ≡ true)
    (short : length vm_name ≤ 63) (padded : AllPadded t.vcpus) (keys : a.keys ≡ true)
    (vms : a.vms ≡ opened) (vcpus : a.vcpus ≡ opened) where
  cleaned_maps :
      ((cleanup a vm_name t).1.vms ≡ delete Name-discrete (vm_key vm_name) t.vms)
      × ((cleanup a vm_name t).1.vcpus ≡ delete_of vm_name t.vcpus)
  unfolding cleanup cleanup_stale_vcpus
  cleaned_maps = (ground (arith, vms), ground (arith, vcpus, keys))

  -- If the tool can open the maps of VMs and of vCPUs and has memory for the list of stale keys, a
  -- VM with a name of at most 63 bytes without NUL and all its vCPUs are gone, and the counters of
  -- the other VMs still equal the numbers of their phantom vCPUs. It needs padded names in the map.
  pub cleanup-Exact :
      Exact t
      → let t' = (cleanup a vm_name t).1 in
        Exact t'
        × (lookup Name-discrete (vm_key vm_name) t'.vms ≡ none)
        × (registered (vm_key vm_name) t' ≡ 0)
  cleanup-Exact exact =
      let back = c_string-vm_key vm_name string short in
      let found = λ (n : Name).
        ap (lookup Name-discrete n) cleaned_maps.0 ∙ found-delete (vm_key vm_name) n t.vms in
      let of = λ (n : Name). deleted-counts vm_name n t.vcpus back padded in
      let rest = cleaned_maps.1 in
      (
        record {
          counts = λ n vm e. rw rest (ground (arith, found n, of n, exact.counts n vm));
          room = λ n vm e. rw rest (ground (arith, found n, of n, exact.room n vm));
        },
        ground (arith, found (vm_key vm_name)),
        rw rest (ground (arith, of (vm_key vm_name))),
      )
