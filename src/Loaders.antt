-- ===== src/Loaders.antt =====
-- The loaders of the eBPF programs: what they pin under /sys/fs/bpf, and what they hold.
pub mod CreateMaps
pub mod IdleAvg
pub mod Timer
pub mod OmpThreadReg
pub mod H2gMsgTimer
use phantom_tracker.Common.{
  ℕ, ◌+◌, ◌-◌, ◌≡◌, ◌⊎◌, inl, inr, refl, Bool, true, false, not, ◌&&◌, Option, none, some, List, [],
  if◌then◌else◌,
}
use phantom_tracker.Tracker.State.{Name, Vm, Vcpu, Buffer, GlobalState}

-- The files, with the maps that they name; a link is pinned or not. A program whose link is pinned
-- stays attached when its loader ends.
pub record Bpffs : Type 0 where
  pub vms : Option (List (Name × Vm))
  pub vcpus : Option (List (ℕ × Vcpu))
  pub map_registry : Option (List (Name × Buffer))
  pub global_tracker_state : Option GlobalState
  pub sched_switch_link : Bool

-- Skeletons, descriptors and links of the process that are not released.
pub record Loader : Type 0 where
  pub files : Bpffs
  pub skels : ℕ
  pub fds : ℕ
  pub links : ℕ

-- A process that begins.
abbrev pub start : Bpffs → Loader
start f = record { files = f; skels = 0; fds = 0; links = 0 }

module _ {A : Type 0} where
  -- `bpf_obj_get`: there is no descriptor where there is no file, or where the call fails.
  abbrev pub bpf_obj_get : Bool → Option A → Option A
  bpf_obj_get answer file = if answer then file else none

  abbrev pub is_some : Option A → Bool
  is_some none = false
  is_some (some m) = true

  -- `if (fd >= 0)` and `bpf_map__reuse_fd`: false where the call is made and fails.
  abbrev pub reuse_fd : Option A → Bool → Bool
  reuse_fd none answer = true
  reuse_fd (some m) answer = answer

  -- The map of the skeleton: the reused one, or a new one.
  abbrev pub map_or_new : Option A → A → A
  map_or_new none new = new
  map_or_new (some m) new = m

  -- `bpf_obj_pin` does not replace a file.
  abbrev pub bpf_obj_pin : Bool → Option A → A → Bool × Option A
  bpf_obj_pin answer none m = if answer then (true, some m) else (false, none)
  bpf_obj_pin answer (some old) m = (false, some old)

  -- `if (fd < 0)` and the pin of the new map.
  abbrev pub pin_new : Option A → Bool → Option A → A → Bool × Option A
  pin_new none answer file new = bpf_obj_pin answer file new
  pin_new (some m) answer file new = (true, file)

  -- A descriptor names the pinned map, or there is none.
  abbrev pub Names : Option A → Option A → Type 0
  Names fd file = (fd ≡ none) ⊎ (fd ≡ file)

  pub get-Names : (answer : Bool) (file : Option A) → Names (bpf_obj_get answer file) file
  get-Names true file = inr refl
  get-Names false file = inl refl
