-- ===== src/Tracker/Register/Directory.antt =====
-- pvsched-ebpf/host/include/register_vm.h and pvsched-ebpf/host/user/cleanup.c: the directory of a VM
-- under /sys/fs/bpf, in which its buffers are pinned. The name of the VM is one component of a path,
-- and short enough for the arrays that hold paths.
pub mod Cleared
pub mod Forgotten
use phantom_tracker.Common.{
  ℕ, ◌≡◌, Bool, true, false, not, ◌&&◌, Option, none, some, List, [], ◌∷◌, if◌then◌else◌, ite,
}
use phantom_tracker.Tracker.State.{Name, Name-discrete, Tracker}
use phantom_tracker.Tracker.Keys.{digit_1, digit_2}
use phantom_tracker.Tracker.Register.{MapAnswers, setup_vm_maps}
use phantom_tracker.Tracker.Register.Cleanup.{CleanupAnswers, cleanup}

-- The names of the files in the directory, which may be missing.
abbrev pub Directory : Type 0
Directory = Option (List Name)

abbrev pub files_of : Directory → List Name
files_of none = []
files_of (some files) = files

unfoldable pub without : Name → List Name → List Name
without n [] = []
without n (x ∷ xs) = let rest = without n xs in ite (Name-discrete x n) rest (x ∷ rest)

-- collection_buff_1 and collection_buff_2.
abbrev pub buffer_file : ℕ → Name
buffer_file digit =
    b'c' ∷ b'o' ∷ b'l' ∷ b'l' ∷ b'e' ∷ b'c' ∷ b't' ∷ b'i' ∷ b'o' ∷ b'n' ∷ b'_' ∷ b'b' ∷ b'u' ∷ b'f'
    ∷ b'f' ∷ b'_' ∷ digit ∷ []

unfoldable pub contains : Name → List Name → Bool
contains n [] = false
contains n (x ∷ xs) = let rest = contains n xs in ite (Name-discrete x n) true rest

-- `unlink(pin_path)`, whose result is ignored, and `bpf_obj_pin`, which does not replace a file.
unfoldable pub pin_buffer : Bool → Bool → Name → List Name → Bool × List Name
pin_buffer unlinked pinned n files =
    let rest = if unlinked then without n files else files in
    if pinned && not (contains n rest) then (true, n ∷ rest) else (false, rest)

-- What the calls of a set-up answer, with those of `unlink`.
pub record SetupAnswers : Type 0 where
  pub maps : MapAnswers
  pub unlink_1 : Bool
  pub unlink_2 : Bool

-- What setting up the buffers does to the directory, and whether each of the two pins succeeds;
-- `mkdir` is true also where it was there.
unfoldable pub setup_files : SetupAnswers → Directory → Bool × Bool × Directory
setup_files s d =
    let a = s.maps in
    let (pinned_1, one) = pin_buffer s.unlink_1 a.pin_1 (buffer_file digit_1) (files_of d) in
    let (pinned_2, two) = pin_buffer s.unlink_2 a.pin_2 (buffer_file digit_2) one in
    if not (a.open_registry && a.mkdir)
    then (false, false, d)
    else if not a.create_1
    then (false, false, some (files_of d))
    else if not (pinned_1 && a.create_2)
    then (pinned_1, false, some one)
    else (pinned_1, pinned_2, some two)

-- The answers of the file system to the clean-up; a missing directory is no failure.
pub record DirAnswers : Type 0 where
  pub opendir : Bool
  pub unlink : Name → Bool
  pub rmdir : Bool

abbrev pub dot : Name
dot = b'.' ∷ []

abbrev pub dot_dot : Name
dot_dot = b'.' ∷ b'.' ∷ []

-- The loop over the entries that are read; it goes on after an error.
unfoldable pub unlink_entries : (Name → Bool) → List Name → List Name → Bool × List Name
unlink_entries unlink [] files = (true, files)
unlink_entries unlink (e ∷ es) files =
    let next = unlink_entries unlink es files in
    let gone = unlink_entries unlink es (without e files) in
    ite (Name-discrete e dot) next
      (ite (Name-discrete e dot_dot) next (if unlink e then gone else (false, next.1)))

unfoldable pub unlink_dir_contents : DirAnswers → Directory → Bool × Directory
unlink_dir_contents a none = (a.opendir, none)
unlink_dir_contents a (some files) =
    if not a.opendir
    then (false, some files)
    else (let (ret, left) = unlink_entries a.unlink (dot ∷ dot_dot ∷ files) files in
        (ret, some left))

-- `rmdir`, which takes an empty directory only.
unfoldable pub remove_dir : Bool → Directory → Bool × Directory
remove_dir rmdir none = (rmdir, none)
remove_dir rmdir (some []) = if rmdir then (true, none) else (false, some [])
remove_dir rmdir (some (x ∷ xs)) = (false, some (x ∷ xs))

-- The tool with the directory: the Boolean is true where it exits with 0.
unfoldable pub cleanup_vm :
    DirAnswers → CleanupAnswers → List ℕ → Directory → Tracker → Bool × Directory × Tracker
cleanup_vm a c vm_name d t =
    let (unlinked, emptied) = unlink_dir_contents a d in
    let (removed, left) = remove_dir a.rmdir emptied in
    let (ret, t') = cleanup (record c { unlink_contents = unlinked; rmdir = removed }) vm_name t in
    (ret, left, t')

-- Set-ups of the VM, one after the other, with what the calls of each answer.
unfoldable pub setups : List SetupAnswers → List ℕ → Directory → Tracker → Directory × Tracker
setups [] vm_name d t = (d, t)
setups (a ∷ rest) vm_name d t =
    let (pinned_1, pinned_2, d') = setup_files a d in
    let answers = record a.maps { pin_1 = pinned_1; pin_2 = pinned_2 } in
    setups rest vm_name d' (setup_vm_maps answers vm_name t).1
