-- ===== src/Tracker/Register/Directory/Cleared.antt =====
-- pvsched-ebpf/host/user/cleanup.c: what its loop leaves of a VM's directory.
use phantom_tracker.Common.{
  ℕ, ◌≡◌, ◌≢◌, refl, arith, Bool, true, false, not, ◌&&◌, Bool-cases, inl, inr, none, some, List,
  [], ◌∷◌, if◌then◌else◌, ite,
}
use phantom_tracker.Tracker.State.{Name, Name-discrete, Tracker}
use phantom_tracker.Tracker.Keys.{digit_1, digit_2}
use phantom_tracker.Tracker.Register.{setup_vm_maps}
use phantom_tracker.Tracker.Register.Directory.{
  Directory, files_of, without, buffer_file, contains, pin_buffer, SetupAnswers, setup_files,
  DirAnswers, dot, dot_dot, unlink_entries, unlink_dir_contents, remove_dir, setups,
}

-- The files that the file system refuses to unlink.
unfoldable pub refused : (Name → Bool) → List Name → List Name
refused unlink [] = []
refused unlink (x ∷ xs) = let rest = refused unlink xs in if unlink x then rest else x ∷ rest

abbrev pub is_empty : List Name → Bool
is_empty [] = true
is_empty (x ∷ xs) = false

-- A directory with these files in it, which is there only for them.
abbrev pub holding : List Name → Directory
holding [] = none
holding (x ∷ xs) = some (x ∷ xs)

-- No file has the name of the directory itself or of the one above it.
abbrev pub Undotted : List Name → Type 0
Undotted [] = Unit
Undotted (x ∷ xs) = (x ≢ dot) × (x ≢ dot_dot) × Undotted xs

-- Files that remain once those of a list are unlinked.
mem : Name → List Name → Bool
mem x [] = false
mem x (e ∷ es) = let rest = mem x es in ite (Name-discrete x e) true rest

survivors : (Name → Bool) → List Name → List Name → List Name
survivors unlink es [] = []
survivors unlink es (x ∷ xs) =
    let rest = survivors unlink es xs in if unlink x && mem x es then rest else x ∷ rest

survivors-nothing : (unlink : Name → Bool) (xs : List Name) → survivors unlink [] xs ≡ xs
unfolding survivors mem
survivors-nothing unlink [] = refl
survivors-nothing unlink (x ∷ xs) = ground (arith, survivors-nothing unlink xs)

survivors-gone :
    (unlink : Name → Bool) (e : Name) (es xs : List Name)
    → unlink e ≡ true
    → survivors unlink es (without e xs) ≡ survivors unlink (e ∷ es) xs
unfolding survivors mem without
survivors-gone unlink e es [] h = refl
survivors-gone unlink e es (x ∷ xs) h = ground (arith, h, survivors-gone unlink e es xs h)

survivors-kept :
    (unlink : Name → Bool) (e : Name) (es xs : List Name)
    → unlink e ≡ false
    → survivors unlink es xs ≡ survivors unlink (e ∷ es) xs
unfolding survivors mem
survivors-kept unlink e es [] h = refl
survivors-kept unlink e es (x ∷ xs) h = ground (arith, h, survivors-kept unlink e es xs h)

-- A list that holds the others.
AllIn : List Name → List Name → Type 0
AllIn es [] = Unit
AllIn es (x ∷ xs) = (mem x es ≡ true) × AllIn es xs

AllIn-cons : (e : Name) (es xs : List Name) → AllIn es xs → AllIn (e ∷ es) xs
unfolding AllIn mem
AllIn-cons e es [] h = tt
AllIn-cons e es (x ∷ xs) (here, rest) = (ground (arith, here), AllIn-cons e es xs rest)

AllIn-self : (xs : List Name) → AllIn xs xs
unfolding AllIn mem
AllIn-self [] = tt
AllIn-self (x ∷ xs) = (ground arith, AllIn-cons x xs xs (AllIn-self xs))

survivors-AllIn :
    (unlink : Name → Bool) (es xs : List Name)
    → AllIn es xs
    → survivors unlink es xs ≡ refused unlink xs
unfolding AllIn survivors refused
survivors-AllIn unlink es [] h = refl
survivors-AllIn unlink es (x ∷ xs) (here, rest) =
    ground (arith, here, survivors-AllIn unlink es xs rest)

unlink_entries-survivors :
    (unlink : Name → Bool) (es files : List Name)
    → Undotted es
    → unlink_entries unlink es files ≡ (is_empty (refused unlink es), survivors unlink es files)
unfolding unlink_entries refused
unlink_entries-survivors unlink [] files h = rw (survivors-nothing unlink files) refl
unlink_entries-survivors unlink (e ∷ es) files (ne, ne2, rest) = elim (Bool-cases (unlink e)) [
  | inl ok ↦ ground (
    arith,
    ok,
    ne,
    ne2,
    unlink_entries-survivors unlink es (without e files) rest,
    survivors-gone unlink e es files ok,
  )
  | inr stays ↦ ground (
    arith,
    stays,
    ne,
    ne2,
    unlink_entries-survivors unlink es files rest,
    survivors-kept unlink e es files stays,
  )
]

-- The directory after the loop, and after `rmdir`.
pub cleared :
    (a : DirAnswers) (files : List Name)
    → Undotted files
    → a.opendir ≡ true
    → unlink_dir_contents a (some files)
      ≡ (is_empty (refused a.unlink files), some (refused a.unlink files))
unfolding unlink_dir_contents unlink_entries
cleared a files h opens = ground (
  arith,
  opens,
  unlink_entries-survivors a.unlink files files h,
  survivors-AllIn a.unlink files files (AllIn-self files),
)

pub removed : (files : List Name) → remove_dir true (some files) ≡ (is_empty files, holding files)
unfolding remove_dir
removed [] = refl
removed (x ∷ xs) = refl

Undotted-without : (n : Name) (xs : List Name) → Undotted xs → Undotted (without n xs)
unfolding without
Undotted-without n [] h = tt
Undotted-without n (x ∷ xs) (ne, ne2, rest) = ground (arith, ne, ne2, Undotted-without n xs rest)

Undotted-pin_buffer :
    (unlinked pinned : Bool) (digit : ℕ) (xs : List Name)
    → Undotted xs
    → Undotted (pin_buffer unlinked pinned (buffer_file digit) xs).1
unfolding pin_buffer
Undotted-pin_buffer unlinked pinned digit xs h =
    let rest = if unlinked then without (buffer_file digit) xs else xs in
    let below : Undotted rest = elim (Bool-cases unlinked) [
      | inl e ↦ rw e (Undotted-without (buffer_file digit) xs h)
      | inr e ↦ rw e h
    ] in
    elim (Bool-cases (pinned && not (contains (buffer_file digit) rest))) [
      | inl e ↦ rw e (ground arith, ground arith, below)
      | inr e ↦ rw e below
    ]

Undotted-setup_files :
    (a : SetupAnswers) (d : Directory)
    → Undotted (files_of d)
    → Undotted (files_of (setup_files a d).2)
unfolding setup_files
Undotted-setup_files a d h =
    let one = Undotted-pin_buffer a.unlink_1 a.maps.pin_1 digit_1 (files_of d) h in
    ground (
      arith,
      h,
      one,
      Undotted-pin_buffer a.unlink_2 a.maps.pin_2 digit_2
          (pin_buffer a.unlink_1 a.maps.pin_1 (buffer_file digit_1) (files_of d)).1 one,
    )

pub Undotted-setups :
    (runs : List SetupAnswers) (vm_name : List ℕ) (d : Directory) (t : Tracker)
    → Undotted (files_of d)
    → Undotted (files_of (setups runs vm_name d t).0)
unfolding setups
Undotted-setups [] vm_name d t h = h
Undotted-setups (a ∷ rest) vm_name d t h =
    let (pinned_1, pinned_2, d') = setup_files a d in
    Undotted-setups rest vm_name d'
      (setup_vm_maps (record a.maps { pin_1 = pinned_1; pin_2 = pinned_2 }) vm_name t).1
      (Undotted-setup_files a d h)
