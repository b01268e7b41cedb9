-- ===== src/Loaders/OmpThreadReg.antt =====
-- pvsched-ebpf/guest/omp_thread_reg.loader.c: the loader of the guest's thread tracker. A link that is
-- pinned outlives its process, and `bpf_link__pin` and `bpf_map__pin` do not replace a file.
use phantom_tracker.Common.{
  ℕ, ◌+◌, ◌-◌, ◌≡◌, ◌∙◌, arith, Bool, true, false, not, ◌&&◌, if◌then◌else◌,
}

-- Which files there are.
pub record OmpFiles : Type 0 where
  pub master : Bool
  pub omp_threads_map : Bool
  pub sched_switch : Bool
  pub sched_process_exit : Bool
  pub sched_process_exec : Bool

pub record OmpLoader : Type 0 where
  pub files : OmpFiles
  pub skels : ℕ
  pub links : ℕ

-- What the calls answer, true where they succeed.
pub record OmpAnswers : Type 0 where
  pub open_and_load : Bool
  pub attach_master : Bool
  pub attach_workers : Bool
  pub pin_master : Bool
  pub pin_map : Bool
  pub attach_switch : Bool
  pub pin_switch : Bool
  pub attach_exit : Bool
  pub pin_exit : Bool
  pub attach_exec : Bool
  pub pin_exec : Bool

-- The exit code, and whether the process waited for a signal before it ended.
pub record OmpExit : Type 0 where
  pub ret : ℕ
  pub waited : Bool
  pub after : OmpLoader

-- `links` of the five pointers are not NULL; `err` is what `libbpf_get_error` returned last.
unfoldable pub cleanup : Bool → ℕ → Bool → OmpLoader → OmpExit
cleanup err links waited l = record {
  ret = if err then 1 else 0;
  waited = waited;
  after = record l { links = l.links - links; skels = l.skels - 1 };
}

module _ (a : OmpAnswers) where
  unfoldable pub attach_exec : OmpLoader → OmpExit
  unfolding cleanup
  attach_exec l =
      let l1 = record l { links = l.links + 1 } in
      if not a.attach_exec
      then cleanup true 4 false l
      else if not (a.pin_exec && not l.files.sched_process_exec)
      then cleanup false 5 false l1
      else cleanup false 5 true (record l1 { files = record l.files { sched_process_exec = true } })

  unfoldable pub attach_exit : OmpLoader → OmpExit
  unfolding attach_exec cleanup
  attach_exit l =
      let l1 = record l { links = l.links + 1 } in
      if not a.attach_exit
      then cleanup true 3 false l
      else if not (a.pin_exit && not l.files.sched_process_exit)
      then cleanup false 4 false l1
      else attach_exec (record l1 { files = record l.files { sched_process_exit = true } })

  unfoldable pub attach_switch : OmpLoader → OmpExit
  unfolding attach_exit cleanup
  attach_switch l =
      let l1 = record l { links = l.links + 1 } in
      if not a.attach_switch
      then cleanup true 2 false l
      else if not (a.pin_switch && not l.files.sched_switch)
      then cleanup false 3 false l1
      else attach_exit (record l1 { files = record l.files { sched_switch = true } })

  -- The link of the workers cannot be pinned.
  unfoldable pub pin_first : OmpLoader → OmpExit
  unfolding attach_switch cleanup
  pin_first l =
      let l1 = record l { files = record l.files { master = true } } in
      if not (a.pin_master && not l.files.master)
      then cleanup false 2 false l
      else if not (a.pin_map && not l.files.omp_threads_map)
      then cleanup false 2 false l1
      else attach_switch (record l1 { files = record l1.files { omp_threads_map = true } })

  unfoldable pub main : OmpLoader → OmpExit
  unfolding pin_first cleanup
  main l =
      let l1 = record l { skels = l.skels + 1 } in
      let l2 = record l1 { links = l1.links + 1 } in
      if not a.open_and_load
      then record { ret = 1; waited = false; after = l }
      else if not a.attach_master
      then cleanup true 0 false l1
      else if not a.attach_workers
      then cleanup true 1 false l2
      else pin_first (record l2 { links = l2.links + 1 })

-- A run gives back what it held, and removes no file.
pub record Outcome (l : OmpLoader) (out : OmpExit) : Type 0 where
  pub skels_back : out.after.skels ≡ l.skels
  pub links_back : out.after.links ≡ l.links
  pub master_kept : l.files.master ≡ true → out.after.files.master ≡ true
  pub waited_new : out.waited ≡ true → l.files.master ≡ false
  pub waited_pinned : out.waited ≡ true → out.after.files.master ≡ true

run-Outcome : (a : OmpAnswers) (l : OmpLoader) → Outcome l (main a l)
unfolding main cleanup
run-Outcome a l = record {
  skels_back = ground arith;
  links_back = ground arith;
  master_kept = λ h. ground arith;
  waited_new = λ h. ground arith;
  waited_pinned = λ h. ground arith;
}

-- What a run that waits has pinned.
abbrev pub all_files : OmpFiles
all_files = record {
  master = true;
  omp_threads_map = true;
  sched_switch = true;
  sched_process_exit = true;
  sched_process_exec = true;
}

waited-all :
    (a : OmpAnswers) (l : OmpLoader) → (main a l).waited ≡ true → (main a l).after.files ≡ all_files
unfolding main pin_first attach_switch attach_exit attach_exec cleanup
waited-all a l h = ground arith

-- Where the master link is pinned already, no run gets as far as waiting, or changes anything; one
-- that loads and attaches its two probes ends with 0 all the same.
pinned_before :
    (a : OmpAnswers) (l : OmpLoader)
    → l.files.master ≡ true
    → ((main a l).waited ≡ false)
      × ((main a l).ret ≡ (if a.open_and_load && a.attach_master && a.attach_workers then 0 else 1))
      × ((main a l).after.files ≡ l.files)
unfolding main pin_first cleanup
pinned_before a l h = (ground arith, ground arith, ground arith)

-- A run that waited for its signal gives back its skeleton and its links, and leaves all of its
-- five files behind. The next run, whatever the calls answer, ends without waiting, gives back its
-- own skeleton and links, and changes no file; its exit code is 0 if it could load and attach its
-- two probes, and else 1.
pub main-main :
    (a b : OmpAnswers) (l : OmpLoader)
    → (main a l).waited ≡ true
    → ((main a l).after.skels ≡ l.skels)
      × ((main a l).after.links ≡ l.links)
      × ((main a l).after.files ≡ all_files)
      × ((main b (main a l).after).after.skels ≡ l.skels)
      × ((main b (main a l).after).after.links ≡ l.links)
      × ((main b (main a l).after).after.files ≡ all_files)
      × ((main b (main a l).after).waited ≡ false)
      × ((main b (main a l).after).ret
          ≡ (if b.open_and_load && b.attach_master && b.attach_workers then 0 else 1))
main-main a b l h =
    let o = run-Outcome a l in
    let p = run-Outcome b (main a l).after in
    let files = waited-all a l h in
    let (ends, quietly, same) = pinned_before b (main a l).after (o.waited_pinned h) in
    (
      o.skels_back,
      o.links_back,
      files,
      p.skels_back ∙ o.skels_back,
      p.links_back ∙ o.links_back,
      same ∙ files,
      ends,
      quietly,
    )
