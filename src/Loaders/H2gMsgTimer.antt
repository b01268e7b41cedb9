-- ===== src/Loaders/H2gMsgTimer.antt =====
-- pvsched-ebpf/host/h2g_msg_timer/h2g_msg_timer_loader.c: the loader of the message clock.
use phantom_tracker.Common.{
  ℕ, ◌+◌, ◌-◌, ◌≡◌, arith, Bool, true, false, not, ◌&&◌, ◌||◌, if◌then◌else◌,
}

pub record ClockAnswers : Type 0 where
  pub open_file : Bool
  pub load : Bool
  pub find_map : Bool
  pub find_program : Bool
  pub attach : Bool

-- Open objects and links, the exit code, and whether the process waited for a signal.
pub record ClockExit : Type 0 where
  pub ret : ℕ
  pub waited : Bool
  pub objects : ℕ
  pub links : ℕ

-- `err` is what `libbpf_get_error` or `bpf_object__load` returned last.
unfoldable pub cleanup : Bool → Bool → (objects links : ℕ) → ClockExit
cleanup err waited objects links = record {
  ret = if err then 1 else 0;
  waited = waited;
  objects = objects - 1;
  links = links;
}

unfoldable pub main : ClockAnswers → (objects links : ℕ) → ClockExit
unfolding cleanup
main a objects links =
    if not a.open_file
    then record { ret = 1; waited = false; objects = objects; links = links }
    else if not a.load
    then cleanup true false (objects + 1) links
    else if not (a.find_map && a.find_program)
    then cleanup false false (objects + 1) links
    else if not a.attach
    then cleanup true false (objects + 1) links
    else cleanup false true (objects + 1) links

-- The object and the link are given back on every path, and the process waits where every call
-- succeeds. The exit code is 0 for such a run, and also for one that does not find the map or the
-- program in the object.
pub main-ends :
    (a : ClockAnswers) (objects links : ℕ)
    → ((main a objects links).objects ≡ objects)
      × ((main a objects links).links ≡ links)
      × ((main a objects links).waited
          ≡ (a.open_file && a.load && a.find_map && a.find_program && a.attach))
      × ((main a objects links).ret ≡ (
          if a.open_file && a.load && (not (a.find_map && a.find_program) || a.attach)
          then 0
          else 1))
unfolding main cleanup
main-ends a objects links = (ground arith, ground arith, ground arith, ground arith)
