-- ===== src/Threads.antt =====
-- pvsched-ebpf/guest/omp_thread_reg.bpf.c: the OpenMP threads of the guest, and the run state of each
-- CPU that it shows to the host.
pub mod Slots
pub mod Shown
use phantom_tracker.Common.{
  ℕ, ◌+◌, ◌*◌, ◌≡◌, Bool, true, false, Option, none, some, List, [], ◌∷◌, if◌then◌else◌, ◌==◌,
  ℕ_discrete, lookup, insert, delete,
}
use phantom_tracker.Abi.{Memory, Ret}
use phantom_tracker.Shmem.Guest.{GuestModule, bpf_guest_ivshmem_g2h_write}

-- omp_threads_map, from a thread to the CPU on which it was captured; the module whose function
-- the programs call; and the memory behind its device.
pub record ThreadTracker : Type 0 where
  pub omp_threads_map : List (ℕ × ℕ)
  pub guest : GuestModule
  pub bar : Memory

-- The thread and the CPU that a program runs on.
pub record Current : Type 0 where
  pub tid : ℕ
  pub cpu : ℕ

abbrev pub is_some : Option ℕ → Bool
is_some none = false
is_some (some n) = true

abbrev pub tracked : ThreadTracker → ℕ → Bool
tracked t tid = is_some (lookup ℕ_discrete tid t.omp_threads_map)

-- The write of a run state, whose result the programs ignore.
unfoldable pub write_state : ℕ → ℕ → ThreadTracker → ThreadTracker
unfolding bpf_guest_ivshmem_g2h_write
write_state cpu msg t = record t {
  bar = (bpf_guest_ivshmem_g2h_write t.guest t.bar cpu (some msg)).1;
}

-- Both captures are the same but for what they print.
unfoldable pub capture_omp_master_thread : Current → ThreadTracker → ThreadTracker
capture_omp_master_thread c t = record t {
  omp_threads_map = insert ℕ_discrete c.tid c.cpu t.omp_threads_map;
}

unfoldable pub capture_omp_worker_threads : Current → ThreadTracker → ThreadTracker
capture_omp_worker_threads c t = record t {
  omp_threads_map = insert ℕ_discrete c.tid c.cpu t.omp_threads_map;
}

unfoldable pub remove_current_tid : Current → ThreadTracker → ThreadTracker
unfolding write_state
remove_current_tid c t =
    let written = if tracked t c.tid then write_state c.cpu 0 t else t in
    record written { omp_threads_map = delete ℕ_discrete c.tid written.omp_threads_map }

unfoldable pub remove_exited_omp_thread : Current → ThreadTracker → ThreadTracker
unfolding remove_current_tid
remove_exited_omp_thread c t = remove_current_tid c t

unfoldable pub remove_execed_omp_thread : Current → ThreadTracker → ThreadTracker
unfolding remove_current_tid
remove_execed_omp_thread c t = remove_current_tid c t

unfoldable pub handle_switch : (prev_tid next_tid current_cpu : ℕ) → ThreadTracker → ThreadTracker
unfolding write_state
handle_switch prev_tid next_tid current_cpu t =
    let left = if tracked t prev_tid then write_state current_cpu 0 t else t in
    if tracked left next_tid then write_state current_cpu 1 left else left
