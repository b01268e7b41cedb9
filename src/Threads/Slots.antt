-- ===== src/Threads/Slots.antt =====
-- omp_thread_reg.bpf.c: what each program does to the slots of the run states and to the map.
use phantom_tracker.Common.{
  ℕ, ◌<◌, ◌≡◌, arith, true, false, some, if◌then◌else◌, ◌==◌, ℕ_discrete, insert, delete,
  lookup-insert_self, lookup-insert_ne, lookup-delete_self, lookup-delete_ne,
}
use phantom_tracker.Abi.{nr_guest_ivshmem_msgs}
use phantom_tracker.Shmem.Host.{g2h_slot, g2h_offset}
use phantom_tracker.Shmem.Guest.{GuestDevice}
use phantom_tracker.Threads.{ThreadTracker, Current, tracked, remove_current_tid, handle_switch}

-- The guest's part lies where the host put it.
pub record Mapped (t : ThreadTracker) : Type 0 where
  pub device : GuestDevice
  pub published : t.guest.guest_ivshmem ≡ some device
  pub page : device.g2h_page ≡ some g2h_offset

abbrev pub slot : ThreadTracker → ℕ → ℕ
slot t c = t.bar (g2h_slot c)

-- A switch shows 1 for a tracked thread that comes in; otherwise 0 if a tracked one left; otherwise
-- what was there. It changes no other CPU's slot.
pub handle_switch-slot :
    (t : ThreadTracker) (prev next cpu c : ℕ)
    → Mapped t
    → c < nr_guest_ivshmem_msgs
    → slot (handle_switch prev next cpu t) c ≡ (
        if c == cpu
        then (if tracked t next then 1 else (if tracked t prev then 0 else slot t cpu))
        else slot t c)
unfolding handle_switch
handle_switch-slot t prev next cpu c m h = ground (arith, m.published, m.page)

pub removed-slot :
    (t : ThreadTracker) (k : Current) (c : ℕ)
    → Mapped t
    → c < nr_guest_ivshmem_msgs
    → slot (remove_current_tid k t) c
      ≡ (if c == k.cpu then (if tracked t k.tid then 0 else slot t c) else slot t c)
unfolding remove_current_tid
removed-slot t k c m h = ground (arith, m.published, m.page)

-- What every program but the capture and the removal leaves alone.
pub handle_switch-rest :
    (t : ThreadTracker) (prev next cpu : ℕ)
    → ((handle_switch prev next cpu t).omp_threads_map ≡ t.omp_threads_map)
      × ((handle_switch prev next cpu t).guest ≡ t.guest)
unfolding handle_switch
handle_switch-rest t prev next cpu = (ground arith, ground arith)

pub removed-rest :
    (t : ThreadTracker) (k : Current)
    → ((remove_current_tid k t).omp_threads_map ≡ delete ℕ_discrete k.tid t.omp_threads_map)
      × ((remove_current_tid k t).guest ≡ t.guest)
unfolding remove_current_tid
removed-rest t k = (ground arith, ground arith)

pub Mapped-guest : (t u : ThreadTracker) → u.guest ≡ t.guest → Mapped t → Mapped u
Mapped-guest t u e m = record { device = m.device; published = rw e m.published; page = m.page }

pub tracked-insert :
    (t : ThreadTracker) (k tid cpu : ℕ)
    → tracked (record t { omp_threads_map = insert ℕ_discrete tid cpu t.omp_threads_map }) k
      ≡ (if k == tid then true else tracked t k)
tracked-insert t k tid cpu = ground (
  arith,
  lookup-insert_self ℕ_discrete tid cpu t.omp_threads_map,
  lookup-insert_ne ℕ_discrete tid k cpu t.omp_threads_map,
)

pub tracked-delete :
    (t : ThreadTracker) (k tid : ℕ)
    → tracked (record t { omp_threads_map = delete ℕ_discrete tid t.omp_threads_map }) k
      ≡ (if k == tid then false else tracked t k)
tracked-delete t k tid = ground (
  arith,
  lookup-delete_self ℕ_discrete tid t.omp_threads_map,
  lookup-delete_ne ℕ_discrete tid k t.omp_threads_map,
)
