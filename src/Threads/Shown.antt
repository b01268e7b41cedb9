-- ===== src/Threads/Shown.antt =====
-- omp_thread_reg.bpf.c over any schedule of the guest: what each CPU shows to the host.
use phantom_tracker.Common.{
  ℕ, ◌≤◌, ◌<◌, ◌≡◌, ◌≢◌, refl, arith, false, some, if◌then◌else◌, ◌==◌, ℕ_discrete, insert, bit,
}
use phantom_tracker.Abi.{ok, nr_guest_ivshmem_msgs}
use phantom_tracker.Shmem.Host.{Backend, host_ivshmem_g2h_read}
use phantom_tracker.Threads.{
  ThreadTracker, Current, tracked, capture_omp_master_thread, capture_omp_worker_threads,
  remove_current_tid, remove_exited_omp_thread, remove_execed_omp_thread, handle_switch,
}
use phantom_tracker.Shmem.Host.Slots.{g2h_read-eq}
use phantom_tracker.Threads.Slots.{
  Mapped, slot, handle_switch-slot, removed-slot, handle_switch-rest, removed-rest, Mapped-guest,
  tracked-insert, tracked-delete,
}

-- The guest: what the programs keep, and the thread that runs on each CPU. Thread 0 is the idle
-- task, of which every CPU has one.
pub record Guest : Type 0 where
  pub tracker : ThreadTracker
  pub current : ℕ → ℕ

abbrev pub on : Guest → ℕ → Current
on s cpu = record { tid = s.current cpu; cpu = cpu }

-- A CPU switches to a thread that runs nowhere else; a thread enters libgomp; a thread exits, or
-- executes another program.
pub data Step (s : Guest) : Guest → Type 0 where
  switch :
      (cpu next : ℕ)
      → ((c : ℕ) → s.current c ≡ next → next ≡ 0)
      → Step s (record {
        tracker = handle_switch (s.current cpu) next cpu s.tracker;
        current = λ c. if c == cpu then next else s.current c;
      })
  capture_master :
      (cpu : ℕ)
      → s.current cpu ≢ 0
      → Step s (record s { tracker = capture_omp_master_thread (on s cpu) s.tracker })
  capture_worker :
      (cpu : ℕ)
      → s.current cpu ≢ 0
      → Step s (record s { tracker = capture_omp_worker_threads (on s cpu) s.tracker })
  exit : (cpu : ℕ) → Step s (record s { tracker = remove_exited_omp_thread (on s cpu) s.tracker })
  exec : (cpu : ℕ) → Step s (record s { tracker = remove_execed_omp_thread (on s cpu) s.tracker })

-- A slot is 0 or 1, and 1 only if the thread that runs on the CPU is tracked.
pub record Shown (s : Guest) : Type 0 where
  pub mapped : Mapped s.tracker
  pub honest :
      (c : ℕ) → c < nr_guest_ivshmem_msgs → slot s.tracker c ≤ bit (tracked s.tracker (s.current c))
  pub alone : (c d : ℕ) → c ≢ d → s.current c ≡ s.current d → s.current c ≡ 0
  pub idle : tracked s.tracker 0 ≡ false

switch-Shown :
    (s : Guest) (cpu next : ℕ)
    → ((c : ℕ) → s.current c ≡ next → next ≡ 0)
    → Shown s
    → Shown (record {
      tracker = handle_switch (s.current cpu) next cpu s.tracker;
      current = λ c. if c == cpu then next else s.current c;
    })
switch-Shown s cpu next elsewhere h =
    let (same, guest) = handle_switch-rest s.tracker (s.current cpu) next cpu in
    record {
      mapped = Mapped-guest s.tracker _ guest h.mapped;
      honest = λ c l. rw same (
          ground (
            arith,
            handle_switch-slot s.tracker (s.current cpu) next cpu c h.mapped,
            h.honest c,
            h.honest cpu,
          ));
      alone = λ c d n e. ground (arith, h.alone c d, elsewhere c, elsewhere d);
      idle = rw same h.idle;
    }

insert-Shown :
    (s : Guest) (cpu : ℕ)
    → s.current cpu ≢ 0
    → Shown s
    → Shown (record s {
      tracker = record s.tracker {
        omp_threads_map = insert ℕ_discrete (s.current cpu) cpu s.tracker.omp_threads_map;
      };
    })
insert-Shown s cpu busy h = record {
  mapped = Mapped-guest s.tracker _ refl h.mapped;
  honest =
      λ c l. ground (arith, tracked-insert s.tracker (s.current c) (s.current cpu) cpu, h.honest c);
  alone = h.alone;
  idle = ground (arith, tracked-insert s.tracker 0 (s.current cpu) cpu, h.idle);
}

removed-Shown :
    (s : Guest) (cpu : ℕ)
    → Shown s
    → Shown (record s { tracker = remove_current_tid (on s cpu) s.tracker })
removed-Shown s cpu h =
    let (same, guest) = removed-rest s.tracker (on s cpu) in
    record {
      mapped = Mapped-guest s.tracker _ guest h.mapped;
      honest = λ c l. rw same (
          ground (
            arith,
            tracked-delete s.tracker (s.current c) (s.current cpu),
            removed-slot s.tracker (on s cpu) c h.mapped,
            h.honest c,
            h.alone c cpu,
            h.idle,
          ));
      alone = h.alone;
      idle = rw same (ground (arith, tracked-delete s.tracker 0 (s.current cpu), h.idle));
    }

Step-Shown : {s s' : Guest} → Step s s' → Shown s → Shown s'
unfolding capture_omp_master_thread capture_omp_worker_threads remove_exited_omp_thread
    remove_execed_omp_thread
Step-Shown (switch cpu next e) h = switch-Shown _ cpu next e h
Step-Shown (capture_master cpu busy) h = insert-Shown _ cpu busy h
Step-Shown (capture_worker cpu busy) h = insert-Shown _ cpu busy h
Step-Shown (exit cpu) h = removed-Shown _ cpu h
Step-Shown (exec cpu) h = removed-Shown _ cpu h

-- Guests that a schedule reaches from one that shows nothing.
pub data Reach (start : Guest) : Guest → Type 0 where
  begin : Reach start start
  later : {s s' : Guest} → Reach start s → Step s s' → Reach start s'

-- Whatever the schedule, as long as a thread runs on one CPU at a time, and wherever threads exit
-- or execute other programs, each of the first 64 CPUs shows 0 or 1, and 1 only while the thread
-- that runs on it is a tracked OpenMP thread.
pub Reach-Shown : {start s : Guest} → Shown start → Reach start s → Shown s
Reach-Shown h begin = h
Reach-Shown h (later r e) = Step-Shown e (Reach-Shown h r)

-- In a guest where each of the first 64 CPUs shows 1 only for a tracked OpenMP thread, after a
-- switch on one of them the host reads 1 for it if the thread that came in is tracked, and 0 if it
-- is not.
pub g2h_read-switch :
    (s : Guest) (cpu next old : ℕ) (b : Backend)
    → Shown s
    → cpu < nr_guest_ivshmem_msgs
    → b.mem ≡ some (handle_switch (s.current cpu) next cpu s.tracker).bar
    → host_ivshmem_g2h_read (some b) cpu (some old) ≡ (ok, some (bit (tracked s.tracker next)))
g2h_read-switch s cpu next old b h l mapped = ground (
  arith,
  g2h_read-eq b _ mapped cpu old,
  handle_switch-slot s.tracker (s.current cpu) next cpu cpu h.mapped,
  h.honest cpu,
)
