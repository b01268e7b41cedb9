-- ===== src/Tests/Threads.antt =====
-- The thread tracker of the guest and the clock of the host at concrete inputs.
use phantom_tracker.Common.{
  lookup, ℕ_discrete, ◌≤◌, ◌≡◌, refl, true, some, arith, [], ◌∷◌, if◌then◌else◌, ◌==◌,
}
use phantom_tracker.Abi.{ok, zero_memory}
use phantom_tracker.Shmem.Host.{Registry, empty_registry, set_device, host_ivshmem_g2h_read}
use phantom_tracker.Shmem.Host.Slots.{published}
use phantom_tracker.Shmem.Guest.{GuestDevice, unloaded}
use phantom_tracker.Threads.{ThreadTracker, handle_switch}
use phantom_tracker.Threads.Shown.{Guest, Shown, switch, begin, later, Reach-Shown, g2h_read-switch}
use phantom_tracker.Clock.{H2gMsgTimer, h2g_msg_timer_callback}
use phantom_tracker.Clock.Ticks.{callback-published}
use phantom_tracker.Tests.Shmem.{small_backend}

abbrev two_pages_in : GuestDevice
two_pages_in = record {
  pdev = 3;
  g2h_page = some 8192;
  size = 16384;
  h2g_phy_page = 4096;
  h2g_page_size = 4096;
  metadata_phy_page = 0;
}

-- Thread 7 runs OpenMP code; threads 9 and 8 run on the first two CPUs.
abbrev one_worker : ThreadTracker
one_worker = record {
  omp_threads_map = (7, 0) ∷ [];
  guest = record unloaded { guest_ivshmem = some two_pages_in };
  bar = zero_memory;
}

abbrev two_cpus : Guest
two_cpus = record {
  tracker = one_worker;
  current = λ c. if c == 0 then 9 else (if c == 1 then 8 else 0);
}

two_cpus-Shown : Shown two_cpus
unfolding lookup
two_cpus-Shown = record {
  mapped = record { device = two_pages_in; published = refl; page = refl };
  honest = λ c l. ground arith;
  alone = λ c d n e. ground arith;
  idle = ground arith;
}

-- Thread 7 comes to the first CPU.
abbrev switched : Guest
switched = record {
  tracker = handle_switch 9 7 0 one_worker;
  current = λ c. if c == 0 then 7 else two_cpus.current c;
}

Reach-Shown_example : Shown switched
Reach-Shown_example =
    Reach-Shown two_cpus-Shown
      (later {s = two_cpus} begin (switch 0 7 (λ c e. absurd (ground arith))))

g2h_read-switch_example :
    host_ivshmem_g2h_read
      (some (record small_backend { mem = some (handle_switch 9 7 0 one_worker).bar }))
      0
      (some 5)
    ≡ (ok, some 1)
unfolding lookup ℕ_discrete
g2h_read-switch_example =
    g2h_read-switch two_cpus 0 7 5
      (record small_backend { mem = some (handle_switch 9 7 0 one_worker).bar }) two_cpus-Shown
      (omega arith) refl

abbrev one_region : Registry
one_region = set_device empty_registry 1 (some small_backend)

abbrev clock : H2gMsgTimer
clock = record { armed = true; hg_msg = 0; started = 1; index = 63 }

callback-published_example :
    let (t', r') = h2g_msg_timer_callback 5000 clock one_region in
    (1 ≤ t'.index)
    × (t'.index ≤ 63)
    × (r'.devices 1 ≡ some (record small_backend { mem = some (published zero_memory t'.index 5) }))
callback-published_example =
    callback-published 5000 clock one_region small_backend zero_memory refl refl
