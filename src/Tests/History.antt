-- ===== src/Tests/History.antt =====
-- A run of the tracker on a VM that the tool has registered.
use phantom_tracker.Common.{◌≡◌, refl, arith, none, List, [], ◌∷◌, lookup}
use phantom_tracker.Tracker.Register.{vm_key, register_vm, setup_vm_maps, add_vcpus, pad}
use phantom_tracker.Tracker.Register.Apart.{IsShort}
use phantom_tracker.Tracker.Timer.{Readings}
use phantom_tracker.Tracker.Timer.Seen.{Mapped}
use phantom_tracker.Tracker.History.{TrackerEvent, switched, called, call, run_tracker, Fits}
use phantom_tracker.Tracker.History.Sampled.{Sampled}
use phantom_tracker.Tracker.History.Published.{Shows}
use phantom_tracker.Tools.RegisterVm.{register_and_setup, cleanup_fd, cleanup_buff, exit}
use phantom_tracker.Tools.RegisterVm.Registers.{vcpus_of, connected}
use phantom_tracker.Tools.RegisterVm.Watched.{AllShort, register_and_setup-published}
use phantom_tracker.Tests.Register.{name}
use phantom_tracker.Tests.RegisterVm.{all_up, process, sock, ready}
use phantom_tracker.Tests.Tools.{entries}
use phantom_tracker.Tests.Tracker.{two_vcpus, sleeps}
use phantom_tracker.Tests.Timer.{tick}

name-IsShort : IsShort name
name-IsShort = record { string = refl; short = omega arith }

two_vcpus-AllShort : AllShort two_vcpus.vms
unfolding lookup vm_key pad
two_vcpus-AllShort n v e = (name, name-IsShort, ground arith)

registers :
    register_and_setup all_up sock name 2 (vcpus_of entries) (connected process) ≡ exit 0 ready
unfolding register_and_setup register_vm setup_vm_maps add_vcpus cleanup_fd cleanup_buff
registers = refl

two_vcpus-Mapped : Mapped two_vcpus
two_vcpus-Mapped = record { backend = _; mem = _; there = refl; mapped = refl }

-- A tick, a thread that leaves its CPU, and another tick.
abbrev events : List TrackerEvent
events = called tick none (vm_key name) ∷ switched sleeps ∷ []

abbrev next_tick : Readings
next_tick = record { end_time = 150; start_time = 151; ts = 152 }

events-Fits : Fits (vm_key name) 2 150 events 0 0
events-Fits = ((ground arith, omega arith, ground arith), (λ i n h. h, λ i n h. h), omega arith)

register_and_setup-published_example :
    let t = call next_tick none (vm_key name) (run_tracker events ready.tracker) in
    Sampled (vm_key name) 2 t 151 1 × Shows 152 2 t
register_and_setup-published_example =
    register_and_setup-published all_up sock name 2 (vcpus_of entries) (connected process) ready
      name-IsShort two_vcpus-AllShort (omega arith) registers events next_tick none two_vcpus-Mapped
      events-Fits (omega arith) (omega arith)
