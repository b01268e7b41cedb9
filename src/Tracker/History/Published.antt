-- ===== src/Tracker/History/Published.antt =====
-- create_maps.bpf.c, timer.bpf.c and host_ivshmem.c: the message that the guest finds after any run
-- of switches and callbacks.
use phantom_tracker.Common.{
  ℕ, ◌*◌, ◌/◌, ◌%◌, ◌^◌, ◌≤◌, ◌<◌, ◌≡◌, refl, arith, Option, some, List, [], ◌∷◌, Option-cases, inl,
  inr,
}
use phantom_tracker.Abi.{Memory, h2g_latest_slot}
use phantom_tracker.Shmem.Host.{Backend, h2g_slot}
use phantom_tracker.Tracker.State.{Name, GlobalState, Tracker}
use phantom_tracker.Tracker.Watermark.Fields.{watermark-fields}
use phantom_tracker.Tracker.Switch.{phantom_switch_handler}
use phantom_tracker.Tracker.Switch.Samples.{find}
use phantom_tracker.Tracker.Switch.Refines.{handler-shmem}
use phantom_tracker.Tracker.Timer.{Readings, swap_buffers, idle_avg_of}
use phantom_tracker.Tracker.Timer.Seen.{callback_fn-watermark, Mapped, callback_fn-Mapped}
use phantom_tracker.Tracker.History.{TrackerEvent, switched, called, call, run_tracker, Fits}
use phantom_tracker.Tracker.History.Sampled.{Sampled}
use phantom_tracker.Tracker.History.Averages.{own-call, run_tracker-Sampled, swap-average}

handler-Mapped : (t u : Tracker) → u.shmem ≡ t.shmem → Mapped t → Mapped u
handler-Mapped t u e m = record {
  backend = m.backend;
  mem = m.mem;
  there = rw e m.there;
  mapped = m.mapped;
}

call-Mapped :
    (k : Readings) (g : Option GlobalState) (name : Name) (t : Tracker)
    → Mapped t
    → Mapped (call k g name t)
unfolding call
call-Mapped k g name t m = elim (Option-cases (find t name)) [
  | inl e ↦ rw (e, call) m
  | inr (vm, e) ↦ rw (e, call) (callback_fn-Mapped k g t name vm m)
]

run_tracker-Mapped : (es : List TrackerEvent) (t : Tracker) → Mapped t → Mapped (run_tracker es t)
unfolding run_tracker
run_tracker-Mapped [] t m = m
run_tracker-Mapped (switched e ∷ es) t m =
    run_tracker-Mapped es _ (handler-Mapped t (phantom_switch_handler e t) (handler-shmem e t) m)
run_tracker-Mapped (called k g name ∷ es) t m = run_tracker-Mapped es _ (call-Mapped k g name t m)

-- What the guest reads in the latest slot: the time of a callback, and an average that does not
-- exceed the number of vCPUs.
abbrev pub Shows : ℕ → ℕ → Tracker → Type 0
Shows ts nb t =
    (b : Backend) × (mem : Memory) × (t.shmem.devices 1 ≡ some b)
    × (b.mem ≡ some mem)
    × (let w = mem (h2g_slot h2g_latest_slot) in
        (w / 2 ^ 32 ≡ ts % 2 ^ 32) × (w / 2 ^ 16 % 2 ^ 16 ≤ nb))

call-Shows :
    (k : Readings) (g : Option GlobalState) (name : Name) (nb : ℕ) (t : Tracker) (n : ℕ)
    → k.end_time < 2 ^ 64
    → nb * k.end_time < 2 ^ 64
    → Sampled name nb t k.end_time n
    → Mapped t
    → Shows k.ts nb (call k g name t)
unfolding call
call-Shows k g name nb t n stamped small s m =
    let (there, latest, slot) =
      callback_fn-watermark k g t name s.vm s.buff_1 s.buff_2 m.backend m.mem s.located.one
        s.located.two m.there m.mapped in
    let avg = (swap_buffers k s.vm s.buff_1 s.buff_2).avg in
    let below : avg ≤ nb =
      swap-average nb s.vm s.buff_1 s.buff_2 k.end_time n k s.collects (omega arith) stamped
        small in
    let (whole, time, phantom, idle) = watermark-fields k.ts avg (idle_avg_of g) in
    rw (s.located.found, call)
      (_, _, there, refl, (rw (latest, time) refl, rw (latest, phantom) (omega arith)))

-- Any run of context switches and callbacks that is in order of time, in which other CPUs keep the
-- VM's counter between zero and its number of vCPUs and a callback of the VM comes before 2^32
-- samples, keeps the VM's samples in order, also where its active buffer has long been full. A
-- callback of the VM then opens a fresh buffer, and the guest reads in the latest slot the time of
-- that callback and a phantom average that does not exceed the number of vCPUs. At the start the
-- VM's buffers hold samples like that, under keys of their own, and the region of minor 1 is mapped.
-- The end of the last span is below 2^64, and so is its product with the number of vCPUs.
pub run_tracker-published :
    (name : Name) (nb : ℕ) (es : List TrackerEvent) (t : Tracker) (now n : ℕ) (k : Readings)
    (g : Option GlobalState)
    → Fits name nb k.end_time es n now
    → k.end_time < 2 ^ 64
    → nb * k.end_time < 2 ^ 64
    → Sampled name nb t now n
    → Mapped t
    → let t' = call k g name (run_tracker es t) in
      Sampled name nb t' k.start_time 1 × Shows k.ts nb t'
run_tracker-published name nb es t now n k g f stamped small s m =
    let (last, sampled) = run_tracker-Sampled name nb k.end_time es t now n f s in
    (
      own-call name nb k g _ k.end_time last sampled,
      call-Shows k g name nb _ last stamped small sampled (run_tracker-Mapped es t m),
    )
