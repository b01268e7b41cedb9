-- ===== src/Tracker/Timer/Seen.antt =====
-- timer.bpf.c on a region of host_ivshmem.c: what the guest finds after a callback.
use phantom_tracker.Common.{ℕ, ◌≡◌, refl, arith, Option, some, Option-cases, inl, inr, lookup}
use phantom_tracker.Abi.{Memory, h2g_latest_slot}
use phantom_tracker.Shmem.Host.{Backend, Registry, h2g_slot, bpf_host_ivshmem_h2g_write}
use phantom_tracker.Shmem.Host.Slots.{published, published-slots, h2g_write-eq}
use phantom_tracker.Tracker.State.{Name, Name-discrete, Vm, Buffer, GlobalState, Tracker}
use phantom_tracker.Tracker.Keys.{digit_1, digit_2, collection_key}
use phantom_tracker.Tracker.Watermark.{next_history_slot, watermark, write_watermark}
use phantom_tracker.Tracker.Timer.{Readings, swap_buffers, idle_avg_of, publish, callback_fn}

module _ (r : Registry) (b : Backend) (mem : Memory) (there : r.devices 1 ≡ some b)
    (mapped : b.mem ≡ some mem) where
  written :
      (vm : Vm) (ts phantom_avg idle_avg : ℕ)
      → let slot = (next_history_slot vm).0 in
        (write_watermark r slot ts phantom_avg idle_avg).devices 1
        ≡ some (record b { mem = some (published mem slot (watermark ts phantom_avg idle_avg)) })
  unfolding write_watermark next_history_slot bpf_host_ivshmem_h2g_write
  written vm ts phantom_avg idle_avg = ground (
    arith,
    there,
    h2g_write-eq b mem mapped (next_history_slot vm).0 (watermark ts phantom_avg idle_avg),
  )

-- A callback for a VM whose two buffers are there publishes one message to the region of minor 1:
-- the guest finds it in the latest slot and in the VM's next history slot, and it packs the time,
-- the average of the buffer that ended, and the idle average. Nothing else of the region changes.
pub callback_fn-watermark :
    (k : Readings) (gstate : Option GlobalState) (t : Tracker) (name : Name) (vm : Vm)
    (buff_1 buff_2 : Buffer) (b : Backend) (mem : Memory)
    → lookup Name-discrete (collection_key digit_1 name) t.map_registry ≡ some buff_1
    → lookup Name-discrete (collection_key digit_2 name) t.map_registry ≡ some buff_2
    → t.shmem.devices 1 ≡ some b
    → b.mem ≡ some mem
    → let s = swap_buffers k vm buff_1 buff_2 in
      let slot = (next_history_slot s.vm).0 in
      let w = watermark k.ts s.avg (idle_avg_of gstate) in
      ((callback_fn k gstate t name vm).shmem.devices 1
        ≡ some (record b { mem = some (published mem slot w) }))
      × (published mem slot w (h2g_slot h2g_latest_slot) ≡ w)
      × (published mem slot w (h2g_slot slot) ≡ w)
unfolding callback_fn publish
callback_fn-watermark k gstate t name vm buff_1 buff_2 b mem one two there mapped =
    let s = swap_buffers k vm buff_1 buff_2 in
    let w = watermark k.ts s.avg (idle_avg_of gstate) in
    (
      rw (one, callback_fn)
          (rw (two, callback_fn)
            (written t.shmem b mem there mapped s.vm k.ts s.avg (idle_avg_of gstate))),
      ground (arith, published-slots mem (next_history_slot s.vm).0 w h2g_latest_slot),
      ground (arith, published-slots mem (next_history_slot s.vm).0 w (next_history_slot s.vm).0),
    )

-- A backend stands at minor 1, and its region is mapped.
pub record Mapped (t : Tracker) : Type 0 where
  pub backend : Backend
  pub mem : Memory
  pub there : t.shmem.devices 1 ≡ some backend
  pub mapped : backend.mem ≡ some mem

-- A callback leaves it so.
pub callback_fn-Mapped :
    (k : Readings) (g : Option GlobalState) (t : Tracker) (name : Name) (vm : Vm)
    → Mapped t
    → Mapped (callback_fn k g t name vm)
unfolding callback_fn
callback_fn-Mapped k g t name vm m =
    elim (Option-cases (lookup Name-discrete (collection_key digit_1 name) t.map_registry)) [
      | inl e ↦ rw (e, callback_fn) m
      | inr (b1, e) ↦
          elim (Option-cases (lookup Name-discrete (collection_key digit_2 name) t.map_registry)) [
            | inl f ↦ rw (e, callback_fn, f) m
            | inr (b2, f) ↦
                (let (there, latest, slot) =
                    callback_fn-watermark k g t name vm b1 b2 m.backend m.mem e f m.there
                      m.mapped in
                  record { backend = _; mem = _; there = there; mapped = refl })
          ]
    ]
