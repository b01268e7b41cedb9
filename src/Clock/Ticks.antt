-- ===== src/Clock/Ticks.antt =====
-- h2g_msg_timer.bpf.c: the ticks, the first message, and an initialization that fails.
use phantom_tracker.Common.{ℕ, ◌/◌, ◌≤◌, ◌≡◌, arith, false, some}
use phantom_tracker.Abi.{Memory, Ret, ok, err, Errno}
use phantom_tracker.Shmem.Host.{
  Backend, Registry, bpf_host_ivshmem_h2g_write, host_ivshmem_h2g_write_msg,
}
use phantom_tracker.Shmem.Host.Slots.{published, h2g_write-eq}
use phantom_tracker.Clock.{H2gMsgTimer, next_index, h2g_msg_timer_callback, h2g_msg_timer_init}

-- With a mapped region at minor 1, a tick from any index, out of range too, goes to a history slot;
-- the host accepts it, and the slot and the latest slot then hold the clock in microseconds.
pub callback-published :
    (now : ℕ) (t : H2gMsgTimer) (r : Registry) (b : Backend) (mem : Memory)
    → r.devices 1 ≡ some b
    → b.mem ≡ some mem
    → let (t', r') = h2g_msg_timer_callback now t r in
      (1 ≤ t'.index)
      × (t'.index ≤ 63)
      × (r'.devices 1 ≡ some (record b { mem = some (published mem t'.index (now / 1000)) }))
unfolding h2g_msg_timer_callback bpf_host_ivshmem_h2g_write
callback-published now t r b mem there mapped = (
  ground arith,
  ground arith,
  ground (arith, h2g_write-eq b mem mapped (next_index t.index) (now / 1000)),
)

-- The message that the initialization writes never arrives, whatever the registry holds: its slot
-- is the one that the host refuses.
pub init_publishes_nothing :
    (init set_callback : Ret) (t : H2gMsgTimer) (r : Registry) (i : ℕ)
    → (h2g_msg_timer_init init set_callback t r).1.devices i ≡ r.devices i
unfolding h2g_msg_timer_init bpf_host_ivshmem_h2g_write host_ivshmem_h2g_write_msg
init_publishes_nothing init set_callback t r i = ground arith

-- If the timer is not armed and cannot be set up, no later context switch arms it, even when
-- nothing fails any more: the claim on the timer is not given back.
pub init_once :
    (e : Errno) (set_callback : Ret) (t : H2gMsgTimer) (r : Registry)
    → t.armed ≡ false
    → let (t', r') = h2g_msg_timer_init (err e) set_callback t r in
      (h2g_msg_timer_init ok ok t' r').0.armed ≡ false
unfolding h2g_msg_timer_init
init_once e set_callback t r off = ground arith
