-- ===== src/Clock.antt =====
-- pvsched-ebpf/host/h2g_msg_timer/h2g_msg_timer.bpf.c: a timer that publishes the host's clock to the
-- guest, in the history slots in turn.
pub mod Ticks
use phantom_tracker.Common.{
  ℕ, ◌+◌, ◌/◌, ◌≡◌, Bool, true, false, not, if◌then◌else◌, ltb, leb, ◌==◌, some, u32,
}
use phantom_tracker.Abi.{h2g_first_history_slot, nr_host_ivshmem_msgs, Ret, ok, err}
use phantom_tracker.Shmem.Host.{Registry, bpf_host_ivshmem_h2g_write}

-- struct h2g_msg_timer; the timer is set up and armed or not. The value of the one entry of the map is
-- never NULL.
pub record H2gMsgTimer : Type 0 where
  pub armed : Bool
  pub hg_msg : ℕ
  pub started : ℕ
  pub index : ℕ

-- The index of the next message: the two tests after the increment.
abbrev pub next_index : ℕ → ℕ
next_index index =
    let i = u32 (index + 1) in
    let j = if leb nr_host_ivshmem_msgs i then h2g_first_history_slot else i in
    if ltb j h2g_first_history_slot then h2g_first_history_slot else j

-- `now` is the clock in nanoseconds.
unfoldable pub h2g_msg_timer_callback : ℕ → H2gMsgTimer → Registry → H2gMsgTimer × Registry
unfolding bpf_host_ivshmem_h2g_write
h2g_msg_timer_callback now t r =
    let ticked : H2gMsgTimer = record t { index = next_index t.index; hg_msg = now / 1000 } in
    (
      record ticked { armed = true },
      (bpf_host_ivshmem_h2g_write r ticked.index (some ticked.hg_msg)).1,
    )

init_callback : Ret → H2gMsgTimer → Registry → H2gMsgTimer × Registry
unfolding bpf_host_ivshmem_h2g_write
init_callback (err e) t r = (t, r)
init_callback ok t r =
    (record t { armed = true }, (bpf_host_ivshmem_h2g_write r t.index (some t.hg_msg)).1)

init_timer : Ret → Ret → H2gMsgTimer → Registry → H2gMsgTimer × Registry
unfolding init_callback
init_timer (err e) set_callback t r = (t, r)
init_timer ok set_callback t r = init_callback set_callback t r

-- What `bpf_timer_init` and `bpf_timer_set_callback` answer comes first.
unfoldable pub h2g_msg_timer_init : Ret → Ret → H2gMsgTimer → Registry → H2gMsgTimer × Registry
unfolding init_timer
h2g_msg_timer_init init set_callback t r =
    if not (t.started == 0)
    then (t, r)
    else init_timer init set_callback (record t { started = 1; hg_msg = 0; index = 0 }) r
