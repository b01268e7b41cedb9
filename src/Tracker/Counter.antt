-- ===== src/Tracker/Counter.antt =====
-- pvsched-ebpf/host/ebpf/create_maps/create_maps.bpf.c: the two counters that retry a
-- compare-and-swap. Other CPUs write the same word: `world i n` is what the word becomes by them,
-- between the load of attempt `i` and its compare-and-swap at `2 * i`, and before the next load at
-- `2 * i + 1`.
pub mod Laws
use phantom_tracker.Common.{
  ℕ, zero, suc, ◌+◌, ◌*◌, ◌≡◌, ℤ, pos, negsuc, ◌+ℤ◌, ◌-ℤ◌, leb_ℤ, eqb_ℤ, if◌then◌else◌, not,
}

abbrev pub World : Type 0
World = ℕ → ℤ → ℤ

-- No other CPU touches the word.
abbrev pub quiet : World
quiet i n = n

abbrev pub max_attempts : ℕ
max_attempts = 24

-- The result is the value returned, then the word.
pub dec_attempts : World → ℕ → ℕ → ℤ → ℤ × ℤ
dec_attempts world zero i p = (p, p)
dec_attempts world (suc left) i p =
    let seen = world (i + i) p in
    let retry = dec_attempts world left (i + 1) (world (i + i + 1) seen) in
    if leb_ℤ p (pos 0) then (p, p) else (if eqb_ℤ seen p then (p -ℤ pos 1, p -ℤ pos 1) else retry)

pub atomic_dec_if_pos : World → ℤ → ℤ × ℤ
atomic_dec_if_pos world p = dec_attempts world max_attempts 0 p

pub inc_attempts : World → ℤ → ℕ → ℕ → ℤ → ℤ × ℤ
inc_attempts world ceil_val zero i p = (p, p)
inc_attempts world ceil_val (suc left) i p =
    let seen = world (i + i) p in
    let retry = inc_attempts world ceil_val left (i + 1) (world (i + i + 1) seen) in
    if leb_ℤ ceil_val p then (p, p) else (if eqb_ℤ seen p then (p +ℤ pos 1, p +ℤ pos 1) else retry)

pub atomic_inc_if_lt_ceil : World → ℤ → ℕ → ℤ × ℤ
atomic_inc_if_lt_ceil world p ceil_val = inc_attempts world (pos ceil_val) max_attempts 0 p
