-- ===== src/Tracker/Counter/Laws.antt =====
-- create_maps.bpf.c: the retrying counters, undisturbed and among other CPUs.
use phantom_tracker.Common.{
  ℕ, zero, suc, ◌+◌, ◌-◌, ◌≡◌, ℤ, pos, ◌≤ℤ◌, eqb_ℤ_refl, if◌then◌else◌, arith, ltb,
}
use phantom_tracker.Tracker.Counter.{
  World, quiet, dec_attempts, inc_attempts, atomic_dec_if_pos, atomic_inc_if_lt_ceil,
}

dec_attempts-quiet :
    (left i n : ℕ)
    → dec_attempts quiet (suc left) i (pos n)
      ≡ (if ltb 0 n then (pos (n - 1), pos (n - 1)) else (pos n, pos n))
unfolding dec_attempts
dec_attempts-quiet left i n = rw (eqb_ℤ_refl (pos n)) (ground arith)

inc_attempts-quiet :
    (left i n c : ℕ)
    → inc_attempts quiet (pos c) (suc left) i (pos n)
      ≡ (if ltb n c then (pos (n + 1), pos (n + 1)) else (pos n, pos n))
unfolding inc_attempts
inc_attempts-quiet left i n c = rw (eqb_ℤ_refl (pos n)) (ground arith)

-- Undisturbed, the first attempt counts down, and stops at zero.
pub dec-quiet :
    (n : ℕ)
    → atomic_dec_if_pos quiet (pos n)
      ≡ (if ltb 0 n then (pos (n - 1), pos (n - 1)) else (pos n, pos n))
unfolding atomic_dec_if_pos
dec-quiet n = dec_attempts-quiet 23 0 n

-- Undisturbed, the first attempt counts up, and stops at the ceiling.
pub inc-quiet :
    (n c : ℕ)
    → atomic_inc_if_lt_ceil quiet (pos n) c
      ≡ (if ltb n c then (pos (n + 1), pos (n + 1)) else (pos n, pos n))
unfolding atomic_inc_if_lt_ceil
inc-quiet n c = inc_attempts-quiet 23 0 n c

-- A count between zero and a ceiling.
abbrev pub InRange : ℕ → ℤ → Type 0
InRange c n = (pos 0 ≤ℤ n) × (n ≤ℤ pos c)

-- Other CPUs that keep to the range.
abbrev pub Respects : ℕ → World → Type 0
Respects c world = (i : ℕ) (n : ℤ) → InRange c n → InRange c (world i n)

dec_attempts-InRange :
    (c : ℕ) (world : World) (left i : ℕ) (p : ℤ)
    → Respects c world
    → InRange c p
    → InRange c (dec_attempts world left i p).0 × InRange c (dec_attempts world left i p).1
unfolding dec_attempts
dec_attempts-InRange c world zero i p w h = (h, h)
dec_attempts-InRange c world (suc left) i p w h = ground (
  arith,
  dec_attempts-InRange c world left (i + 1) (world (i + i + 1) (world (i + i) p)) w
      (w (i + i + 1) (world (i + i) p) (w (i + i) p h)),
)

inc_attempts-InRange :
    (c : ℕ) (world : World) (left i : ℕ) (p : ℤ)
    → Respects c world
    → InRange c p
    → InRange c (inc_attempts world (pos c) left i p).0
      × InRange c (inc_attempts world (pos c) left i p).1
unfolding inc_attempts
inc_attempts-InRange c world zero i p w h = (h, h)
inc_attempts-InRange c world (suc left) i p w h = ground (
  arith,
  inc_attempts-InRange c world left (i + 1) (world (i + i + 1) (world (i + i) p)) w
      (w (i + i + 1) (world (i + i) p) (w (i + i) p h)),
)

-- Whatever other CPUs do within the range from zero to the ceiling, both counters stay in it: the
-- value that they return and the word that they leave. So does the counter that runs out of
-- attempts.
pub counters-InRange :
    (c : ℕ) (world : World) (p : ℤ)
    → Respects c world
    → InRange c p
    → InRange c (atomic_dec_if_pos world p).0
      × InRange c (atomic_dec_if_pos world p).1
      × InRange c (atomic_inc_if_lt_ceil world p c).0
      × InRange c (atomic_inc_if_lt_ceil world p c).1
unfolding atomic_dec_if_pos atomic_inc_if_lt_ceil
counters-InRange c world p w h =
    let (d0, d1) = dec_attempts-InRange c world 24 0 p w h in
    let (i0, i1) = inc_attempts-InRange c world 24 0 p w h in (d0, d1, i0, i1)
