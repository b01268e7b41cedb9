-- ===== src/Tools/Qmp/Bounds.antt =====
-- pvsched-ebpf/host/user/register_vm.c: `qmp_read_line` writes inside its buffer.
use mathlib.Core.Bool.{false≢true}
use phantom_tracker.Common.{
  ℕ, Bool, true, false, refl, ◌+◌, ◌-◌, ◌^◌, ◌<◌, ◌≡◌, arith, some, [], ◌∷◌, ltb, ◌==◌, u64,
  Bool-cases, inl, inr,
}
use phantom_tracker.Tools.Qmp.{
  CharBuf, with_byte, put, byte, end_of_file, read_error, Socket, Line, line, failed, end_line,
  read_loop, qmp_read_line,
}

-- The peer closes the connection in the end.
unfoldable pub closes : Socket → Bool
closes [] = false
closes (end_of_file ∷ s) = true
closes (read_error ∷ s) = closes s
closes (byte c ∷ s) = closes s

-- The outcomes of a read that stays inside a buffer of `bufsz` bytes and does not wait for ever: a
-- string that ends in it, or a failed read.
pub data IsInside (bufsz : ℕ) : Line → Type 0 where
  inside :
      {n : ℕ} {b : CharBuf} {s : Socket}
      → n < bufsz
      → b.size ≡ bufsz
      → b.cell n ≡ 0
      → closes s ≡ true
      → IsInside bufsz (line n b s)
  stopped : {b : CharBuf} {s : Socket} → b.size ≡ bufsz → IsInside bufsz (failed b s)

pub put-inside : (b : CharBuf) (i c : ℕ) → i < b.size → put b i c ≡ some (with_byte b i c)
unfolding put
put-inside b i c h = ground arith

end_line-IsInside :
    (total bufsz : ℕ) (b : CharBuf) (s : Socket)
    → b.size ≡ bufsz
    → total < bufsz
    → closes s ≡ true
    → IsInside bufsz (end_line total b s)
unfolding end_line
end_line-IsInside total bufsz b s size h shut =
    rw (end_line, put-inside b total 0 (omega arith)) (inside h size (ground arith) shut)

read_loop-IsInside :
    (fd : Socket) (total bufsz : ℕ) (b : CharBuf)
    → b.size ≡ bufsz
    → total < bufsz
    → closes fd ≡ true
    → IsInside bufsz (read_loop fd total (bufsz - 1) b)
unfolding read_loop closes
read_loop-IsInside [] total bufsz b size h shut = absurd (false≢true shut)
read_loop-IsInside (read_error ∷ s) total bufsz b size h shut =
    elim (Bool-cases (ltb total (bufsz - 1))) [
      | inl e ↦ rw e (stopped size)
      | inr e ↦ rw e (end_line-IsInside total bufsz b (read_error ∷ s) size h shut)
    ]
read_loop-IsInside (end_of_file ∷ s) total bufsz b size h shut =
    end_line-IsInside total bufsz b (end_of_file ∷ s) size h refl
read_loop-IsInside (byte c ∷ s) total bufsz b size h shut =
    elim (Bool-cases (ltb total (bufsz - 1))) [
      | inr e ↦ rw e (end_line-IsInside total bufsz b (byte c ∷ s) size h shut)
      | inl e ↦
          (let b' = with_byte b total c in
            let room : total + 1 < bufsz = ground arith in
            rw (e, put-inside b total c (omega arith))
              (elim (Bool-cases (c == b'\n')) [
                | inl nl ↦ rw nl (end_line-IsInside (total + 1) bufsz b' s size room shut)
                | inr other ↦ rw other (read_loop-IsInside s (total + 1) bufsz b' size room shut)
              ]))
    ]

-- With a buffer of `bufsz` bytes, at least one, whatever the socket sends before it is closed:
-- nothing is written outside the buffer, no read waits for ever, and a line that succeeds returns fewer than `bufsz` bytes and leaves a NUL
-- behind them.
pub qmp_read_line-IsInside :
    (fd : Socket) (b : CharBuf) (bufsz : ℕ)
    → b.size ≡ bufsz
    → 0 < bufsz
    → bufsz < 2 ^ 64
    → closes fd ≡ true
    → IsInside bufsz (qmp_read_line fd b bufsz)
unfolding qmp_read_line
qmp_read_line-IsInside fd b bufsz size some_room fits shut =
    let limit : u64 (bufsz + (2 ^ 64 - 1)) ≡ bufsz - 1 = omega arith in
    rw limit (read_loop-IsInside fd 0 bufsz b size some_room shut)
