-- ===== src/Tools/Qmp/Lines.antt =====
-- pvsched-ebpf/host/user/register_vm.c: `qmp_read_line` on a whole line.
use phantom_tracker.Common.{
  ℕ, zero, suc, ◌+◌, ◌-◌, ◌^◌, ◌<◌, ◌≡◌, ap, ◌∙◌, arith, Bool, true, false, not, ◌&&◌, [], ◌∷◌,
  ◌++◌, ◌==◌, u64, length,
}
use phantom_tracker.Tools.Text.{Bytes}
use phantom_tracker.Tools.Qmp.{
  CharBuf, with_byte, string_from, text_of, byte, Socket, line, end_line, read_loop, qmp_read_line,
}
use phantom_tracker.Tools.Qmp.Bounds.{put-inside}

-- The bytes of a text arrive, then `s`.
abbrev pub sent : Bytes → Socket → Socket
sent [] s = s
sent (c ∷ cs) s = byte c ∷ sent cs s

-- A text of one line that holds no NUL.
abbrev pub is_plain : Bytes → Bool
is_plain [] = true
is_plain (c ∷ cs) = not (c == b'\n') && not (c == 0) && is_plain cs

abbrev pub newline : Bytes → Bytes
newline cs = cs ++ (b'\n' ∷ [])

-- The array holds a text from an index on, and a NUL behind it.
Holds : (ℕ → ℕ) → ℕ → Bytes → Type 0
Holds cell i [] = cell i ≡ 0
Holds cell i (c ∷ cs) = (cell i ≡ c) × Holds cell (i + 1) cs

string_from-Holds :
    (k : ℕ) (cell : ℕ → ℕ) (i : ℕ) (cs : Bytes)
    → is_plain cs ≡ true
    → Holds cell i (newline cs)
    → length cs + 1 < k
    → string_from k cell i ≡ newline cs
unfolding string_from Holds
string_from-Holds zero cell i cs plain held room = absurd (omega arith)
string_from-Holds (suc zero) cell i cs plain held room = absurd (omega arith)
string_from-Holds (suc (suc k)) cell i [] plain (here, nul) room = ground (arith, here, nul)
string_from-Holds (suc k) cell i (c ∷ cs) plain (here, held) room =
    ground (arith, here, string_from-Holds k cell (i + 1) cs (ground arith) held)

read_loop-next :
    (c : ℕ) (s : Socket) (total limit : ℕ) (b : CharBuf)
    → (c == b'\n') ≡ false
    → total < limit
    → total < b.size
    → read_loop (byte c ∷ s) total limit b ≡ read_loop s (total + 1) limit (with_byte b total c)
unfolding read_loop
read_loop-next c s total limit b other more room = ground (arith, other, put-inside b total c)

read_loop-line :
    (cs : Bytes) (rest : Socket) (total bufsz : ℕ) (b : CharBuf)
    → is_plain cs ≡ true
    → b.size ≡ bufsz
    → total + length cs + 1 < bufsz
    → (b' : CharBuf) × (read_loop (sent (newline cs) rest) total (bufsz - 1) b
        ≡ line (total + length cs + 1) b' rest)
      × (b'.size ≡ bufsz)
      × Holds b'.cell total (newline cs)
      × ((j : ℕ) → j < total → b'.cell j ≡ b.cell j)
unfolding read_loop Holds end_line
read_loop-line [] rest total bufsz b plain size room =
    let b1 = with_byte b total b'\n' in
    (
      with_byte b1 (total + 1) 0,
      ground (arith, put-inside b total b'\n', put-inside b1 (total + 1) 0),
      size,
      (ground arith, ground arith),
      λ j lt. ground arith,
    )
read_loop-line (c ∷ cs) rest total bufsz b plain size room =
    let b1 = with_byte b total c in
    let (b', run, size', held, same) =
      read_loop-line cs rest (total + 1) bufsz b1 (ground arith) size (omega arith) in
    (
      b',
      read_loop-next c (sent (newline cs) rest) total (bufsz - 1) b (ground arith) (omega arith)
            (omega arith)
          ∙ run
          ∙ ap (λ (n : ℕ). line n b' rest) (omega arith),
      size',
      (ground (arith, same total), held),
      λ j lt. ground (arith, same j),
    )

-- A line without NUL that fits in the buffer is read whole and as it was sent, up to its newline,
-- and what follows it stays in the socket.
pub qmp_read_line-newline :
    (cs : Bytes) (rest : Socket) (bufsz : ℕ) (b : CharBuf)
    → is_plain cs ≡ true
    → b.size ≡ bufsz
    → length cs + 1 < bufsz
    → bufsz < 2 ^ 64
    → (b' : CharBuf) × (qmp_read_line (sent (newline cs) rest) b bufsz
        ≡ line (length cs + 1) b' rest)
      × (b'.size ≡ bufsz)
      × (text_of b' ≡ newline cs)
unfolding qmp_read_line text_of
qmp_read_line-newline cs rest bufsz b plain size room fits =
    let limit : u64 (bufsz + (2 ^ 64 - 1)) ≡ bufsz - 1 = omega arith in
    let (b', run, size', held, _) = read_loop-line cs rest 0 bufsz b plain size (omega arith) in
    (
      b',
      ap (λ (l : ℕ). read_loop (sent (newline cs) rest) 0 l b) limit
          ∙ run
          ∙ ap (λ (n : ℕ). line n b' rest) (omega arith),
      size',
      string_from-Holds b'.size b'.cell 0 cs plain held (omega arith),
    )
