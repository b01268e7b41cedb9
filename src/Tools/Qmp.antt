-- ===== src/Tools/Qmp.antt =====
-- pvsched-ebpf/host/user/register_vm.c: `qmp_read_line` and `qmp_send_recv`, the dialogue with QEMU.
pub mod Bounds
pub mod Lines
use phantom_tracker.Common.{
  ℕ, zero, suc, ◌+◌, ◌-◌, ◌^◌, Bool, true, not, Option, none, some, List, [], ◌∷◌, ltb, ◌==◌,
  if◌then◌else◌, u64,
}
use phantom_tracker.Tools.Text.{Bytes}

-- A `char` array: a write outside it is not defined.
pub record CharBuf : Type 0 where
  pub size : ℕ
  pub cell : ℕ → ℕ

abbrev pub with_byte : CharBuf → ℕ → ℕ → CharBuf
with_byte b i c = record b { cell = λ j. if j == i then c else b.cell j }

unfoldable pub put : CharBuf → ℕ → ℕ → Option CharBuf
put b i c = if ltb i b.size then some (with_byte b i c) else none

unfoldable pub string_from : ℕ → (ℕ → ℕ) → ℕ → Bytes
string_from zero cell i = []
string_from (suc k) cell i =
    let rest = string_from k cell (i + 1) in if cell i == 0 then [] else cell i ∷ rest

-- The bytes in front of the first NUL.
unfoldable pub text_of : CharBuf → Bytes
unfolding string_from
text_of b = string_from b.size b.cell 0

-- What `read(fd, &c, 1)` answers.
pub data Read : Type 0 where
  byte : ℕ → Read
  end_of_file : Read
  read_error : Read

-- The answers to come; behind them a read waits. The end of file is there for good.
abbrev pub Socket : Type 0
Socket = List Read

pub data Line : Type 0 where
  line : ℕ → CharBuf → Socket → Line
  failed : CharBuf → Socket → Line
  overrun : Line
  waiting : Line

unfoldable pub end_line : ℕ → CharBuf → Socket → Line
end_line total buf s = elim (put buf total 0) [ none ↦ overrun | some b ↦ line total b s ]

-- `total` stays below `limit`, so it does not wrap.
unfoldable pub read_loop : Socket → ℕ → ℕ → CharBuf → Line
unfolding end_line put
read_loop [] total limit buf = if not (ltb total limit) then end_line total buf [] else waiting
read_loop (read_error ∷ s) total limit buf =
    if not (ltb total limit) then end_line total buf (read_error ∷ s) else failed buf s
read_loop (end_of_file ∷ s) total limit buf = end_line total buf (end_of_file ∷ s)
read_loop (byte c ∷ s) total limit buf =
    if not (ltb total limit) then end_line total buf (byte c ∷ s) else elim (put buf total c) [
      | none ↦ overrun
      | some b ↦
          (let more = read_loop s (total + 1) limit b in
            if c == b'\n' then end_line (total + 1) b s else more)
    ]

-- `bufsz - 1` in size_t.
unfoldable pub qmp_read_line : Socket → CharBuf → ℕ → Line
unfolding read_loop
qmp_read_line fd buf bufsz = read_loop fd 0 (u64 (bufsz + (2 ^ 64 - 1))) buf

-- `write` is what the call answers, true where it succeeds.
unfoldable pub qmp_send_recv : Bool → Socket → CharBuf → ℕ → Line
unfolding qmp_read_line
qmp_send_recv write fd buf bufsz = if not write then failed buf fd else qmp_read_line fd buf bufsz
