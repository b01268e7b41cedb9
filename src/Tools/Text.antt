-- ===== src/Tools/Text.antt =====
-- What pvsched-ebpf/host/user/register_vm.c uses of the C library to read text: strstr, and sscanf
-- and atoi on a decimal number. A text is a list of bytes without its NUL.
pub mod Found
pub mod Decimal
use Prim.Native.Char.{code}
use Prim.Native.Nat.{min}
use Prim.Native.String.{String}
use mathlib.Core.Option
use phantom_tracker.Common.{
  ℕ, zero, suc, ◌+◌, ◌-◌, ◌*◌, ◌%◌, ◌^◌, Bool, true, false, ◌&&◌, ◌||◌, Option, none, some, List,
  [], ◌∷◌, ◌==◌, leb, if◌then◌else◌, u32, drop, length,
}

abbrev pub Bytes : Type 0
Bytes = List ℕ

abbrev pub codes : String → Bytes
codes String.[] = []
codes (String.◌∷◌ c s) = code c ∷ codes s

unfoldable pub starts : Bytes → Bytes → Bool
starts [] s = true
starts (k ∷ key) [] = false
starts (k ∷ key) (c ∷ s) = k == c && starts key s

-- strstr, moved behind what it found.
unfoldable pub find_after : Bytes → Bytes → Option Bytes
find_after key [] = if starts key [] then some [] else none
find_after key (c ∷ s) =
    let later = find_after key s in
    if starts key (c ∷ s) then some (drop (length key) (c ∷ s)) else later

unfoldable pub is_space : ℕ → Bool
is_space c = c == 32 || (leb 9 c && leb c 13)

unfoldable pub is_digit : ℕ → Bool
is_digit c = leb b'0' c && leb c b'9'

-- The number that the digits at the front spell behind `n`, none where there is no digit.
unfoldable pub read_digits : Bytes → ℕ → ℕ
read_digits [] n = n
read_digits (c ∷ s) n =
    let more = read_digits s (n * 10 + (c - b'0')) in if is_digit c then more else n

unfoldable pub unsigned_number : Bytes → Option ℕ
unsigned_number [] = none
unsigned_number (c ∷ s) = if is_digit c then some (read_digits (c ∷ s) 0) else none

unfoldable pub skip_space : Bytes → Bytes
skip_space [] = []
skip_space (c ∷ s) = let rest = skip_space s in if is_space c then rest else c ∷ s

-- strtol keeps a number within 64 bits, and the int keeps its low 32 bits.
unfoldable pub int_of : ℕ → ℕ
int_of n = u32 (min n (2 ^ 63 - 1))

unfoldable pub negative_int_of : ℕ → ℕ
negative_int_of n = u32 (2 ^ 32 - u32 (min n (2 ^ 63)))

-- The int of `%d`, as an unsigned number of 32 bits; none where no number stands there.
unfoldable pub signed_number : Bytes → Option ℕ
signed_number [] = none
signed_number (c ∷ s) =
    if c == b'-'
    then Option.map negative_int_of (unsigned_number s)
    else if c == b'+'
    then Option.map int_of (unsigned_number s)
    else Option.map int_of (unsigned_number (c ∷ s))

unfoldable pub scan_int : Bytes → Option ℕ
scan_int s = signed_number (skip_space s)

unfoldable pub or_default : ℕ → Option ℕ → ℕ
or_default d none = d
or_default d (some n) = n

unfoldable pub atoi : Bytes → ℕ
atoi s = or_default 0 (scan_int s)
