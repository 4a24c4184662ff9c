-- ===== src/Base/Numerals.antt =====
-- Numbers as text: `std::to_string`, `<<` of a number, and `strtoul`, `strtoull` and `strtoll` to
-- base 10 on a platform with a 64-bit `long`.
pub mod Printed
use Prim.Native.Nat.{ℕ, zero, suc, ◌+◌, ◌-◌, ◌*◌, ◌/◌, ◌%◌, ◌^◌}
use mathlib.Core.Bool.{Bool, true, false, not, ◌&&◌, ◌||◌}
use mathlib.Core.Option.{Option, none, some}
use mathlib.Core.List.{[], ◌∷◌, ◌++◌}
use kama_asyn_log_system_clo.Base.Tests.{ltb, leb, ◌==◌, if◌then◌else◌}
use kama_asyn_log_system_clo.Base.Text.{Bytes}

-- A number below `10 ^ fuel`.
unfoldable pub decimal_from : ℕ → ℕ → Bytes
decimal_from zero n = []
decimal_from (suc fuel) n =
    let rest = decimal_from fuel (n / 10) in
    if ltb n 10 then (b'0' + n) ∷ [] else rest ++ (b'0' + n % 10) ∷ []

-- `std::to_string` of a number; a `size_t` has at most 20 digits.
unfoldable pub to_string : ℕ → Bytes
to_string n = decimal_from 20 n

-- A signed number of 64 bits, given by its bits.
unfoldable pub signed_string : ℕ → Bytes
signed_string n = if ltb n (2 ^ 63) then to_string n else b'-' ∷ to_string (2 ^ 64 - n)

-- What `c_str()` shows to a C function: the text up to its first NUL.
unfoldable pub c_string : Bytes → Bytes
c_string [] = []
c_string (c ∷ s) = let rest = c_string s in if c == 0 then [] else c ∷ rest

-- `isspace` of the C locale.
unfoldable pub is_space : ℕ → Bool
is_space c = (c == b' ') || (leb 9 c && leb c 13)

unfoldable pub is_digit : ℕ → Bool
is_digit c = leb b'0' c && leb c b'9'

unfoldable pub skip_space : Bytes → Bytes
skip_space [] = []
skip_space (c ∷ s) = let rest = skip_space s in if is_space c then rest else c ∷ s

-- The value of the digits at the start, on top of the value so far, and what stands behind them.
unfoldable pub read_digits : Bytes → ℕ → ℕ × Bytes
read_digits [] n = (n, [])
read_digits (c ∷ s) n =
    let rest = read_digits s (n * 10 + (c - b'0')) in if is_digit c then rest else (n, c ∷ s)

-- A numeral with its sign, its exact value and what stands behind it; `none` is a text with no
-- numeral at its start, for which the functions return 0 and leave `end` at the start.
pub record Numeral : Type 0 where
  pub negative : Bool
  pub value : ℕ
  pub behind : Bytes

unfoldable pub scan_digits : Bool → Bytes → Option Numeral
scan_digits negative [] = none
scan_digits negative (c ∷ s) =
    if is_digit c
    then (let (n, rest) = read_digits (c ∷ s) 0 in
        some (record { negative = negative; value = n; behind = rest }))
    else none

unfoldable pub scan_sign : Bytes → Option Numeral
scan_sign [] = none
scan_sign (c ∷ s) =
    if c == b'-'
    then scan_digits true s
    else if c == b'+'
    then scan_digits false s
    else scan_digits false (c ∷ s)

unfoldable pub scan : Bytes → Option Numeral
scan s = scan_sign (skip_space (c_string s))

-- `errno == ERANGE` of the unsigned functions.
unfoldable pub unsigned_overflow : Numeral → Bool
unsigned_overflow x = leb (2 ^ 64) x.value

-- What they return: the largest number on overflow, and the negated value of a negative numeral.
unfoldable pub unsigned_value : Numeral → ℕ
unsigned_value x =
    if unsigned_overflow x
    then 2 ^ 64 - 1
    else if x.negative
    then (2 ^ 64 - x.value) % 2 ^ 64
    else x.value

-- The bits of what `strtoll` returns.
unfoldable pub signed_value : Numeral → ℕ
signed_value x =
    if x.negative
    then (if ltb (2 ^ 63) x.value then 2 ^ 63 else (2 ^ 64 - x.value) % 2 ^ 64)
    else if leb (2 ^ 63) x.value
    then 2 ^ 63 - 1
    else x.value
