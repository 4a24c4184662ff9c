-- ===== src/Storage/Page/Size.antt =====
-- `FormatSize` of src/server/PageRender.hpp. A `double` here is the number it stands for: a size as
-- a `double` is a natural number, and dividing it by 1024 up to three times is exact.
use kama_asyn_log_system_clo.Base.{
  ltb, if◌then◌else◌, Bytes, codes, to_string, ℕ, zero, suc, ◌+◌, ◌*◌, ◌/◌, ◌%◌, ◌^◌, ◌∷◌, ◌++◌,
}

-- The nearest multiple, the even one of two.
unfoldable pub round_half_even : ℕ → ℕ → ℕ
round_half_even n d =
    let q = n / d in
    let r = n % d in if ltb (2 * r) d then q else if ltb d (2 * r) then q + 1 else q + q % 2

-- What the 53 bits of a `double` count in, for a number of 64 bits.
unfoldable pub double_unit : ℕ → ℕ → ℕ → ℕ
double_unit zero unit n = unit
double_unit (suc fuel) unit n =
    let wider = double_unit fuel (2 * unit) n in if ltb n (2 ^ 53 * unit) then unit else wider

unfoldable pub double_of : ℕ → ℕ
double_of n = let unit = double_unit 11 1 n in round_half_even n unit * unit

-- The loop: how often the size is divided.
unfoldable pub unit_index : ℕ → ℕ
unit_index size =
    if ltb size 1024
    then 0
    else if ltb size (1024 ^ 2)
    then 1
    else if ltb size (1024 ^ 3)
    then 2
    else 3

unfoldable pub unit_name : ℕ → Bytes
unit_name zero = codes "B"
unit_name (suc zero) = codes "KB"
unit_name (suc (suc zero)) = codes "MB"
unit_name (suc (suc (suc i))) = codes "GB"

-- `std::fixed` with two digits.
unfoldable pub format_size : ℕ → Bytes
format_size bytes =
    let size = double_of bytes in
    let i = unit_index size in
    let hundredths = round_half_even (size * 100) (1024 ^ i) in
    to_string (hundredths / 100)
    ++ (b'.' ∷ (b'0' + hundredths / 10 % 10) ∷ (b'0' + hundredths % 10) ∷ b' ' ∷ unit_name i)
