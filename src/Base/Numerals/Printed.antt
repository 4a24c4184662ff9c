-- ===== src/Base/Numerals/Printed.antt =====
-- A printed number is read back as itself.
use Prim.Native.Nat.{ℕ, zero, suc, ◌+◌, ◌-◌, ◌*◌, ◌/◌, ◌%◌, ◌^◌, ◌<◌, ◌≤◌}
use mathlib.Core.Path.{◌≡◌, refl, ap, sym, ◌∙◌}
use mathlib.Core.Logic.{◌≢◌}
use mathlib.Core.Bool.{false}
use mathlib.Core.Option.{some}
use mathlib.Core.List.{[], ◌∷◌, ◌++◌, append-nil}
use native.Mathlib.Omega.{arith}
use kama_asyn_log_system_clo.Base.Text.{Bytes}
use kama_asyn_log_system_clo.Base.Lists.{All, All-append}
use kama_asyn_log_system_clo.Base.Numerals.{
  decimal_from, to_string, c_string, is_space, is_digit, skip_space, read_digits, Numeral,
  scan_digits, scan_sign, scan,
}

abbrev pub IsDigit : ℕ → Type 0
IsDigit c = (48 ≤ c) × (c < 58)

decimal_from-IsDigit : (fuel n : ℕ) → All IsDigit (decimal_from fuel n)
unfolding decimal_from
decimal_from-IsDigit zero n = tt
decimal_from-IsDigit (suc fuel) n =
    let rest = decimal_from-IsDigit fuel (n / 10) in
    let both =
      All-append IsDigit (decimal_from fuel (n / 10)) ((48 + n % 10) ∷ []) rest
        ((omega arith, omega arith), tt) in
    ground arith

digits_value : Bytes → ℕ → ℕ
digits_value [] n = n
digits_value (c ∷ s) n = digits_value s (n * 10 + (c - b'0'))

digits_value-append :
    (s : Bytes) (c n : ℕ) → digits_value (s ++ c ∷ []) n ≡ digits_value s n * 10 + (c - b'0')
unfolding digits_value
digits_value-append [] c n = refl
digits_value-append (d ∷ s) c n = digits_value-append s c (n * 10 + (d - b'0'))

read_digits-All :
    (s t : Bytes) (n : ℕ)
    → All IsDigit s
    → read_digits (s ++ t) n ≡ read_digits t (digits_value s n)
unfolding read_digits digits_value is_digit
read_digits-All [] t n h = refl
read_digits-All (c ∷ s) t n (hc, hs) = ground (arith, read_digits-All s t (n * 10 + (c - b'0')) hs)

decimal_from-value : (fuel n : ℕ) → n < 10 ^ fuel → digits_value (decimal_from fuel n) 0 ≡ n
unfolding decimal_from
decimal_from-value zero n h = unfold digits_value in omega arith
decimal_from-value (suc fuel) n h =
    let rest = decimal_from-value fuel (n / 10) (omega arith) in
    let both = digits_value-append (decimal_from fuel (n / 10)) (48 + n % 10) 0 in
    let one : digits_value ((48 + n) ∷ []) 0 ≡ n = unfold digits_value in omega arith in
    ground arith

append_ne_nil : (s : Bytes) (c : ℕ) → s ++ c ∷ [] ≢ []
append_ne_nil [] c e = cc
append_ne_nil (d ∷ s) c e = cc

decimal_from_ne_nil : (fuel n : ℕ) → decimal_from (suc fuel) n ≢ []
unfolding decimal_from
decimal_from_ne_nil fuel n =
    ground (arith, append_ne_nil (decimal_from fuel (n / 10)) (48 + n % 10))

c_string_plain : (s : Bytes) → All IsDigit s → c_string s ≡ s
unfolding c_string
c_string_plain [] h = refl
c_string_plain (c ∷ s) (hc, hs) = ground (arith, c_string_plain s hs)

scan_sign_digit :
    (c : ℕ) (s : Bytes)
    → IsDigit c
    → scan_sign (skip_space (c ∷ s))
      ≡ some (record {
        negative = false;
        value = (read_digits (c ∷ s) 0).0;
        behind = (read_digits (c ∷ s) 0).1;
      })
unfolding scan_sign skip_space scan_digits is_space is_digit
scan_sign_digit c s h = ground arith

scan_plain :
    (s : Bytes)
    → All IsDigit s
    → s ≢ []
    → scan s
      ≡ some
          (record { negative = false; value = (read_digits s 0).0; behind = (read_digits s 0).1 })
unfolding scan
scan_plain [] h ne = absurd (ne refl)
scan_plain (c ∷ s) h ne =
    ap (λ k. scan_sign (skip_space k)) (c_string_plain (c ∷ s) h) ∙ scan_sign_digit c s h.0

read_digits_end : (n : ℕ) → read_digits [] n ≡ (n, [])
read_digits_end n = unfold read_digits in refl

-- The numeral with a value and nothing behind it.
abbrev pub whole : ℕ → Numeral
whole n = record { negative = false; value = n; behind = [] }

-- A printed number below `10 ^ 20` is read back, and nothing is left.
pub scan-to_string : (n : ℕ) → n < 10 ^ 20 → scan (to_string n) ≡ some (whole n)
unfolding to_string
scan-to_string n h =
    scan_plain (decimal_from 20 n) (decimal_from-IsDigit 20 n) (decimal_from_ne_nil 19 n)
    ∙ ap (λ r. some (record { negative = false; value = r.0; behind = r.1 })) whole_read
  where
    whole_read : read_digits (decimal_from 20 n) 0 ≡ (n, [])
    whole_read =
        ap (λ s. read_digits s 0) (sym (append-nil (decimal_from 20 n)))
        ∙ read_digits-All (decimal_from 20 n) [] 0 (decimal_from-IsDigit 20 n)
        ∙ read_digits_end (digits_value (decimal_from 20 n) 0)
        ∙ ap (λ k. (k, [])) (decimal_from-value 20 n h)

pub to_string-IsDigit : (n : ℕ) → All IsDigit (to_string n)
unfolding to_string
to_string-IsDigit n = decimal_from-IsDigit 20 n
