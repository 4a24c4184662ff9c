-- ===== src/Base/Text.antt =====
-- Byte strings (`std::string`): a byte is a number, and a literal is the list of its code points.
use Prim.Native.Nat.{ℕ, ◌<◌, ◌+◌, ◌/◌, ◌%◌}
use Prim.Native.Char.{code}
use Prim.Native.String.{String}
use mathlib.Core.Path.{◌≡◌, refl}
use mathlib.Core.Logic.{◌↔◌, ◌≢◌}
use mathlib.Core.Bool.{Bool, true, false, ◌&&◌, ◌||◌}
use mathlib.Core.List.{List, [], ◌∷◌, ◌++◌}
use native.Mathlib.Omega.{arith}
use kama_asyn_log_system_clo.Base.Tests.{◌==◌, ltb, if◌then◌else◌}
use kama_asyn_log_system_clo.Base.Lists.{All}

abbrev pub Bytes : Type 0
Bytes = List ℕ

abbrev pub codes : String → Bytes
codes String.[] = []
codes (String.◌∷◌ letter rest) = code letter ∷ codes rest

-- `a == b` of two `std::string`s.
unfoldable pub bytes_eq : Bytes → Bytes → Bool
bytes_eq [] [] = true
bytes_eq [] (_ ∷ _) = false
bytes_eq (_ ∷ _) [] = false
bytes_eq (a ∷ as') (b ∷ bs) = (a == b) && bytes_eq as' bs

pub bytes_eq_sound : (a b : Bytes) → bytes_eq a b ≡ true → a ≡ b
unfolding bytes_eq
bytes_eq_sound [] [] h = refl
bytes_eq_sound [] (_ ∷ _) h = cc
bytes_eq_sound (_ ∷ _) [] h = cc
bytes_eq_sound (a ∷ s) (b ∷ t) h = ground (arith, bytes_eq_sound s t)

pub bytes_eq_refl : (a : Bytes) → bytes_eq a a ≡ true
unfolding bytes_eq
bytes_eq_refl [] = refl
bytes_eq_refl (a ∷ s) = ground (arith, bytes_eq_refl s)

pub bytes_eq_iff : (a b : Bytes) → (bytes_eq a b ≡ true) ↔ (a ≡ b)
bytes_eq_iff a b = (bytes_eq_sound a b, λ e. cc (bytes_eq_refl a, e))

-- `s.find(c) != npos` for one byte.
unfoldable pub has_byte : ℕ → Bytes → Bool
has_byte c [] = false
has_byte c (x ∷ s) = (x == c) || has_byte c s

-- `s.find(p) == 0`: the text starts with `p`.
unfoldable pub starts_with : Bytes → Bytes → Bool
starts_with [] s = true
starts_with (c ∷ p) [] = false
starts_with (c ∷ p) (x ∷ s) = (x == c) && starts_with p s

-- `s.find(p) != npos` for a text `p`.
unfoldable pub has_text : Bytes → Bytes → Bool
unfolding starts_with
has_text p [] = starts_with p []
has_text p (x ∷ s) = starts_with p (x ∷ s) || has_text p s

abbrev pub IsByte : ℕ → Type 0
IsByte c = c < 256

-- A byte that is not found is none of the bytes.
pub has_byte-false : (c : ℕ) (s : Bytes) → has_byte c s ≡ false → All (λ x. x ≢ c) s
unfolding has_byte
has_byte-false c [] h = tt
has_byte-false c (x ∷ s) h = ground (arith, has_byte-false c s)

pub bytes_apart : {a b : Bytes} → bytes_eq a b ≡ false → a ≢ b
bytes_apart {a} {b} h e = ground (arith, bytes_eq_iff a b)

-- Texts behind one prefix are equal where the wholes are.
pub append_cancel : (p a b : Bytes) → p ++ a ≡ p ++ b → a ≡ b
append_cancel [] a b h = h
append_cancel (c ∷ p) a b h = append_cancel p a b (cc h)

-- A character in UTF-8, as it stands in a literal of the source.
unfoldable pub utf8_byte : ℕ → Bytes
utf8_byte c =
    if ltb c 128
    then c ∷ []
    else if ltb c 2048
    then (192 + c / 64) ∷ (128 + c % 64) ∷ []
    else if ltb c 65536
    then (224 + c / 4096) ∷ (128 + c / 64 % 64) ∷ (128 + c % 64) ∷ []
    else (240 + c / 262144) ∷ (128 + c / 4096 % 64) ∷ (128 + c / 64 % 64) ∷ (128 + c % 64) ∷ []

unfoldable pub utf8 : String → Bytes
utf8 String.[] = []
utf8 (String.◌∷◌ letter rest) = utf8_byte (code letter) ++ utf8 rest

-- `ss << a << b << …`
unfoldable pub stream : List Bytes → Bytes
stream [] = []
stream (part ∷ parts) = part ++ stream parts
