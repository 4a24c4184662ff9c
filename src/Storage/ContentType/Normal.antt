-- ===== src/Storage/ContentType/Normal.antt =====
-- A normalised content type fits its column and its header line.
use kama_asyn_log_system_clo.Base.{
  Bytes, length, length-take, All, ℕ, ◌≤◌, ◌<◌, min, ◌≡◌, refl, ap, ◌∙◌, ◌≢◌, Option, none, some,
  [], ◌∷◌, arith,
}
use kama_asyn_log_system_clo.Storage.ContentType.{blank_controls, shorten, normalize_content_type}

-- Printable, so that the value can neither end a header line nor start another.
abbrev pub IsPrintable : ℕ → Type 0
IsPrintable c = (32 ≤ c) × (c ≢ 127)

length-blank_controls : (s : Bytes) → length (blank_controls s) ≡ length s
unfolding blank_controls
length-blank_controls [] = refl
length-blank_controls (c ∷ s) = omega (arith, length-blank_controls s)

blank_controls-IsPrintable : (s : Bytes) → All IsPrintable (blank_controls s)
unfolding blank_controls
blank_controls-IsPrintable [] = tt
blank_controls-IsPrintable (c ∷ s) = (ground arith, blank_controls-IsPrintable s)

blank_controls_printable : (s : Bytes) → All IsPrintable s → blank_controls s ≡ s
unfolding blank_controls
blank_controls_printable [] h = refl
blank_controls_printable (c ∷ s) h = ground (arith, blank_controls_printable s h.1)

-- What every handler stores as a content type.
pub record IsNormal (s : Bytes) : Type 0 where
  pub not_empty : 0 < length s
  pub fits : length s ≤ 128
  pub printable : All IsPrintable s

pub length-shorten : (n : ℕ) (s : Bytes) → length (shorten n s) ≡ min n (length s)
unfolding shorten
length-shorten n s = ground (arith, length-take n s)

pub shorten_short : (n : ℕ) (s : Bytes) → length s ≤ n → shorten n s ≡ s
unfolding shorten
shorten_short n s h = ground arith

-- Whatever header a client sends, or none, the content type that is kept is not empty, at most 128
-- bytes long and printable.
pub normalize_content_type-IsNormal :
    (header : Option Bytes) → IsNormal (normalize_content_type header)
unfolding normalize_content_type
normalize_content_type-IsNormal none = omega arith
normalize_content_type-IsNormal (some []) = omega arith
normalize_content_type-IsNormal (some (c ∷ s)) = record {
  not_empty =
      omega (arith, length-blank_controls (shorten 128 (c ∷ s)), length-shorten 128 (c ∷ s));
  fits = omega (arith, length-blank_controls (shorten 128 (c ∷ s)), length-shorten 128 (c ∷ s));
  printable = blank_controls-IsPrintable (shorten 128 (c ∷ s));
}

-- A type that is already normal is kept as it is; so normalising twice changes nothing more.
pub normalize_content_type_normal : (s : Bytes) → IsNormal s → normalize_content_type (some s) ≡ s
unfolding normalize_content_type
normalize_content_type_normal [] n = absurd (omega arith)
normalize_content_type_normal (c ∷ s) n =
    ap blank_controls (shorten_short 128 (c ∷ s) n.fits)
    ∙ blank_controls_printable (c ∷ s) n.printable
