-- ===== src/Storage/Url/RoundTrip.antt =====
-- Percent decoding undoes percent encoding, and the encoded text is plain.
use kama_asyn_log_system_clo.Base.{
  ◌==◌, Bool-cases, passes_under, passes_under_lem, Bytes, IsByte, All, All-append, ℕ, ◌+◌, ◌*◌,
  ◌/◌, ◌%◌, ◌<◌, ◌≡◌, refl, sym, ap, ◌∙◌, ◌≢◌, ◌⊎◌, inl, inr, true, false, ◌&&◌, some, [], ◌∷◌,
  ◌++◌, append-nil, append_assoc, arith,
}
use kama_asyn_log_system_clo.Storage.Url.{
  is_hex, from_hex, decode_loop, url_decode, is_unreserved, hex_digit, encode_byte, encode_loop,
  url_encode,
}

-- The encoded text, byte by byte.
pub encoded : Bytes → Bytes
encoded [] = []
encoded (c ∷ s) = encode_byte c ++ encoded s

encode_loop-encoded : (s out : Bytes) → encode_loop s out ≡ out ++ encoded s
unfolding encode_loop encoded
encode_loop-encoded [] out = sym (append-nil out)
encode_loop-encoded (c ∷ s) out =
    encode_loop-encoded s (out ++ encode_byte c) ∙ append_assoc out (encode_byte c) (encoded s)

url_encode-encoded : (s : Bytes) → url_encode s ≡ encoded s
unfolding url_encode
url_encode-encoded s = encode_loop-encoded s []

-- Both digits of every byte are read back.
digits_table :
    passes_under
      (λ c.
        is_hex (hex_digit (c / 16))
        && is_hex (hex_digit (c % 16))
        && (from_hex (hex_digit (c / 16)) * 16 + from_hex (hex_digit (c % 16)) == c))
      256
    ≡ true
unfolding passes_under is_hex hex_digit from_hex
digits_table = refl

record Digits (c : ℕ) : Type 0 where
  high : is_hex (hex_digit (c / 16)) ≡ true
  low : is_hex (hex_digit (c % 16)) ≡ true
  back : from_hex (hex_digit (c / 16)) * 16 + from_hex (hex_digit (c % 16)) ≡ c

digits : (c : ℕ) → c < 256 → Digits c
digits c h = ground (arith, passes_under_lem _ 256 c h digits_table)

decode_loop-percent :
    (h l : ℕ) (s out : Bytes)
    → is_hex h ≡ true
    → is_hex l ≡ true
    → decode_loop (b'%' ∷ h ∷ l ∷ s) out
      ≡ decode_loop s (out ++ ((from_hex h * 16 + from_hex l) % 256) ∷ [])
decode_loop-percent h l s out hh hl = unfold decode_loop in rw (hh, hl)

-- A byte other than the percent sign is copied.
decode_loop-plain :
    (c : ℕ) (s out : Bytes) → c ≢ b'%' → decode_loop (c ∷ s) out ≡ decode_loop s (out ++ c ∷ [])
unfolding decode_loop
decode_loop-plain c [] out h = ground arith
decode_loop-plain c (x ∷ []) out h = ground arith
decode_loop-plain c (x ∷ y ∷ s) out h = ground arith

encode_byte_unreserved : (c : ℕ) → is_unreserved c ≡ true → encode_byte c ≡ c ∷ []
encode_byte_unreserved c h = unfold encode_byte in rw h

encode_byte_coded :
    (c : ℕ)
    → is_unreserved c ≡ false
    → encode_byte c ≡ b'%' ∷ hex_digit (c / 16) ∷ hex_digit (c % 16) ∷ []
encode_byte_coded c h = unfold encode_byte in rw h

unreserved-ne-percent : (c : ℕ) → is_unreserved c ≡ true → c ≢ b'%'
unfolding is_unreserved
unreserved-ne-percent c h = ground arith

decode_loop-encode_byte :
    (c : ℕ) (s out : Bytes)
    → c < 256
    → decode_loop (encode_byte c ++ s) out ≡ decode_loop s (out ++ c ∷ [])
decode_loop-encode_byte c s out h = elim (Bool-cases (is_unreserved c)) [
  | inl e ↦ rw (encode_byte_unreserved c e) (decode_loop-plain c s out (unreserved-ne-percent c e))
  | inr e ↦
      let d = digits c h in
      rw (encode_byte_coded c e) (
        decode_loop-percent (hex_digit (c / 16)) (hex_digit (c % 16)) s out d.high d.low
        ∙ ap (λ k. decode_loop s (out ++ k ∷ [])) (omega (arith, d.back, h)))
]

decode_loop-encoded : (s out : Bytes) → All IsByte s → decode_loop (encoded s) out ≡ some (out ++ s)
unfolding encoded
decode_loop-encoded [] out h = unfold decode_loop in rw append-nil
decode_loop-encoded (c ∷ s) out (hc, hs) =
    decode_loop-encode_byte c (encoded s) out hc
    ∙ decode_loop-encoded s (out ++ c ∷ []) hs
    ∙ ap some (append_assoc out (c ∷ []) s)

-- Decoding an encoded text gives it back, whatever bytes below 256 it holds.
pub url_decode-url_encode : (s : Bytes) → All IsByte s → url_decode (url_encode s) ≡ some s
unfolding url_decode
url_decode-url_encode s h = rw (url_encode-encoded s) (decode_loop-encoded s [] h)

-- What an encoded text consists of: bytes that have no meaning in a path, a query or in HTML.
abbrev pub IsPlain : ℕ → Type 0
IsPlain c = (is_unreserved c ≡ true) ⊎ (c ≡ b'%')

hex_table :
    passes_under (λ c. is_unreserved (hex_digit (c / 16)) && is_unreserved (hex_digit (c % 16))) 256
    ≡ true
unfolding passes_under is_unreserved hex_digit
hex_table = refl

encode_byte-IsPlain : (c : ℕ) → c < 256 → All IsPlain (encode_byte c)
encode_byte-IsPlain c h = elim (Bool-cases (is_unreserved c)) [
  | inl e ↦ rw (encode_byte_unreserved c e) (inl e, tt)
  | inr e ↦ rw (encode_byte_coded c e) (inr refl, (inl both.0, (inl both.1, tt)))
]
  where
    both : (is_unreserved (hex_digit (c / 16)) ≡ true) × (is_unreserved (hex_digit (c % 16)) ≡ true)
    both = ground (arith, passes_under_lem _ 256 c h hex_table)

encoded-IsPlain : (s : Bytes) → All IsByte s → All IsPlain (encoded s)
unfolding encoded
encoded-IsPlain [] h = tt
encoded-IsPlain (c ∷ s) (hc, hs) =
    All-append IsPlain (encode_byte c) (encoded s) (encode_byte-IsPlain c hc) (encoded-IsPlain s hs)

-- The encoding of a text of bytes consists of letters, digits, `-`, `_`, `.` and the percent sign.
pub url_encode-IsPlain : (s : Bytes) → All IsByte s → All IsPlain (url_encode s)
url_encode-IsPlain s h = rw (url_encode-encoded s) (encoded-IsPlain s h)

-- A text with no percent sign is its own decoding.
pub url_decode_plain : (s : Bytes) → All (λ c. c ≢ b'%') s → url_decode s ≡ some s
unfolding url_decode
url_decode_plain s h = loop s [] h
  where
    loop : (t out : Bytes) → All (λ c. c ≢ b'%') t → decode_loop t out ≡ some (out ++ t)
    loop [] out h = unfold decode_loop in rw append-nil
    loop (c ∷ t) out (hc, ht) =
        decode_loop-plain c t out hc
        ∙ loop t (out ++ c ∷ []) ht
        ∙ ap some (append_assoc out (c ∷ []) t)
