-- ===== src/Storage/Query/Pairs.antt =====
-- How the pairs of a query text are read: lemmas on `ParseQueryParams` of
-- src/server/ListHandler.hpp.
use kama_asyn_log_system_clo.Base.{
  bind_some, insert, Bytes, bytes_eq, IsByte, All, All-imp, to_string, unsigned_overflow,
  unsigned_value, ℕ, ◌^◌, ◌≤◌, ◌<◌, ◌≡◌, refl, ap, ◌∙◌, ◌≢◌, Option, some, List, [], ◌∷◌, ◌++◌,
  arith,
}
use kama_asyn_log_system_clo.Base.Numerals.Printed.{
  IsDigit, to_string-IsDigit, whole, scan-to_string,
}
use kama_asyn_log_system_clo.Storage.Url.{url_decode, url_encode, is_unreserved}
use kama_asyn_log_system_clo.Storage.Url.RoundTrip.{
  IsPlain, url_encode-IsPlain, url_decode-url_encode, url_decode_plain,
}
use kama_asyn_log_system_clo.Storage.Query.{
  parse_size_value, plus_to_space, decode_query_value, cut_at, split_pairs, Params, accepted_size,
  add_pairs, add_pair, bytes_key, put_pair, value_or_empty,
}

-- Pairs behind a first one.
unfoldable pub link_rest : List Bytes → Bytes
link_rest [] = []
link_rest (pair ∷ pairs) = b'&' ∷ (pair ++ link_rest pairs)

abbrev pub HasNo : ℕ → Bytes → Type 0
HasNo c s = All (λ x. x ≢ c) s

split_pairs-cons :
    (x : ℕ) (s pair : Bytes) (pairs : List Bytes)
    → x ≢ b'&'
    → split_pairs s ≡ pair ∷ pairs
    → split_pairs (x ∷ s) ≡ (x ∷ pair) ∷ pairs
unfolding split_pairs
split_pairs-cons x s pair pairs h e = ground arith

split_pairs-amp : (s : Bytes) → split_pairs (b'&' ∷ s) ≡ [] ∷ split_pairs s
unfolding split_pairs
split_pairs-amp s = refl

split_pairs-nil : split_pairs [] ≡ [] ∷ []
unfolding split_pairs
split_pairs-nil = refl

pub split_pairs-link_rest :
    (pair : Bytes) (pairs : List Bytes)
    → HasNo b'&' pair
    → All (HasNo b'&') pairs
    → split_pairs (pair ++ link_rest pairs) ≡ pair ∷ pairs
unfolding link_rest
split_pairs-link_rest [] [] h hs = split_pairs-nil
split_pairs-link_rest [] (p ∷ ps) h (hp, hs) =
    split_pairs-amp (p ++ link_rest ps) ∙ ap (λ k. [] ∷ k) (split_pairs-link_rest p ps hp hs)
split_pairs-link_rest (x ∷ pair) pairs (hx, h) hs =
    split_pairs-cons x (pair ++ link_rest pairs) pair pairs hx
      (split_pairs-link_rest pair pairs h hs)

cut_at-cons :
    (c x : ℕ) (s before : Bytes) (behind : Option Bytes)
    → x ≢ c
    → cut_at c s ≡ (before, behind)
    → cut_at c (x ∷ s) ≡ (x ∷ before, behind)
unfolding cut_at
cut_at-cons c x s before behind h e = ground arith

cut_at_here : (c : ℕ) (s : Bytes) → cut_at c (c ∷ s) ≡ ([], some s)
unfolding cut_at
cut_at_here c s = ground arith

cut_at-append : (c : ℕ) (key s : Bytes) → HasNo c key → cut_at c (key ++ c ∷ s) ≡ (key, some s)
cut_at-append c [] s h = cut_at_here c s
cut_at-append c (x ∷ key) s (hx, h) =
    cut_at-cons c x (key ++ c ∷ s) key (some s) hx (cut_at-append c key s h)

plus_to_space_plain : (s : Bytes) → HasNo b'+' s → plus_to_space s ≡ s
unfolding plus_to_space
plus_to_space_plain [] h = refl
plus_to_space_plain (c ∷ s) (hc, h) = ground (arith, plus_to_space_plain s h)

pub decode_plain : (s : Bytes) → HasNo b'+' s → HasNo b'%' s → decode_query_value s ≡ some s
unfolding decode_query_value
decode_plain s h g = ap url_decode (plus_to_space_plain s h) ∙ url_decode_plain s g

pub plain_apart : (c : ℕ) → IsPlain c → (c ≢ b'+') × (c ≢ b'&') × (c ≢ b'=')
unfolding is_unreserved
plain_apart c h = ground arith

pub decode_encoded : (s : Bytes) → All IsByte s → decode_query_value (url_encode s) ≡ some s
unfolding decode_query_value
decode_encoded s h =
    ap url_decode (plus_to_space_plain (url_encode s) no_plus) ∙ url_decode-url_encode s h
  where
    no_plus : HasNo b'+' (url_encode s)
    no_plus = All-imp IsPlain _ (λ c p. (plain_apart c p).0) (url_encode s) (url_encode-IsPlain s h)

pub decode_number : (n : ℕ) → decode_query_value (to_string n) ≡ some (to_string n)
decode_number n =
    decode_plain (to_string n)
      (All-imp IsDigit _ (λ c h. omega arith) (to_string n) (to_string-IsDigit n))
      (All-imp IsDigit _ (λ c h. omega arith) (to_string n) (to_string-IsDigit n))

unsigned_value-whole : (n : ℕ) → n < 2 ^ 64 → unsigned_value (whole n) ≡ n
unfolding unsigned_value unsigned_overflow
unsigned_value-whole n h = ground arith

accepted_size-whole : (n : ℕ) → 1 ≤ n → n < 2 ^ 64 → accepted_size (some (whole n)) ≡ some n
unfolding accepted_size bytes_eq
accepted_size-whole n low high = ground (arith, unsigned_value-whole n high)

pub parse_size_value-to_string :
    (n : ℕ) → 1 ≤ n → n < 2 ^ 64 → parse_size_value (to_string n) ≡ some n
unfolding parse_size_value
parse_size_value-to_string n low high =
    ap accepted_size (scan-to_string n (omega arith)) ∙ accepted_size-whole n low high

put_pair-some :
    (key raw value : Bytes) (params : Params)
    → decode_query_value key ≡ some key
    → decode_query_value raw ≡ some value
    → put_pair (key, some raw) params ≡ some (insert bytes_key key value params)
unfolding put_pair value_or_empty
put_pair-some key raw value params hk hv = bind_some _ hk ∙ bind_some _ hv

pub add_pair-key :
    (c : ℕ) (key raw value : Bytes) (params : Params)
    → HasNo b'=' (c ∷ key)
    → decode_query_value (c ∷ key) ≡ some (c ∷ key)
    → decode_query_value raw ≡ some value
    → add_pair (c ∷ key ++ b'=' ∷ raw) params ≡ some (insert bytes_key (c ∷ key) value params)
unfolding add_pair
add_pair-key c key raw value params h hk hv =
    ap (λ k. put_pair k params) (cut_at-append b'=' (c ∷ key) raw h)
    ∙ put_pair-some (c ∷ key) raw value params hk hv

pub add_pairs-cons :
    (pair : Bytes) (pairs : List Bytes) (params next : Params)
    → add_pair pair params ≡ some next
    → add_pairs (pair ∷ pairs) params ≡ add_pairs pairs next
unfolding add_pairs
add_pairs-cons pair pairs params next h = bind_some (add_pairs pairs) h
