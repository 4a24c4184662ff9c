-- ===== src/Storage/FileName/Safe.antt =====
-- What `IsSafeFileName` accepts, and what `FileName` finds behind a directory.
use kama_asyn_log_system_clo.Base.{
  ◌==◌, if◌then◌else◌, Bytes, codes, bytes_eq_iff, has_byte, has_text, length, All, ℕ, ◌≤◌, ◌≡◌,
  refl, sym, ap, ◌∙◌, ◌≢◌, ◌↔◌, true, false, [], ◌∷◌, ◌++◌, append-nil, append_assoc, arith,
}
use kama_asyn_log_system_clo.Storage.FileName.{
  has_control, is_safe_file_name, after_slash, file_name,
}

-- The bytes that a file name may hold.
abbrev pub IsNameByte : ℕ → Type 0
IsNameByte c = (32 ≤ c) × (c ≢ 127) × (c ≢ b'/') × (c ≢ b'\\')

-- An accepted file name: one path component that names neither its directory nor the parent.
pub record IsSafe (name : Bytes) : Type 0 where
  pub not_empty : name ≢ []
  pub short : length name ≤ 255
  pub bytes : All IsNameByte name
  pub not_self : name ≢ codes "."
  pub not_parent : name ≢ codes ".."
  pub no_dots : has_text (codes "..") name ≡ false

bytes_sound :
    (s : Bytes)
    → has_byte b'/' s ≡ false
    → has_byte b'\\' s ≡ false
    → has_control s ≡ false
    → All IsNameByte s
unfolding has_byte has_control
bytes_sound [] _ _ _ = tt
bytes_sound (c ∷ s) h k l = ground (arith, bytes_sound s)

bytes_complete :
    (s : Bytes)
    → All IsNameByte s
    → (has_byte b'/' s ≡ false) × (has_byte b'\\' s ≡ false) × (has_control s ≡ false)
unfolding has_byte has_control
bytes_complete [] h = (refl, refl, refl)
bytes_complete (c ∷ s) h = ground (arith, bytes_complete s)

-- `IsSafeFileName` accepts exactly the names that are not empty, a dot or two dots, have at most
-- 255 bytes, no two dots in a row, and no slash, backslash, control byte or DEL.
pub is_safe_file_name_iff : (name : Bytes) → (is_safe_file_name name ≡ true) ↔ IsSafe name
unfolding is_safe_file_name
is_safe_file_name_iff name = (
  λ h. record {
    not_empty = λ e. ground (arith, bytes_eq_iff name []);
    short = ground arith;
    bytes = ground (arith, bytes_sound name);
    not_self = λ e. ground (arith, bytes_eq_iff name (codes "."));
    not_parent = λ e. ground (arith, bytes_eq_iff name (codes ".."));
    no_dots = ground arith;
  },
  λ v. ground (
    arith,
    bytes_eq_iff name [],
    bytes_eq_iff name (codes "."),
    bytes_eq_iff name (codes ".."),
    bytes_complete name v.bytes,
  ),
)

-- A text with no slash is copied behind what was read.
after_slash_no_slash : (s name : Bytes) → All (λ c. c ≢ b'/') s → after_slash s name ≡ name ++ s
unfolding after_slash
after_slash_no_slash [] name h = sym (append-nil name)
after_slash_no_slash (c ∷ s) name (hc, hs) =
    ap (after_slash s) (step c hc)
    ∙ after_slash_no_slash s (name ++ c ∷ []) hs
    ∙ append_assoc name (c ∷ []) s
  where
    step : (c : ℕ) → c ≢ b'/' → (if c == b'/' then [] else name ++ c ∷ []) ≡ name ++ c ∷ []
    step c hc = ground arith

after_slash-append : (d s name : Bytes) → after_slash (d ++ b'/' ∷ s) name ≡ after_slash s []
unfolding after_slash
after_slash-append [] s name = refl
after_slash-append (c ∷ d) s name =
    after_slash-append d s (if c == b'/' then [] else name ++ c ∷ [])

pub name-no_slash : (s : Bytes) → All IsNameByte s → All (λ c. c ≢ b'/') s
name-no_slash [] h = tt
name-no_slash (c ∷ s) (hc, hs) = (hc.2, name-no_slash s hs)

-- Behind a directory that ends in a slash, `FileName` finds an accepted file name again.
pub file_name_behind_dir :
    (dir name : Bytes)
    → is_safe_file_name name ≡ true
    → file_name ((dir ++ codes "/") ++ name) ≡ name
unfolding file_name
file_name_behind_dir dir name h =
    ap (λ p. after_slash p []) (append_assoc dir (codes "/") name)
    ∙ after_slash-append dir name []
    ∙ after_slash_no_slash name [] (name-no_slash name (((is_safe_file_name_iff name).0 h).bytes))
