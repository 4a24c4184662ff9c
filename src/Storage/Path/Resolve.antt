-- ===== src/Storage/Path/Resolve.antt =====
-- Which file a path text of the handlers names.
use kama_asyn_log_system_clo.Base.{
  ◌==◌, ==_iff, Bool-cases, Bytes, codes, bytes_eq_iff, length, length-append, All, All-append, ℕ,
  zero, suc, ◌+◌, ◌-◌, ◌/◌, ◌%◌, ◌≤◌, ◌≡◌, refl, sym, ap, ◌∙◌, ◌≢◌, inl, inr, true, ◌&&◌, [], ◌∷◌,
  ◌++◌, append-nil, append_assoc, arith,
}
use kama_asyn_log_system_clo.Storage.FileName.{is_safe_file_name}
use kama_asyn_log_system_clo.Storage.FileName.Safe.{IsSafe, is_safe_file_name_iff, name-no_slash}
use kama_asyn_log_system_clo.Storage.Path.{
  FilePath, enter, walk, resolve, uploads_name, upload_root, session_dir, meta_path, chunk_path,
  chunk_name, digits_from,
}

-- A slash ends a component.
pub walk-append :
    (s t cur : Bytes) (p : FilePath) → walk (s ++ b'/' ∷ t) cur p ≡ walk t [] (walk s cur p)
unfolding walk
walk-append [] t cur p = refl
walk-append (c ∷ s) t cur p = elim (Bool-cases (c == b'/')) [
  | inl e ↦ rw e (walk-append s t [] (enter cur p))
  | inr e ↦ rw e (walk-append s t (cur ++ c ∷ []) p)
]

abbrev pub NoSlash : Bytes → Type 0
NoSlash = All (λ c. c ≢ b'/')

-- A text with no slash is one component.
pub walk_component : (t cur : Bytes) (p : FilePath) → NoSlash t → walk t cur p ≡ enter (cur ++ t) p
unfolding walk
walk_component [] cur p h = rw append-nil
walk_component (c ∷ t) cur p (hc, ht) = elim (Bool-cases (c == b'/')) [
  | inl e ↦ absurd (hc ((==_iff c b'/').0 e))
  | inr e ↦
      rw e
        (walk_component t (cur ++ c ∷ []) p ht ∙ ap (λ k. enter k p) (append_assoc cur (c ∷ []) t))
]

-- A name that is not a dot, two dots or nothing goes below where the walk stands.
pub enter_name :
    (c : Bytes) (p : FilePath) → c ≢ [] → c ≢ codes "." → c ≢ codes ".." → enter c p ≡ c ∷ p
unfolding enter
enter_name c p h k l =
    ground (arith, bytes_eq_iff c [], bytes_eq_iff c (codes "."), bytes_eq_iff c (codes ".."))

enter-nil : (p : FilePath) → enter [] p ≡ p
unfolding enter
enter-nil p = refl

-- A directory text that ends in a slash, and what is put behind it.
pub resolve-behind : (d t : Bytes) → resolve ((d ++ codes "/") ++ t) ≡ walk t [] (resolve d)
unfolding resolve
resolve-behind d t = rw (append_assoc d (codes "/") t) (walk-append d t [] [])

resolve_slash : (d : Bytes) → resolve (d ++ codes "/") ≡ resolve d
unfolding resolve walk
resolve_slash d = walk-append d [] [] [] ∙ enter-nil (resolve d)

-- An accepted file name behind a storage directory that ends in a slash names the file of that
-- name directly in that directory.
pub resolve_safe :
    (d name : Bytes)
    → is_safe_file_name name ≡ true
    → resolve ((d ++ codes "/") ++ name) ≡ name ∷ resolve d
resolve_safe d name h =
    resolve-behind d name
    ∙ walk_component name [] (resolve d) (name-no_slash name safe.bytes)
    ∙ enter_name name (resolve d) safe.not_empty safe.not_self safe.not_parent
  where
    safe : IsSafe name
    safe = (is_safe_file_name_iff name).0 h

-- Where the multipart sessions lie.
abbrev pub uploads : Bytes → FilePath
uploads d = uploads_name ∷ resolve d

resolve-uploads : (d : Bytes) → resolve ((d ++ codes "/") ++ uploads_name) ≡ uploads d
resolve-uploads d =
    resolve-behind d uploads_name
    ∙ walk_component uploads_name [] (resolve d) (omega arith)
    ∙ enter_name uploads_name (resolve d) (λ e. cc) (λ e. cc) (λ e. cc)

upload_root_lem :
    (d : Bytes) → upload_root (d ++ codes "/") ≡ ((d ++ codes "/") ++ uploads_name) ++ codes "/"
unfolding upload_root
upload_root_lem d = sym (append_assoc (d ++ codes "/") uploads_name (codes "/"))

pub resolve-upload_root : (d : Bytes) → resolve (upload_root (d ++ codes "/")) ≡ uploads d
resolve-upload_root d =
    ap resolve (upload_root_lem d)
    ∙ resolve_slash ((d ++ codes "/") ++ uploads_name)
    ∙ resolve-uploads d

resolve-session :
    (d upload_id : Bytes)
    → resolve (upload_root (d ++ codes "/") ++ upload_id) ≡ walk upload_id [] (uploads d)
resolve-session d upload_id =
    ap (λ r. resolve (r ++ upload_id)) (upload_root_lem d)
    ∙ resolve-behind ((d ++ codes "/") ++ uploads_name) upload_id
    ∙ ap (walk upload_id []) (resolve-uploads d)

-- The directory of a session is wherever its identifier leads from the root of the uploads.
pub resolve-session_dir :
    (d upload_id : Bytes)
    → resolve (session_dir (d ++ codes "/") upload_id) ≡ walk upload_id [] (uploads d)
unfolding session_dir
resolve-session_dir d upload_id =
    resolve_slash (upload_root (d ++ codes "/") ++ upload_id) ∙ resolve-session d upload_id

-- A file directly in the directory of a session.
pub resolve-in_session :
    (d upload_id name : Bytes)
    → NoSlash name
    → name ≢ []
    → name ≢ codes "."
    → name ≢ codes ".."
    → resolve (session_dir (d ++ codes "/") upload_id ++ name)
      ≡ name ∷ walk upload_id [] (uploads d)
unfolding session_dir
resolve-in_session d upload_id name h k l m =
    resolve-behind (upload_root (d ++ codes "/") ++ upload_id) name
    ∙ walk_component name [] (resolve (upload_root (d ++ codes "/") ++ upload_id)) h
    ∙ enter_name name (resolve (upload_root (d ++ codes "/") ++ upload_id)) k l m
    ∙ ap (λ p. name ∷ p) (resolve-session d upload_id)

pub resolve-meta_path :
    (d upload_id : Bytes)
    → resolve (meta_path (d ++ codes "/") upload_id)
      ≡ codes "meta.json" ∷ walk upload_id [] (uploads d)
unfolding meta_path
resolve-meta_path d upload_id =
    resolve-in_session d upload_id (codes "meta.json") (omega arith) (λ e. cc) (λ e. cc) (λ e. cc)

digits_from-NoSlash : (fuel width n : ℕ) → NoSlash (digits_from fuel width n)
unfolding digits_from
digits_from-NoSlash zero width n = tt
digits_from-NoSlash (suc fuel) width n = elim (Bool-cases ((n == 0) && (width == 0))) [
  | inl e ↦ rw e tt
  | inr e ↦ rw e (
      All-append _ (digits_from fuel (width - 1) (n / 10)) ((b'0' + n % 10) ∷ [])
        (digits_from-NoSlash fuel (width - 1) (n / 10)) (omega arith, tt))
]

-- For a storage directory that ends in a slash, the path of a chunk names the file `chunk_` with
-- the number, directly in the directory to which the identifier leads from the root of the
-- uploads.
pub resolve-chunk_path :
    (d upload_id : Bytes) (chunk_index : ℕ)
    → resolve (chunk_path (d ++ codes "/") upload_id chunk_index)
      ≡ chunk_name chunk_index ∷ walk upload_id [] (uploads d)
unfolding chunk_path chunk_name
resolve-chunk_path d upload_id i =
    resolve-in_session d upload_id (codes "chunk_" ++ digits_from 20 6 i)
      (All-append _ (codes "chunk_") (digits_from 20 6 i) (omega arith)
        (digits_from-NoSlash 20 6 i))
      (λ e. cc) (λ e. cc) (λ e. cc)

-- An identifier that the service hands out, digits and a dash, names a directory of its own.
pub resolve-session_dir_name :
    (d upload_id : Bytes)
    → NoSlash upload_id
    → upload_id ≢ []
    → upload_id ≢ codes "."
    → upload_id ≢ codes ".."
    → resolve (session_dir (d ++ codes "/") upload_id) ≡ upload_id ∷ uploads d
resolve-session_dir_name d upload_id h k l m =
    resolve-session_dir d upload_id
    ∙ walk_component upload_id [] (uploads d) h
    ∙ enter_name upload_id (uploads d) k l m

-- The file that is written before the one of an accepted name lies beside it.
pub resolve_beside :
    (d name ext : Bytes)
    → is_safe_file_name name ≡ true
    → NoSlash ext
    → 2 ≤ length ext
    → resolve (((d ++ codes "/") ++ name) ++ ext) ≡ (name ++ ext) ∷ resolve d
resolve_beside d name ext h k l =
    ap resolve (append_assoc (d ++ codes "/") name ext)
    ∙ resolve-behind d (name ++ ext)
    ∙ walk_component (name ++ ext) [] (resolve d)
        (All-append _ name ext (name-no_slash name safe.bytes) k)
    ∙ enter_name (name ++ ext) (resolve d) (λ e. longer [] (omega arith) e)
        (λ e. longer (codes ".") (omega arith) e) (λ e. longer (codes "..") (omega arith) e)
  where
    safe : IsSafe name
    safe = (is_safe_file_name_iff name).0 h

    non_empty : (n : Bytes) → n ≢ [] → 1 ≤ length n
    non_empty [] h = absurd (h refl)
    non_empty (_ ∷ _) h = omega arith

    longer : (t : Bytes) → length t ≤ 2 → name ++ ext ≢ t
    longer t n e =
        let m : length (name ++ ext) ≡ length t = ap length e in
        omega (arith, length-append name ext, non_empty name safe.not_empty)
