-- ===== src/Storage/Path/Left.antt =====
-- Which directories the path of a session leaves by `..`: src/server/MultipartUploadHandler.hpp.
use kama_asyn_log_system_clo.Base.{
  ◌==◌, ==_iff, Bool-cases, Bytes, codes, bytes_eq_iff, ◌≡◌, refl, sym, ap, ◌∙◌, ◌≢◌, inl, inr, [],
  ◌∷◌, ◌++◌, append-nil, append_assoc, arith,
}
use kama_asyn_log_system_clo.Storage.Path.{
  FilePath, enter, walk, left_by, left, uploads_name, upload_root, session_dir,
}
use kama_asyn_log_system_clo.Storage.Path.Resolve.{NoSlash}

left_name : (c : Bytes) (p : FilePath) → c ≢ codes ".." → left_by c p ≡ []
unfolding left_by
left_name c p h = ground (arith, h, bytes_eq_iff c (codes ".."))

left-append :
    (s t cur : Bytes) (p : FilePath)
    → left (s ++ b'/' ∷ t) cur p ≡ left s cur p ++ left t [] (walk s cur p)
unfolding left walk
left-append [] t cur p = refl
left-append (c ∷ s) t cur p = elim (Bool-cases (c == b'/')) [
  | inl e ↦ rw e (
      ap (λ k. left_by cur p ++ k) (left-append s t [] (enter cur p))
      ∙ sym (
          append_assoc (left_by cur p) (left s [] (enter cur p))
            (left t [] (walk s [] (enter cur p)))))
  | inr e ↦ rw e (left-append s t (cur ++ c ∷ []) p)
]

left_component : (t cur : Bytes) (p : FilePath) → NoSlash t → left t cur p ≡ left_by (cur ++ t) p
unfolding left
left_component [] cur p h = rw append-nil
left_component (c ∷ t) cur p (hc, ht) = elim (Bool-cases (c == b'/')) [
  | inl e ↦ absurd (hc ((==_iff c b'/').0 e))
  | inr e ↦
      rw e (
        left_component t (cur ++ c ∷ []) p ht ∙ ap (λ k. left_by k p) (append_assoc cur (c ∷ []) t))
]

-- One more component that is not two dots, and its slash.
left_longer :
    (s t : Bytes) → left s [] [] ≡ [] → NoSlash t → t ≢ codes ".." → left (s ++ b'/' ∷ t) [] [] ≡ []
left_longer s t h n m =
    left-append s t [] []
    ∙ ap (λ k. k ++ left t [] (walk s [] [])) h
    ∙ left_component t [] (walk s [] []) n
    ∙ left_name t (walk s [] []) m

session_text :
    (dir id : Bytes)
    → session_dir (dir ++ codes "/") id ≡ ((dir ++ b'/' ∷ uploads_name) ++ b'/' ∷ id) ++ b'/' ∷ []
unfolding session_dir upload_root
session_text dir id =
    ap (λ k. (k ++ id) ++ codes "/")
      (append_assoc dir (codes "/") (uploads_name ++ codes "/")
        ∙ sym (append_assoc dir (b'/' ∷ uploads_name) (codes "/")))
    ∙ ap (λ k. k ++ codes "/") (append_assoc (dir ++ b'/' ∷ uploads_name) (codes "/") id)

-- The path of a session leaves no directory where neither the storage directory nor the identifier
-- does.
pub left-session_dir :
    (dir id : Bytes)
    → left dir [] [] ≡ []
    → NoSlash id
    → id ≢ codes ".."
    → left (session_dir (dir ++ codes "/") id) [] [] ≡ []
left-session_dir dir id h n m =
    ap (λ s. left s [] []) (session_text dir id)
    ∙ left_longer ((dir ++ b'/' ∷ uploads_name) ++ b'/' ∷ id) []
        (left_longer (dir ++ b'/' ∷ uploads_name) id
          (left_longer dir uploads_name h (omega arith) (λ e. cc)) n m)
        tt (λ e. cc)
