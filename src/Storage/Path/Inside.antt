-- ===== src/Storage/Path/Inside.antt =====
-- Equality of resolved paths, and what lies in a directory.
use kama_asyn_log_system_clo.Base.{
  KeyEq, Bytes, bytes_eq_refl, bytes_eq_iff, length, ◌<◌, ◌≡◌, refl, ◌↔◌, true, false, [], ◌∷◌,
  arith,
}
use kama_asyn_log_system_clo.Storage.Path.{FilePath, path_eq, is_inside}

pub path_eq_sound : (p q : FilePath) → path_eq p q ≡ true → p ≡ q
unfolding path_eq
path_eq_sound [] [] h = refl
path_eq_sound [] (_ ∷ _) h = cc
path_eq_sound (_ ∷ _) [] h = cc
path_eq_sound (a ∷ p) (b ∷ q) h = ground (arith, bytes_eq_iff a b, path_eq_sound p q)

pub path_eq_refl : (p : FilePath) → path_eq p p ≡ true
unfolding path_eq
path_eq_refl [] = refl
path_eq_refl (a ∷ p) = ground (arith, bytes_eq_refl a, path_eq_refl p)

pub path_eq_iff : (p q : FilePath) → (path_eq p q ≡ true) ↔ (p ≡ q)
path_eq_iff p q = (path_eq_sound p q, λ e. cc (path_eq_refl p, e))

abbrev pub path_key : KeyEq FilePath
path_key = record { test = path_eq; test_iff = path_eq_iff }

pub is_inside_self : (p : FilePath) → is_inside p p ≡ true
unfolding is_inside
is_inside_self [] = path_eq_refl []
is_inside_self (c ∷ p) = ground (arith, path_eq_refl (c ∷ p))

pub is_inside_below :
    (dir p : FilePath) (c : Bytes) → is_inside dir p ≡ true → is_inside dir (c ∷ p) ≡ true
unfolding is_inside
is_inside_below dir p c h = ground arith

-- Nothing lies in a directory that has a longer path.
pub is_inside_longer : (dir p : FilePath) → length p < length dir → is_inside dir p ≡ false
unfolding is_inside
is_inside_longer dir [] h = ground (arith, path_eq_sound dir [])
is_inside_longer dir (c ∷ p) h = ground (arith, path_eq_sound dir (c ∷ p), is_inside_longer dir p)
