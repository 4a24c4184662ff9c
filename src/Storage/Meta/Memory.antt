-- ===== src/Storage/Meta/Memory.antt =====
-- A store in memory that meets the laws: what the theorems assume of a store can hold.
use kama_asyn_log_system_clo.Base.{
  if◌then◌else◌, Option-cases, Bytes, bytes_eq, bytes_eq_iff, All, ◌≡◌, refl, ap, subst, ◌∙◌, inl,
  inr, Bool, true, false, Option, none, some, List, [], ◌∷◌, arith,
}
use kama_asyn_log_system_clo.Storage.Meta.{StorageInfo, MetadataStore}
use kama_asyn_log_system_clo.Storage.Meta.Store.{IsLawful}

-- Rows in memory, the URLs ever inserted, and whether the store can be reached.
pub record Rows : Type 0 where
  pub at : Bytes → Option StorageInfo
  pub urls : List Bytes
  pub up : Bool

abbrev own : Bytes → Option StorageInfo → Option StorageInfo
own k none = none
own k (some i) = if bytes_eq i.url k then some i else none

abbrev row : Rows → Bytes → Option StorageInfo
row s k = own k (s.at k)

abbrev put : StorageInfo → Rows → Bool × Rows
put i s =
    if s.up
    then (
      true,
      record s { at = λ k. if bytes_eq i.url k then some i else s.at k; urls = i.url ∷ s.urls },
    )
    else (false, s)

abbrev drop_row : Bytes → Rows → Bool × Rows
drop_row j s =
    if s.up
    then (true, record s { at = λ k. if bytes_eq j k then none else s.at k })
    else (false, s)

unfoldable pub collect : Rows → List Bytes → List StorageInfo
collect s [] = []
collect s (k ∷ ks) = elim (row s k) [ none ↦ collect s ks | some i ↦ i ∷ collect s ks ]

abbrev pub memory : MetadataStore Rows
memory = record {
  insert_row = put;
  update_row = put;
  delete_row = drop_row;
  get_one_by_url = λ k s. (if s.up then row s k else none, s);
  get_all = λ s. (if s.up then some (collect s s.urls) else none, s);
}

row-url : (s : Rows) (k : Bytes) {i : StorageInfo} → row s k ≡ some i → i.url ≡ k
row-url s k {i} h = elim (Option-cases (s.at k)) [
  | inl e ↦ ground arith
  | inr (r, e) ↦ ground (arith, bytes_eq_iff r.url k)
]

put-row_true :
    (i : StorageInfo) (s : Rows) (k : Bytes)
    → (put i s).0 ≡ true
    → row (put i s).1 k ≡ (if bytes_eq i.url k then some i else row s k)
put-row_true i s k h = ground arith

put-row_false :
    (i : StorageInfo) (s : Rows) (k : Bytes) → (put i s).0 ≡ false → row (put i s).1 k ≡ row s k
put-row_false i s k h = ground arith

collect-found : (s : Rows) (ks : List Bytes) → All (λ i. row s i.url ≡ some i) (collect s ks)
unfolding collect
collect-found s [] = unfold collect in tt
collect-found s (k ∷ ks) = elim (Option-cases (row s k)) [
  | inl e ↦ rw (e, collect) (collect-found s ks)
  | inr (i, e) ↦ rw (e, collect) (ap (row s) (row-url s k e) ∙ e, collect-found s ks)
]

listed :
    (s : Rows) {rows : List StorageInfo}
    → (if s.up then some (collect s s.urls) else none) ≡ some rows
    → All (λ i. row s i.url ≡ some i) rows
listed s {rows} h = subst (All (λ i. row s i.url ≡ some i)) same (collect-found s s.urls)
  where
    same : collect s s.urls ≡ rows
    same = ground arith

pub memory-IsLawful : IsLawful memory
memory-IsLawful = record {
  row = row;
  row_url = row-url;
  insert_true = put-row_true;
  insert_false = put-row_false;
  update_true = put-row_true;
  update_false = put-row_false;
  delete_true = λ j s k h. ground arith;
  delete_false = λ j s k h. ground arith;
  get_found = λ j s h. ground arith;
  get_keeps = λ j s k. refl;
  all_found = λ s {rows} h. listed s h;
  all_keeps = λ s k. refl;
}

-- A store that holds nothing has no row.
pub memory_no_row : (s : Rows) (k : Bytes) → s.at k ≡ none → memory-IsLawful.row s k ≡ none
unfolding memory-IsLawful
memory_no_row s k h = rw h refl
