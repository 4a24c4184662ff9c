-- ===== src/Storage/Mysql/Paging.antt =====
-- The arithmetic of the pages: `QueryList` of src/server/MysqlMetadataStore.hpp.
use native.Mathlib.Nat.{mod-eq_of_lt, lt-div-mul-add, div-mul-le_self}
use kama_asyn_log_system_clo.Base.{
  ℕ, zero, suc, ◌+◌, ◌-◌, ◌*◌, ◌/◌, ◌%◌, ◌^◌, ◌≤◌, ◌<◌, ◌≡◌, sym, ap, subst, ◌∙◌, arith,
}
use kama_asyn_log_system_clo.Storage.Mysql.{page_count, clamp_page, page_offset}

-- The pages hold all rows, and the last one holds at least one of them.
pub record Covers (total page_size count : ℕ) : Type 0 where
  pub low : 1 ≤ count
  pub enough : total ≤ count * page_size
  pub start : (count - 1) * page_size ≤ total
  pub needed : 0 < total → (count - 1) * page_size < total

quotient-Covers :
    (total page_size q : ℕ)
    → 1 ≤ page_size
    → 0 < total
    → total + page_size - 1 < q * page_size + page_size
    → q * page_size ≤ total + page_size - 1
    → Covers total page_size q
quotient-Covers total page_size zero low some_rows above below = absurd (omega arith)
quotient-Covers total page_size (suc k) low some_rows above below = record {
  low = omega arith;
  enough = omega arith;
  start = omega (arith, ap (λ m. m * page_size) before);
  needed = λ h. omega (arith, ap (λ m. m * page_size) before);
}
  where
    before : suc k - 1 ≡ k
    before = omega arith

quotient-eq :
    (total page_size : ℕ)
    → 0 < total
    → total + page_size ≤ 2 ^ 64
    → page_count total page_size ≡ (total + page_size - 1) / page_size
unfolding page_count
quotient-eq total page_size some_rows fits =
    let same : (total + page_size + (2 ^ 64 - 1)) % 2 ^ 64 ≡ total + page_size - 1 = omega arith in
    ground (arith, ap (λ n. n / page_size) same)

-- With no overflow, the number of pages is right: they hold all rows, and one page less would not.
pub page_count-Covers :
    (total page_size : ℕ)
    → 1 ≤ page_size
    → total + page_size ≤ 2 ^ 64
    → Covers total page_size (page_count total page_size)
page_count-Covers zero page_size low fits =
    unfold page_count in
    record {
      low = omega arith;
      enough = omega arith;
      start = omega arith;
      needed = λ h. omega arith;
    }
page_count-Covers (suc rest) page_size low fits =
    subst (Covers (suc rest) page_size) (sym (quotient-eq (suc rest) page_size (omega arith) fits))
      (quotient-Covers (suc rest) page_size ((suc rest + page_size - 1) / page_size) low
        (omega arith) (lt-div-mul-add low) (div-mul-le_self (suc rest + page_size - 1) page_size))

-- The page that is shown is one of them, and is the page asked for where that is one.
pub record IsShown (count asked page : ℕ) : Type 0 where
  pub low : 1 ≤ page
  pub high : page ≤ count
  pub kept : 1 ≤ asked → asked ≤ count → page ≡ asked

pub clamp_page-IsShown :
    (count asked : ℕ) → 1 ≤ count → IsShown count asked (clamp_page count asked)
unfolding clamp_page
clamp_page-IsShown count asked h = record {
  low = ground arith;
  high = ground arith;
  kept = λ low high. ground arith;
}

-- The row that a page starts with.
pub page_offset-eq :
    (page page_size total : ℕ)
    → 1 ≤ page
    → 1 ≤ page_size
    → (page - 1) * page_size ≤ total
    → total < 2 ^ 64
    → page_offset page page_size ≡ (page - 1) * page_size
unfolding page_offset
page_offset-eq zero page_size total low positive below fits = absurd (omega arith)
page_offset-eq (suc k) zero total low positive below fits = absurd (omega arith)
page_offset-eq (suc k) (suc n) total low positive below fits =
    ap (λ m. m * suc n % 2 ^ 64) first ∙ mod-eq_of_lt inside ∙ ap (λ m. m * suc n) (sym before)
  where
    before : suc k - 1 ≡ k
    before = omega arith

    rows : k * suc n ≤ total
    rows = omega (arith, ap (λ m. m * suc n) before, below)

    inside : k * suc n < 2 ^ 64
    inside = omega (arith, rows, fits)

    first : (suc k + (2 ^ 64 - 1)) % 2 ^ 64 ≡ k
    first = omega (arith, inside)
