-- ===== src/Storage/Listing/Placed.antt =====
-- Where the list lands in the template: `std::regex_replace` in `Handle` of
-- src/server/ListHandler.hpp.
use kama_asyn_log_system_clo.Base.{
  if◌then◌else◌, Bytes, starts_with, drop, All, ℕ, ◌≡◌, refl, sym, ap, ap₂, ◌∙◌, ◌≢◌, false, [],
  ◌∷◌, ◌++◌, append-nil, append_assoc, arith,
}
use kama_asyn_log_system_clo.Storage.Listing.{
  marker, Match, text, format_end, format_text, format_byte, format_match, replace_loop,
  regex_replace,
}

-- No match begins in a text, with what stands behind it.
unfoldable pub IsUnmarked : Bytes → Bytes → Type 0
IsUnmarked [] rest = Unit
IsUnmarked (c ∷ s) rest = (starts_with marker (c ∷ (s ++ rest)) ≡ false) × IsUnmarked s rest

-- A replacement text with no `$` is written as it is.
format_match_plain :
    (m : Match) (page : Bytes) → All (λ c. c ≢ b'$') page → format_match m text page ≡ page
unfolding format_match format_byte format_text format_end
format_match_plain m [] h = refl
format_match_plain m (c ∷ s) (hc, h) = ground (arith, format_match_plain m s h)

replace_loop-byte :
    (page prefix : Bytes) (c : ℕ) (s : Bytes)
    → starts_with marker (c ∷ s) ≡ false
    → replace_loop page 0 prefix (c ∷ s) ≡ c ∷ replace_loop page 0 (prefix ++ c ∷ []) s
unfolding replace_loop
replace_loop-byte page prefix c s h =
    ap
      (λ found.
        let skip : ℕ = if found then 12 else 0 in
        let since = if found then [] else prefix ++ c ∷ [] in
        let rest = replace_loop page skip since s in
        if found
        then format_match (record { prefix = prefix; suffix = drop 12 s }) text page ++ rest
        else c ∷ rest)
      h

replace_loop-unmarked :
    (page prefix s rest : Bytes)
    → IsUnmarked s rest
    → replace_loop page 0 prefix (s ++ rest) ≡ s ++ replace_loop page 0 (prefix ++ s) rest
unfolding IsUnmarked
replace_loop-unmarked page prefix [] rest h =
    ap (λ p. replace_loop page 0 p rest) (sym (append-nil prefix))
replace_loop-unmarked page prefix (c ∷ s) rest (hc, h) =
    replace_loop-byte page prefix c (s ++ rest) hc
    ∙ ap (λ k. c ∷ k) (replace_loop-unmarked page (prefix ++ c ∷ []) s rest h)
    ∙ ap (λ p. c ∷ (s ++ replace_loop page 0 p rest)) (append_assoc prefix (c ∷ []) s)

replace_loop-marker :
    (page prefix rest : Bytes)
    → replace_loop page 0 prefix (marker ++ rest)
      ≡ format_match (record { prefix = prefix; suffix = rest }) text page
        ++ replace_loop page 0 [] rest
unfolding replace_loop starts_with
replace_loop-marker page prefix rest = refl

replace_loop-nil : (page prefix : Bytes) → replace_loop page 0 prefix [] ≡ []
unfolding replace_loop
replace_loop-nil page prefix = refl

pub regex_replace-placed :
    (before after page : Bytes)
    → IsUnmarked before (marker ++ after)
    → IsUnmarked after []
    → All (λ c. c ≢ b'$') page
    → regex_replace (before ++ (marker ++ after)) page ≡ before ++ (page ++ after)
unfolding regex_replace
regex_replace-placed before after page hb ha hp =
    replace_loop-unmarked page [] before (marker ++ after) hb
    ∙ ap (λ k. before ++ k)
        (replace_loop-marker page before after ∙ ap₂ ◌++◌ (format_match_plain _ page hp) rest)
  where
    rest : replace_loop page 0 [] after ≡ after
    rest =
        ap (replace_loop page 0 []) (sym (append-nil after))
        ∙ replace_loop-unmarked page [] after [] ha
        ∙ ap (λ k. after ++ k) (replace_loop-nil page after)
        ∙ append-nil after
