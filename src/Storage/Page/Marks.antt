-- ===== src/Storage/Page/Marks.antt =====
-- The markup of the list does not depend on what users wrote: src/server/PageRender.hpp.
use Prim.Native.String.{String}
use kama_asyn_log_system_clo.Base.{
  ◌==◌, if◌then◌else◌, Bytes, codes, bytes_eq, IsByte, stream, length, All, All-imp, to_string, ℕ,
  suc, ◌+◌, ◌-◌, ◌≡◌, refl, sym, ap, ap₂, ◌∙◌, Bool, true, false, not, ◌||◌, List, [], ◌∷◌, ◌++◌,
  map, arith,
}
use kama_asyn_log_system_clo.Storage.Page.{
  list_head, list_foot, page_step, generate_modern_file_list,
}
use kama_asyn_log_system_clo.Storage.Url.{url_encode, is_unreserved}
use kama_asyn_log_system_clo.Storage.Url.RoundTrip.{IsPlain, url_encode-IsPlain}
use kama_asyn_log_system_clo.Storage.Query.Link.{build_page_link}
use kama_asyn_log_system_clo.Storage.Html.{html_escape}
use kama_asyn_log_system_clo.Storage.Html.Escape.{IsInert, html_escape-IsInert}
use kama_asyn_log_system_clo.Storage.Meta.{StorageInfo}
use kama_asyn_log_system_clo.Storage.Page.Item.{display_size, file_item, file_items}

-- A byte that opens or closes a tag or a quoted attribute.
unfoldable pub is_mark : ℕ → Bool
is_mark c = (c == b'<') || (c == b'>') || (c == b'"') || (c == b'\'')

unfoldable pub marks : Bytes → Bytes
marks [] = []
marks (c ∷ s) = if is_mark c then c ∷ marks s else marks s

marks-append : (a b : Bytes) → marks (a ++ b) ≡ marks a ++ marks b
unfolding marks
marks-append [] b = refl
marks-append (c ∷ a) b = ground (arith, marks-append a b)

marks_inert : (s : Bytes) → All IsInert s → marks s ≡ []
unfolding marks is_mark
marks_inert [] h = refl
marks_inert (c ∷ s) (hc, h) = ground (arith, marks_inert s h)

marks_alike : (s t : Bytes) → All IsInert s → All IsInert t → marks s ≡ marks t
marks_alike s t hs ht = marks_inert s hs ∙ sym (marks_inert t ht)

marks_escaped : (s t : Bytes) → marks (html_escape s) ≡ marks (html_escape t)
marks_escaped s t =
    marks_alike (html_escape s) (html_escape t) (html_escape-IsInert s) (html_escape-IsInert t)

marks-append_eq :
    (a b c d : Bytes) → marks a ≡ marks b → marks c ≡ marks d → marks (a ++ c) ≡ marks (b ++ d)
marks-append_eq a b c d h k = marks-append a c ∙ ap₂ ◌++◌ h k ∙ sym (marks-append b d)

-- Part by part: the same text, or two with the same marks.
data SameMarks : List Bytes → List Bytes → Type 0 where
  finished : SameMarks [] []
  kept : {a : Bytes} {l r : List Bytes} → SameMarks l r → SameMarks (a ∷ l) (a ∷ r)
  swapped :
      {a b : Bytes} {l r : List Bytes}
      → marks a ≡ marks b
      → SameMarks l r
      → SameMarks (a ∷ l) (b ∷ r)

same_parts : (l : List Bytes) → SameMarks l l
same_parts [] = finished
same_parts (a ∷ l) = kept (same_parts l)

marks-stream : {l r : List Bytes} → SameMarks l r → marks (stream l) ≡ marks (stream r)
unfolding stream
marks-stream finished = refl
marks-stream (kept {a} {l} {r} h) = marks-append_eq a a (stream l) (stream r) refl (marks-stream h)
marks-stream (swapped {a} {b} {l} {r} e h) =
    marks-append_eq a b (stream l) (stream r) e (marks-stream h)

-- The same file without its name.
abbrev pub unnamed : StorageInfo → StorageInfo
unnamed file = record file { storage_path = [] }

file_item-marks :
    (ctime : ℕ → Bytes) (download_prefix : Bytes) (file : StorageInfo)
    → marks (file_item ctime download_prefix file)
      ≡ marks (file_item ctime download_prefix (unnamed file))
unfolding file_item display_size
file_item-marks ctime download_prefix file = marks-stream (
    kept (
      swapped (marks_escaped _ _) (
        kept (
          kept (
            kept (
              kept (
                kept (
                  kept (
                    swapped (marks_escaped _ _) (
                      kept (
                        kept (
                          kept (
                            swapped (marks_escaped _ _) (
                              kept (
                                swapped (marks_escaped _ _) (
                                  kept (
                                    kept (
                                      swapped (marks_escaped _ _) (
                                        kept (
                                          kept (
                                            swapped (marks_escaped _ _)
                                              (kept (finished)))))))))))))))))))))))

file_items-marks :
    (ctime : ℕ → Bytes) (download_prefix : Bytes) (files : List StorageInfo)
    → marks (file_items ctime download_prefix files)
      ≡ marks (file_items ctime download_prefix (map unnamed files))
unfolding file_items
file_items-marks ctime download_prefix [] = refl
file_items-marks ctime download_prefix (file ∷ files) =
    marks-append_eq (file_item ctime download_prefix file) _ _ _
      (file_item-marks ctime download_prefix file) (file_items-marks ctime download_prefix files)

list_head-marks :
    (total shown page_size : ℕ) (keyword sort : Bytes)
    → marks (list_head total shown page_size keyword sort)
      ≡ marks (list_head total shown page_size [] sort)
unfolding list_head
list_head-marks total shown page_size keyword sort = marks-stream (
    kept (
      kept (
        kept (
          kept (
            kept
              (kept (kept (kept (kept (swapped (marks_escaped keyword []) (same_parts _)))))))))))

-- A keyword in a link is encoded, and adds no mark.
plain-IsInert : (c : ℕ) → IsPlain c → IsInert c
unfolding is_unreserved
plain-IsInert c h = ground arith

keyword_part-IsInert :
    (keyword : Bytes)
    → All IsByte keyword
    → All IsInert (if not (bytes_eq keyword []) then codes "&q=" ++ url_encode keyword else [])
keyword_part-IsInert keyword h =
    let encoded =
      All-imp IsPlain IsInert plain-IsInert (url_encode keyword) (url_encode-IsPlain keyword h) in
    ground (arith, encoded)

build_page_link-marks :
    (page page_size : ℕ) (keyword sort : Bytes)
    → All IsByte keyword
    → marks (build_page_link page page_size keyword sort)
      ≡ marks (build_page_link page page_size [] sort)
unfolding build_page_link bytes_eq
build_page_link-marks page page_size keyword sort h = marks-append_eq (codes "/?page=") _ _ _ refl (
    marks-append_eq (to_string page) _ _ _ refl (
      marks-append_eq (codes "&page_size=") _ _ _ refl (
        marks-append_eq (to_string page_size) _ _ _ refl
          (marks-append_eq _ [] _ _ (marks_alike _ [] (keyword_part-IsInert keyword h) tt) refl))))

page_step-marks :
    (there : Bool) (link link' : Bytes) (label : String)
    → marks link ≡ marks link'
    → marks (page_step there link label) ≡ marks (page_step there link' label)
unfolding page_step
page_step-marks true link link' label h = marks-stream (kept (swapped h (same_parts _)))
page_step-marks false link link' label h = refl

list_foot-marks :
    (current count page_size : ℕ) (keyword sort : Bytes)
    → All IsByte keyword
    → marks (list_foot current count page_size keyword sort)
      ≡ marks (list_foot current count page_size [] sort)
unfolding list_foot
list_foot-marks current count page_size keyword sort h = marks-stream (
    kept (
      kept (
        swapped
          (page_step-marks _ _ _ _ (build_page_link-marks (current - 1) page_size keyword sort h))
          (kept (
            kept (
              kept (
                kept (
                  kept (
                    swapped
                      (page_step-marks _ _ _ _
                        (build_page_link-marks (current + 1) page_size keyword sort h))
                      (same_parts _))))))))))

length-unnamed : (files : List StorageInfo) → length (map unnamed files) ≡ length files
length-unnamed [] = refl
length-unnamed (file ∷ files) = ap suc (length-unnamed files)

-- No file name and no keyword of bytes adds, removes or moves a tag or a quote: the
-- list has the same angle brackets and quotation marks, in the same order, as the list of the same
-- files without their names, for no keyword.
pub generate_modern_file_list-marks :
    (ctime : ℕ → Bytes) (download_prefix : Bytes) (files : List StorageInfo)
    → (total current page_size : ℕ) (keyword sort : Bytes) → All IsByte keyword
    → marks
        (generate_modern_file_list ctime download_prefix files total current page_size keyword sort)
      ≡ marks (
          generate_modern_file_list ctime download_prefix
            (map unnamed files)
            total
            current
            page_size
            []
            sort)
unfolding generate_modern_file_list
generate_modern_file_list-marks ctime download_prefix files total current page_size keyword sort h =
    marks-append_eq (list_head total (length files) page_size keyword sort) _ _ _
      (list_head-marks total (length files) page_size keyword sort
        ∙ ap (λ n. marks (list_head total n page_size [] sort)) (sym (length-unnamed files)))
      (marks-append_eq (file_items ctime download_prefix files) _ _ _
        (file_items-marks ctime download_prefix files)
        (list_foot-marks _ _ page_size keyword sort h))
