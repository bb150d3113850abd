-- ===== src/Search/Reduce.antt =====
-- searchutil.go, ReduceDirResult: a search result is sorted by the paths of its items, and then
-- reduced to the topmost or to the lowest entries.
use jfrog_client_go.Base.{
  ℕ, ◌≡◌, refl, sym, ◌∙◌, Bool, true, false, Option, none, some, List, [], ◌∷◌, All, Elem, inl, inr,
  arith, Bool-cases,
}
use jfrog_client_go.Base.Outcome.{Outcome, ok, err}
use jfrog_client_go.Base.Text.{Bytes, str_eq}
use jfrog_client_go.Base.Text.Order.{str_lt, str_lt_asymm}
use jfrog_client_go.Merge.{compare_strings}
use jfrog_client_go.Search.{
  Reader, ResultItem, is_dot, get_sort_key, top_path, top_chain, filter_top_chain_results,
  filter_bottom_chain_results,
}
use jfrog_client_go.Search.TopChain.{IsCovered, top_chain-IsKept}
use jfrog_client_go.Search.Separate.{SortedByTopPath, IsSeparate, top_chain-IsSeparate}
use jfrog_client_go.Sort.{sort_content_reader_by_calculated_key}
use jfrog_client_go.Sort.Keyed.{AllBehind, IsStrict, find_key}
use jfrog_client_go.Sort.Sorted.{sort_content_reader_by_calculated_key_lem}

-- SortContentReader with the size of its buffers; an error of the reader ends it. `none` is a loop
-- out of fuel.
unfoldable pub sort_content_reader : Bool → ℕ → Reader → Option (Outcome Reader)
sort_content_reader ascending_order max_buffer_size reader = elim reader.error [
  | some e ↦ some (err e)
  | none ↦
      elim (sort_content_reader_by_calculated_key ascending_order get_sort_key max_buffer_size
        reader.records) [
          | none ↦ none
          | some sorted ↦ some (ok (record { records = sorted; error = none }))
        ]
]

unfoldable pub reduce_dir_result :
    Bool → (Reader → Outcome (List ResultItem)) → ℕ → Reader → Option (Outcome (List ResultItem))
unfolding sort_content_reader
reduce_dir_result ascending_order results_filter max_buffer_size reader =
    elim (sort_content_reader ascending_order max_buffer_size reader) [
      | none ↦ none
      | some Outcome.panic ↦ some Outcome.panic
      | some (err e) ↦ some (err e)
      | some (ok sorted_file) ↦ some (results_filter sorted_file)
    ]

unfoldable pub reduce_top_chain_dir_result : ℕ → Reader → Option (Outcome (List ResultItem))
unfolding reduce_dir_result
reduce_top_chain_dir_result = reduce_dir_result true filter_top_chain_results

unfoldable pub reduce_bottom_chain_dir_result : ℕ → Reader → Option (Outcome (List ResultItem))
unfolding reduce_dir_result
reduce_bottom_chain_dir_result = reduce_dir_result false filter_bottom_chain_results

get_sort_key-top_path : (item : ResultItem) → get_sort_key item ≡ top_path item
unfolding get_sort_key top_path
get_sort_key-top_path item = refl

not-before_of_behind :
    (x : ResultItem) (items : List ResultItem)
    → AllBehind get_sort_key true (get_sort_key x) items
    → All (λ y. str_lt (top_path y) (top_path x) ≡ false) items
unfolding compare_strings get_sort_key top_path
not-before_of_behind x [] h = tt
not-before_of_behind x (y ∷ items) (h, hs) =
    (str_lt_asymm (top_path x) (top_path y) h, not-before_of_behind x items hs)

SortedByTopPath-of_strict :
    (items : List ResultItem) → IsStrict get_sort_key true items → SortedByTopPath items
SortedByTopPath-of_strict [] h = tt
SortedByTopPath-of_strict (x ∷ items) (h, hs) =
    (not-before_of_behind x items h, SortedByTopPath-of_strict items hs)

Elem-find_key :
    (k : Bytes) (items : List ResultItem) (item : ResultItem)
    → find_key get_sort_key k items ≡ some item
    → Elem item items
unfolding find_key
Elem-find_key k [] item h = cc
Elem-find_key k (x ∷ items) item h = elim (Bool-cases (str_eq (get_sort_key x) k)) [
  | inl e ↦
      let h' : some x ≡ some item = rw e at h in
      let same : x ≡ item = ground arith in inl (sym same)
  | inr e ↦ inr (Elem-find_key k items item (rw e at h))
]

sort_content_reader-some :
    (asc : Bool) (size : ℕ) (items sorted : List ResultItem)
    → sort_content_reader_by_calculated_key asc get_sort_key size items ≡ some sorted
    → sort_content_reader asc size (record { records = items; error = none })
      ≡ some (ok (record { records = sorted; error = none }))
unfolding sort_content_reader
sort_content_reader-some asc size items sorted e = rw (sort_content_reader, e) refl

-- ReduceTopChainDirResult on any search result that is read without an error, in whatever order and
-- with whatever size of the sort's buffers: it ends without an error, no entry of its result lies
-- under a folder of the result that stands before it, and every item other than the root that is the
-- first with its path stands in the result or lies under a folder of it.
pub reduce_top_chain_dir_result_lem :
    (max_buffer_size : ℕ) (items : List ResultItem)
    → (result : List ResultItem) × (reduce_top_chain_dir_result max_buffer_size
          (record { records = items; error = none })
        ≡ some (ok result))
      × IsSeparate result
      × ((item : ResultItem)
          → find_key get_sort_key (get_sort_key item) items ≡ some item
          → is_dot item ≡ false
          → IsCovered result item)
unfolding reduce_top_chain_dir_result filter_top_chain_results
reduce_top_chain_dir_result_lem size items =
    let (sorted, e, strict, found) =
      sort_content_reader_by_calculated_key_lem true get_sort_key size items in
    (
      top_chain [] sorted,
      rw (reduce_dir_result, sort_content_reader-some true size items sorted e) refl,
      top_chain-IsSeparate [] sorted (SortedByTopPath-of_strict sorted strict),
      λ item first d.
          top_chain-IsKept sorted item
            (Elem-find_key (get_sort_key item) sorted item (found (get_sort_key item) ∙ first)) d,
    )
