-- ===== src/Delete/Merged.antt =====
-- WriteCandidateDirsToBeDeleted: the merge of the readers and the pass over it together.
use jfrog_client_go.Base.{
  ◌≡◌, refl, ◌∙◌, Bool, true, false, ◌&&◌, not, List, [], ◌∷◌, some, ◌⊎◌, inl, inr, All, Bool-cases,
  arith,
}
use jfrog_client_go.Base.Count.{SameItems, All-SameItems}
use jfrog_client_go.Base.Text.{Bytes, ends_with}
use jfrog_client_go.Base.Text.Order.{str_lt}
use jfrog_client_go.Search.{
  ResultItem, Reader, slash, is_dot, is_folder, append_folder_suffix, get_sort_key,
  get_item_relative_path,
}
use jfrog_client_go.Merge.{compare_strings, merge_sorted_readers}
use jfrog_client_go.Merge.Order.{SortedByKey}
use jfrog_client_go.Merge.Sorted.{concat, merge_sorted_readers_lem}
use jfrog_client_go.Delete.{write_candidates, write_candidate_dirs_to_be_deleted}
use jfrog_client_go.Delete.Sorted.{without_artifacts, SortedByPath, IsLocated, IsNamed}
use jfrog_client_go.Delete.Dirs.{write_candidates_lem}

-- A candidate whose name is not "." and whose path ends in a slash, as a folder's does below the top
-- level of a repository.
abbrev pub is_candidate : ResultItem → Bool
is_candidate d = not (is_dot d) && ends_with slash (get_item_relative_path d)

append_folder_suffix-same : (s : Bytes) → ends_with slash s ≡ true → append_folder_suffix s ≡ s
unfolding append_folder_suffix
append_folder_suffix-same s h = rw h refl

sort_key-cases :
    (d : ResultItem)
    → (get_sort_key d ≡ append_folder_suffix (get_item_relative_path d))
      ⊎ (get_sort_key d ≡ get_item_relative_path d)
unfolding get_sort_key
sort_key-cases d = elim (Bool-cases (is_folder d)) [
  | inl f ↦ inl (rw f refl)
  | inr f ↦ inr (rw f refl)
]

-- Such a candidate is sorted by the path that the pass reads.
sort_key-path : (d : ResultItem) → is_candidate d ≡ true → get_sort_key d ≡ get_item_relative_path d
sort_key-path d h =
    let ends : ends_with slash (get_item_relative_path d) ≡ true = ground arith in
    elim (sort_key-cases d) [
      | inl e ↦ e ∙ append_folder_suffix-same (get_item_relative_path d) ends
      | inr e ↦ e
    ]

no_others :
    (ds : List ResultItem)
    → All (λ d. is_candidate d ≡ true) ds
    → All (λ d. not (is_candidate d) ≡ false) ds
no_others [] h = tt
no_others (d ∷ ds) (h, hs) = (ground arith, no_others ds hs)

All-candidates :
    (P : ResultItem → Type 0) (ds : List ResultItem)
    → ((d : ResultItem) → is_candidate d ≡ true → P d)
    → All (λ d. not (is_candidate d) ≡ false) ds
    → All P ds
All-candidates P [] f h = tt
All-candidates P (d ∷ ds) f (h, hs) = (f d (ground arith), All-candidates P ds f hs)

All-later :
    (d : ResultItem) (es : List ResultItem)
    → is_candidate d ≡ true
    → All (λ e. not (is_candidate e) ≡ false) es
    → All (λ e. compare_strings (get_sort_key d) (get_sort_key e) true ≡ false) es
    → All (λ e. str_lt (get_item_relative_path e) (get_item_relative_path d) ≡ false) es
unfolding compare_strings
All-later d [] h hs sorted = tt
All-later d (e ∷ es) h (he, hs) (s, sorted) =
    let same = sort_key-path d h in
    let same' = sort_key-path e (ground arith) in
    (rw (← same, ← same') s, All-later d es h hs sorted)

SortedByKey-SortedByPath :
    (ds : List ResultItem)
    → All (λ d. not (is_candidate d) ≡ false) ds
    → SortedByKey get_sort_key true ds
    → SortedByPath ds
SortedByKey-SortedByPath [] h sorted = tt
SortedByKey-SortedByPath (d ∷ ds) (h, hs) (s, sorted) =
    (All-later d ds (ground arith) hs s, SortedByKey-SortedByPath ds hs sorted)

written-by :
    (readers : List (List ResultItem)) (files : Reader) (dirs written : List ResultItem)
    → merge_sorted_readers get_sort_key true readers ≡ some dirs
    → write_candidates dirs files.records ≡ some written
    → write_candidate_dirs_to_be_deleted readers files ≡ some (written, files.error)
unfolding write_candidate_dirs_to_be_deleted
written-by readers files dirs written h k = rw (h, write_candidate_dirs_to_be_deleted, k) refl

-- With every reader of candidates sorted by its sort key, every candidate's path ending in a slash and
-- none named ".", and the artifacts sorted by path, each in its location, the pass ends within its
-- fuel. It writes, in sorted order and as often as they are read, the candidates that contain none of
-- the artifacts, at any depth, and returns the error of the artifacts' reader.
pub write_candidate_dirs_lem :
    (readers : List (List ResultItem)) (files : Reader)
    → All (SortedByKey get_sort_key true) readers
    → All (λ d. is_candidate d ≡ true) (concat readers)
    → SortedByPath files.records
    → All IsLocated files.records
    → (dirs : List ResultItem) × SortedByPath dirs
      × SameItems dirs (concat readers)
      × (write_candidate_dirs_to_be_deleted readers files
          ≡ some (without_artifacts files.records dirs, files.error))
write_candidate_dirs_lem readers files sorted candidates sorted_files located =
    let (dirs, merged, by_key, items) = merge_sorted_readers_lem get_sort_key true readers sorted in
    let all =
      All-SameItems (λ d. not (is_candidate d)) dirs (concat readers) items
        (no_others (concat readers) candidates) in
    let by_path = SortedByKey-SortedByPath dirs all by_key in
    let named : All IsNamed dirs = All-candidates IsNamed dirs (λ d h. ground arith) all in
    let pass = write_candidates_lem dirs files.records named by_path sorted_files located in
    (dirs, by_path, items, written-by readers files dirs _ merged pass)
