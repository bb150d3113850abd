-- ===== src/Delete.antt =====
-- artifactory/services/utils/deleteutils.go: which folders may be deleted, by one pass over the merge
-- of the candidates' sorted readers and the sorted artifacts that stay.
pub mod Sorted
pub mod Dirs
pub mod Merged
mod Samples
use jfrog_client_go.Base.{
  ℕ, zero, suc, ◌+◌, ◌*◌, Bool, true, false, Option, none, some, List, [], ◌∷◌, ◌++◌, length,
}
use jfrog_client_go.Base.Text.{Bytes, has_prefix}
use jfrog_client_go.Base.Text.Order.{str_lt}
use jfrog_client_go.Search.{
  ResultItem, Reader, is_dot, get_sort_key, get_item_relative_path, get_item_relative_location,
}
use jfrog_client_go.Merge.{merge_sorted_readers}

-- The variables of the loop: the candidate and its path, the folders to come, the artifact and its
-- location, the artifacts to come, and what is written. A path is kept when its item is dropped.
abbrev pub Round : Type 0
Round =
    Option ResultItem
    → Bytes
    → List ResultItem
    → Option ResultItem
    → Bytes
    → List ResultItem
    → List ResultItem
    → Option (List ResultItem)

-- The three ways to go on with a candidate and an artifact.
unfoldable pub judge :
    Round
    → ResultItem
    → Bytes
    → List ResultItem
    → ResultItem
    → Bytes
    → List ResultItem
    → List ResultItem
    → Option (List ResultItem)
unfolding has_prefix str_lt
judge next c path dirs a location files written = elim (has_prefix path location) [
  | true ↦ next none path dirs (some a) location files written
  | false ↦ elim (str_lt path location) [
    | true ↦ next none path dirs (some a) location files (written ++ c ∷ [])
    | false ↦ next (some c) path dirs none location files written
  ]
]

-- Fetch the next artifact if there is none. With none left, the remaining folders are written.
unfoldable pub with_artifact :
    Round
    → ResultItem
    → Bytes
    → List ResultItem
    → Option ResultItem
    → Bytes
    → List ResultItem
    → List ResultItem
    → Option (List ResultItem)
unfolding judge get_item_relative_location
with_artifact next c path dirs none location [] written = some (written ++ c ∷ dirs)
with_artifact next c path dirs none location (a ∷ files) written =
    judge next c path dirs a (get_item_relative_location a) files written
with_artifact next c path dirs (some a) location files written =
    judge next c path dirs a location files written

-- `none` is a loop that is out of fuel.
unfoldable pub candidates_loop : ℕ → Round
unfolding with_artifact is_dot get_item_relative_path
candidates_loop zero candidate path dirs artifact location files written = none
candidates_loop (suc f) none path [] artifact location files written = some written
candidates_loop (suc f) none path (d ∷ dirs) artifact location files written = elim (is_dot d) [
  | true ↦ candidates_loop f (some d) path dirs artifact location files written
  | false ↦
      with_artifact (candidates_loop f) d (get_item_relative_path d) dirs artifact location files
        written
]
candidates_loop (suc f) (some c) path dirs artifact location files written =
    with_artifact (candidates_loop f) c path dirs artifact location files written

-- The whole loop, on the folders of the merged reader and the artifacts that stay.
unfoldable pub write_candidates : List ResultItem → List ResultItem → Option (List ResultItem)
unfolding candidates_loop
write_candidates dirs files =
    candidates_loop (2 * length dirs + length files + 1) none [] dirs none [] files []

-- The sorted readers of candidates and the reader of the artifacts that stay, to what is written and
-- the error that is returned. The records of the artifacts' reader are those that NextRecord gives, and
-- its error is what GetError answers after the pass. `none` is a loop that is out of fuel.
unfoldable pub write_candidate_dirs_to_be_deleted :
    List (List ResultItem) → Reader → Option (List ResultItem × Option Bytes)
unfolding write_candidates get_sort_key
write_candidate_dirs_to_be_deleted candidate_dirs_readers files_not_to_be_delete_reader =
    elim (merge_sorted_readers get_sort_key true candidate_dirs_readers) [
      | none ↦ none
      | some dirs ↦ elim (write_candidates dirs files_not_to_be_delete_reader.records) [
        | none ↦ none
        | some written ↦ some (written, files_not_to_be_delete_reader.error)
      ]
    ]
