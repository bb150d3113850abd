-- ===== src/Delete/Samples.antt =====
-- The pass over the merged readers at inputs that meet the theorem's hypotheses, and two that do not.
use jfrog_client_go.Base.{◌≡◌, refl, none, some, List, [], ◌∷◌}
use jfrog_client_go.Base.Count.{SameItems}
use jfrog_client_go.Base.Text.{Bytes, codes, has_prefix, ends_with}
use jfrog_client_go.Base.Text.Order.{str_lt}
use jfrog_client_go.Search.{
  ResultItem, Reader, is_dot, get_sort_key, get_item_relative_path, get_item_relative_location,
}
use jfrog_client_go.Search.Samples.{item}
use jfrog_client_go.Merge.{compare_strings, merge_sorted_readers}
use jfrog_client_go.Merge.Sorted.{concat}
use jfrog_client_go.Delete.{write_candidates, write_candidate_dirs_to_be_deleted}
use jfrog_client_go.Delete.Sorted.{SortedByPath, without_artifacts}
use jfrog_client_go.Delete.Merged.{write_candidate_dirs_lem}

abbrev folder : Bytes → ResultItem
folder name = item (codes "r") (codes "d") name (codes "folder")

abbrev stays : ResultItem
stays = item (codes "r") (codes "d/b") (codes "x") (codes "file")

abbrev root : ResultItem
root = item (codes "r") (codes ".") (codes ".") (codes "folder")

abbrev candidates : List (List ResultItem)
candidates = (folder (codes "a") ∷ folder (codes "c") ∷ []) ∷ (folder (codes "b") ∷ []) ∷ []

abbrev files : Reader
files = record { records = stays ∷ []; error = none }

keeps_b :
    write_candidate_dirs_to_be_deleted candidates files
    ≡ some (folder (codes "a") ∷ folder (codes "c") ∷ [], none)
unfolding write_candidate_dirs_to_be_deleted merge_sorted_readers
keeps_b = refl

write_candidate_dirs_lem_example :
    (dirs : List ResultItem) × SortedByPath dirs
    × SameItems dirs (concat candidates)
    × (write_candidate_dirs_to_be_deleted candidates files
        ≡ some (without_artifacts (stays ∷ []) dirs, none))
unfolding is_dot get_item_relative_path get_item_relative_location get_sort_key str_lt has_prefix
    compare_strings ends_with
write_candidate_dirs_lem_example =
    write_candidate_dirs_lem candidates files (((refl, tt), (tt, tt)), ((tt, tt), tt))
      (refl, (refl, (refl, tt))) (tt, tt) (refl, tt)

-- A folder at the top level of a repository has no slash behind its path, so it is taken to hold what
-- lies in a folder whose name starts with its own: r/a is not deleted for the artifact in r/ab.
top_level :
    write_candidate_dirs_to_be_deleted
      ((item (codes "r") (codes ".") (codes "a") (codes "folder") ∷ []) ∷ [])
      (record {
        records = item (codes "r") (codes "ab") (codes "x") (codes "file") ∷ [];
        error = none;
      })
    ≡ some ([], none)
unfolding write_candidate_dirs_to_be_deleted merge_sorted_readers
top_level = refl

-- A folder named "." takes the path of the folder before it: it is written, though it contains the artifact.
dot_written :
    write_candidates (folder (codes "a") ∷ root ∷ []) (stays ∷ [])
    ≡ some (folder (codes "a") ∷ root ∷ [])
unfolding write_candidates
dot_written = refl
