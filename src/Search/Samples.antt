-- ===== src/Search/Samples.antt =====
-- Items of a search result, and the theorems at a result that meets their hypotheses.
use jfrog_client_go.Base.{◌≡◌, refl, false, some, none, inl, inr, List, [], ◌∷◌}
use jfrog_client_go.Base.Outcome.{ok}
use jfrog_client_go.Base.Text.{Bytes, codes}
use jfrog_client_go.Base.Text.Order.{str_lt}
use jfrog_client_go.Search.{
  ResultItem, is_dot, is_folder, top_path, top_chain, filter_top_chain_results,
  filter_bottom_chain_results, get_item_relative_path, get_sort_key,
}
use jfrog_client_go.Search.Reduce.{reduce_top_chain_dir_result, reduce_top_chain_dir_result_lem}
use jfrog_client_go.Sort.Keyed.{find_key}
use jfrog_client_go.Search.TopChain.{IsCovered, top_chain-IsKept}
use jfrog_client_go.Search.Separate.{IsSeparate, top_chain-IsSeparate}

abbrev pub item : Bytes → Bytes → Bytes → Bytes → ResultItem
item repo path name type = record {
  repo = repo;
  path = path;
  name = name;
  created = [];
  modified = [];
  updated = [];
  created_by = [];
  modified_by = [];
  type = type;
  actual_md5 = [];
  actual_sha1 = [];
  sha256 = [];
  depth = 0;
  size = 0;
  original_md5 = [];
  properties = [];
  stats = [];
}

abbrev folder_a : ResultItem
folder_a = item (codes "r") (codes ".") (codes "a") (codes "folder")

abbrev folder_ab : ResultItem
folder_ab = item (codes "r") (codes "a") (codes "b") (codes "folder")

abbrev file_b : ResultItem
file_b = item (codes "r") (codes ".") (codes "b") (codes "file")

abbrev found : List ResultItem
found = folder_a ∷ folder_ab ∷ file_b ∷ []

top_of_chain :
    filter_top_chain_results (record { records = found; error = none })
    ≡ ok (folder_a ∷ file_b ∷ [])
unfolding filter_top_chain_results get_item_relative_path
top_of_chain = refl

bottom_of_chain :
    filter_bottom_chain_results
      (record { records = file_b ∷ folder_ab ∷ folder_a ∷ []; error = none })
    ≡ ok (file_b ∷ folder_ab ∷ [])
unfolding filter_bottom_chain_results get_item_relative_path
bottom_of_chain = refl

top_chain-IsKept_example : IsCovered (top_chain [] found) folder_ab
unfolding is_dot
top_chain-IsKept_example = top_chain-IsKept found folder_ab (inr (inl refl)) refl

top_chain-IsSeparate_example : IsSeparate (top_chain [] found)
unfolding str_lt top_path is_folder get_item_relative_path
top_chain-IsSeparate_example =
    top_chain-IsSeparate [] found ((refl, (refl, tt)), ((refl, tt), (tt, tt)))

reduce_top_chain_dir_result_example :
    (result : List ResultItem) × (reduce_top_chain_dir_result 2
        (record { records = file_b ∷ folder_ab ∷ folder_a ∷ []; error = none })
      ≡ some (ok result))
    × IsSeparate result
    × ((it : ResultItem)
        → find_key get_sort_key (get_sort_key it) (file_b ∷ folder_ab ∷ folder_a ∷ []) ≡ some it
        → is_dot it ≡ false
        → IsCovered result it)
reduce_top_chain_dir_result_example =
    reduce_top_chain_dir_result_lem 2 (file_b ∷ folder_ab ∷ folder_a ∷ [])
