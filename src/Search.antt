-- ===== src/Search.antt =====
-- artifactory/services/utils/searchutil.go: the items of a search result, and the reduction of a
-- sorted result to the topmost or the lowest entries of each chain of folders.
-- A content reader is the list of the records that it yields, with the error that GetError returns.
pub mod TopChain
pub mod Separate
pub mod BottomChain
pub mod Reduce
pub mod Samples
use jfrog_client_go.Base.{
  ℕ, Bool, true, false, ◌&&◌, ◌||◌, not, Option, none, some, List, [], ◌∷◌, ◌++◌, if◌then◌else◌,
}
use jfrog_client_go.Base.Outcome.{Outcome, ok, err}
use jfrog_client_go.Base.Text.{Bytes, codes, str_eq, has_prefix, ends_with}
use jfrog_client_go.Base.Text.Paths.{path_join}
use jfrog_client_go.Props.{Property}

pub record Stat : Type 0 where
  pub downloaded : Bytes
  pub downloads : Bytes
  pub downloaded_by : Bytes
  pub remote_downloads : Bytes

pub record ResultItem : Type 0 where
  pub repo : Bytes
  pub path : Bytes
  pub name : Bytes
  pub created : Bytes
  pub modified : Bytes
  pub updated : Bytes
  pub created_by : Bytes
  pub modified_by : Bytes
  pub type : Bytes
  pub actual_md5 : Bytes
  pub actual_sha1 : Bytes
  pub sha256 : Bytes
  pub depth : ℕ
  pub size : ℕ
  pub original_md5 : Bytes
  pub properties : List Property
  pub stats : List Stat

pub record Reader : Type 0 where
  pub records : List ResultItem
  pub error : Option Bytes

abbrev pub slash : ℕ
slash = b'/'

pub is_folder : ResultItem → Bool
unfolding str_eq
is_folder item = str_eq item.type (codes "folder")

unfoldable pub append_folder_suffix : Bytes → Bytes
unfolding ends_with
append_folder_suffix folder_path =
    if not (ends_with slash folder_path) then folder_path ++ slash ∷ [] else folder_path

unfoldable pub get_item_relative_path : ResultItem → Bytes
unfolding path_join append_folder_suffix is_folder
get_item_relative_path item =
    if str_eq item.path (codes ".")
    then path_join (item.repo ∷ item.name ∷ [])
    else let url = path_join (item.repo ∷ item.path ∷ item.name ∷ []) in
      if is_folder item then append_folder_suffix url else url

unfoldable pub get_sort_key : ResultItem → Bytes
unfolding get_item_relative_path
get_sort_key item =
    if is_folder item
    then append_folder_suffix (get_item_relative_path item)
    else get_item_relative_path item

unfoldable pub get_item_relative_location : ResultItem → Bytes
unfolding path_join
get_item_relative_location item = path_join (item.repo ∷ item.path ∷ []) ++ slash ∷ []

unfoldable pub find_property : Bytes → List Property → Bytes
unfolding str_eq
find_property key [] = []
find_property key (prop ∷ props) =
    if str_eq prop.key key then prop.value else find_property key props

pub get_property : ResultItem → Bytes → Bytes
unfolding find_property
get_property item key = find_property key item.properties

-- The item's name is ".": the repository's root.
unfoldable pub is_dot : ResultItem → Bool
unfolding str_eq
is_dot item = str_eq item.name (codes ".")

-- rPath of FilterBottomChainResults
unfoldable pub bottom_path : ResultItem → Bytes
bottom_path item = append_folder_suffix (get_item_relative_path item)

-- The loop of FilterBottomChainResults: `temp` is the last path that was written.
unfoldable pub bottom_chain : Bytes → List ResultItem → List ResultItem
unfolding is_dot bottom_path has_prefix
bottom_chain temp [] = []
bottom_chain temp (item ∷ items) = elim (is_dot item) [
  | true ↦ bottom_chain temp items
  | false ↦ elim (str_eq temp [] || not (has_prefix (bottom_path item) temp)) [
    | true ↦ item ∷ bottom_chain (bottom_path item) items
    | false ↦ bottom_chain temp items
  ]
]

unfoldable pub filter_bottom_chain_results : Reader → Outcome (List ResultItem)
unfolding bottom_chain
filter_bottom_chain_results reader = elim reader.error [
  | some e ↦ err e
  | none ↦ ok (bottom_chain [] reader.records)
]

-- rPath of FilterTopChainResults
unfoldable pub top_path : ResultItem → Bytes
top_path item =
    if is_folder item
    then append_folder_suffix (get_item_relative_path item)
    else get_item_relative_path item

-- The loop of FilterTopChainResults: `prev` is the last folder that was written.
unfoldable pub top_chain : Bytes → List ResultItem → List ResultItem
unfolding is_dot top_path has_prefix is_folder
top_chain prev [] = []
top_chain prev (item ∷ items) = elim (is_dot item) [
  | true ↦ top_chain prev items
  | false ↦ elim (str_eq prev [] || not (has_prefix prev (top_path item))) [
    | true ↦ item ∷ top_chain (if is_folder item then top_path item else prev) items
    | false ↦ top_chain prev items
  ]
]

unfoldable pub filter_top_chain_results : Reader → Outcome (List ResultItem)
unfolding top_chain
filter_top_chain_results reader = elim reader.error [
  | some e ↦ err e
  | none ↦ ok (top_chain [] reader.records)
]
