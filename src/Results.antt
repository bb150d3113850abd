-- ===== src/Results.antt =====
-- artifactory/services/utils/resultutils.go and storageutils.go: the results of transfers and of storage
-- queries, with the splitting of paths (on Unix) of utils/io/fileutils/files.go.
mod Samples
use jfrog_client_go.Base.{
  ℕ, zero, suc, ◌+◌, ◌-◌, Bool, true, false, ◌&&◌, ◌||◌, not, Option, none, some, List, [], ◌∷◌,
  ◌++◌, ◌==◌, leb, drop, take, map, if◌then◌else◌,
}
use jfrog_client_go.Base.Outcome.{Outcome, err, ok, ◌>>=◌}
use jfrog_client_go.Base.Text.{Bytes, codes, str_eq, has_prefix, index_byte, last_index_byte}
use jfrog_client_go.Base.Text.Paths.{clean, path_join}
use jfrog_client_go.Util.{Checksum}

abbrev slash : ℕ
slash = b'/'

abbrev backslash : ℕ
backslash = 92

-- strings.LastIndex(s, p) for a text `p` that is not empty: `none` is -1.
unfoldable pub last_index : Bytes → Bytes → Option ℕ
unfolding has_prefix
last_index p [] = none
last_index p (c ∷ s) = elim (last_index p s) [
  | some i ↦ some (suc i)
  | none ↦ if has_prefix p (c ∷ s) then some 0 else none
]

-- index1 >= index2
abbrev at_least : Option ℕ → Option ℕ → Bool
at_least o none = true
at_least none (some j) = false
at_least (some i) (some j) = leb j i

-- 1 where the last separator is two backslashes.
unfoldable pub separator_offset : Option ℕ → Option ℕ → ℕ
separator_offset (some index2) (some index3) = if index2 == suc index3 then 1 else 0
separator_offset none o = 0
separator_offset (some index2) none = 0

-- (fileName, dir)
unfoldable pub get_file_and_dir_from_path : Bytes → Bytes × Bytes
unfolding last_index_byte last_index separator_offset
get_file_and_dir_from_path path =
    let index1 = last_index_byte slash path in
    let index2 = last_index_byte backslash path in
    let on_slash = at_least index1 index2 in
    let offset =
      if on_slash
      then 0
      else separator_offset index2 (last_index (backslash ∷ backslash ∷ []) path) in
    elim (if on_slash then index1 else index2) [
      | none ↦ (path, [])
      | some index ↦ (drop (suc index) path, take (index - offset) path)
    ]

-- (localTargetPath, fileName)
unfoldable pub get_local_path_and_file : Bytes → Bytes → Bytes → Bool → Bool → Bytes × Bytes
unfolding get_file_and_dir_from_path clean path_join str_eq
get_local_path_and_file original_file_name relative_path target_path flat placeholders_used =
    let (target_file_name, target_dir_path) = get_file_and_dir_from_path target_path in
    let local_target_path =
      if not flat && not placeholders_used
      then path_join (target_dir_path ∷ relative_path ∷ [])
      else clean target_dir_path in
    (
      local_target_path,
      if not (str_eq target_file_name []) && not (str_eq target_file_name (codes "."))
          then target_file_name
          else original_file_name,
    )

unfoldable pub sum_int_array : List ℕ → ℕ
sum_int_array [] = 0
sum_int_array (i ∷ arr) = i + sum_int_array arr

pub record ArtifactDetails : Type 0 where
  pub artifactory_path : Bytes
  pub checksums : Checksum

-- The fields of build-info-go's Artifact and Dependency that are set.
pub record Artifact : Type 0 where
  pub name : Bytes
  pub type : Bytes
  pub path : Bytes
  pub checksum : Checksum

pub record Dependency : Type 0 where
  pub id : Bytes
  pub sha1 : Bytes
  pub md5 : Bytes

-- What stands behind the last byte `c` of a text; empty without one.
abbrev behind_last : ℕ → Bytes → Bytes
behind_last c s = elim (last_index_byte c s) [ none ↦ [] | some i ↦ drop (suc i) s ]

-- The caller drops the artifact that comes with the error; the path has no % for the error's format.
unfoldable pub to_build_info_artifact : ArtifactDetails → Outcome Artifact
unfolding get_file_and_dir_from_path index_byte last_index_byte
to_build_info_artifact details =
    let filename = (get_file_and_dir_from_path details.artifactory_path).0 in
    elim (index_byte slash details.artifactory_path) [
      | some i ↦ ok (record {
        name = filename;
        type = behind_last b'.' filename;
        path = drop (suc i) details.artifactory_path;
        checksum = details.checksums;
      })
      | none ↦ err (
          codes "artifact path:' " ++ (details.artifactory_path ++ codes "' lacks repository name"))
    ]

unfoldable pub to_build_info_dependency : ArtifactDetails → Dependency
unfolding get_file_and_dir_from_path
to_build_info_dependency details = record {
  id = (get_file_and_dir_from_path details.artifactory_path).0;
  sha1 = details.checksums.sha1;
  md5 = details.checksums.md5;
}

-- The loop, with the artifacts so far; the reader's own error is `read_error`.
unfoldable pub convert_from :
    Option Bytes → List Artifact → List ArtifactDetails → Outcome (List Artifact)
unfolding to_build_info_artifact
convert_from none build_artifacts [] = ok build_artifacts
convert_from (some read_error) build_artifacts [] = err read_error
convert_from read_error build_artifacts (details ∷ rest) = do
  artifact ← to_build_info_artifact details
  convert_from read_error (build_artifacts ++ artifact ∷ []) rest

unfoldable pub convert_artifacts_details_to_build_info_artifacts :
    List ArtifactDetails → Option Bytes → Outcome (List Artifact)
unfolding convert_from
convert_artifacts_details_to_build_info_artifacts details read_error =
    convert_from read_error [] details

unfoldable pub convert_artifacts_details_to_build_info_dependencies :
    List ArtifactDetails → Option Bytes → Outcome (List Dependency)
unfolding to_build_info_dependency
convert_artifacts_details_to_build_info_dependencies details none =
    ok (map to_build_info_dependency details)
convert_artifacts_details_to_build_info_dependencies details (some read_error) = err read_error

-- The key of a summary is all that the search reads.
pub record RepositorySummary : Type 0 where
  pub repo_key : Bytes
  pub repo_type : Bytes

unfoldable pub find_repository_with_key : Bytes → List RepositorySummary → Outcome RepositorySummary
unfolding str_eq
find_repository_with_key key [] = err (codes "Failed to locate repository with key: " ++ key)
find_repository_with_key key (rs ∷ summaries) =
    let rest = find_repository_with_key key summaries in
    if str_eq rs.repo_key key then ok rs else rest
