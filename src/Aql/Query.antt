-- ===== src/Aql/Query.antt =====
-- artifactory/services/utils/aqlquerybuilder.go and the search parameters of specutils.go: the text of
-- an AQL query. `itoa` is strconv.Itoa.
use jfrog_client_go.Base.{
  Bool, true, false, ◌&&◌, ◌||◌, not, Option, List, [], ◌∷◌, ◌++◌, map, if◌then◌else◌, ltb, any,
  length,
}
use jfrog_client_go.Base.Int.{ℤ, pos, ltb_ℤ}
use jfrog_client_go.Base.Text.{Bytes, codes, str_eq, contains_byte, ends_with, join}
use jfrog_client_go.Base.Text.Replace.{replace_all}
use jfrog_client_go.Aql.{RepoPathFile, asterisk, slash}
use jfrog_client_go.Props.{Properties}

pub record Aql : Type 0 where
  pub items_find : Bytes

pub record CommonParams : Type 0 where
  pub aql : Aql
  pub pattern : Bytes
  pub exclusions : List Bytes
  pub target : Bytes
  pub props : Bytes
  pub target_props : Option Properties
  pub exclude_props : Bytes
  pub sort_order : Bytes
  pub sort_by : List Bytes
  pub offset : ℤ
  pub limit : ℤ
  pub build : Bytes
  pub project : Bytes
  pub exclude_artifacts : Bool
  pub include_deps : Bool
  pub bundle : Bytes
  pub recursive : Bool
  pub include_dirs : Bool
  pub regexp : Bool
  pub ant : Bool
  pub archive_entries : Bytes
  pub transitive : Bool
  pub include : List Bytes

pub data RequiredArtifactProps : Type 0 where
  all_props : RequiredArtifactProps
  symlink_props : RequiredArtifactProps
  no_props : RequiredArtifactProps

-- A text between double quotes.
abbrev pub quoted : Bytes → Bytes
quoted s = codes "\"" ++ (s ++ codes "\"")

-- slices.Contains(xs, s)
unfoldable pub contains : List Bytes → Bytes → Bool
unfolding str_eq
contains xs s = any xs (λ x. str_eq x s)

unfoldable pub get_aql_value : Bytes → Bytes
unfolding contains_byte
get_aql_value val =
    if contains_byte asterisk val
    then codes "{\"$match\":\"" ++ (val ++ codes "\"}")
    else quoted val

unfoldable pub add_wildcard_if_needed : Bytes → Bool → Bytes
unfolding ends_with str_eq
add_wildcard_if_needed pattern repository_exists =
    if ends_with slash pattern || (str_eq pattern [] && repository_exists)
    then pattern ++ codes "*"
    else pattern

unfoldable pub prepare_search_pattern : Bytes → Bool → Bytes
unfolding add_wildcard_if_needed replace_all
prepare_search_pattern pattern repository_exists =
    replace_all (codes ")") []
      (replace_all (codes "(") [] (add_wildcard_if_needed pattern repository_exists))

unfoldable pub build_inner_query_part : RepoPathFile → Bytes
unfolding get_aql_value
build_inner_query_part triple =
    codes "{\"$and\":[{\"repo\":"
    ++ (get_aql_value triple.repo
        ++ (codes ",\"path\":"
            ++ (get_aql_value triple.path
                ++ (codes ",\"name\":" ++ (get_aql_value triple.file ++ codes "}]}")))))

unfoldable pub build_inner_archive_query_part : RepoPathFile → Bytes → Bytes → Bytes
unfolding get_aql_value
build_inner_archive_query_part triple archive_path archive_name =
    codes "{\"$and\":[{\"repo\":"
    ++ (get_aql_value triple.repo
        ++ (codes ",\"path\":"
            ++ (get_aql_value triple.path
                ++ (codes ",\"name\":"
                    ++ (get_aql_value triple.file
                        ++ (codes ",\"archive.entry.path\":"
                            ++ (get_aql_value archive_path
                                ++ (codes ",\"archive.entry.name\":"
                                    ++ (get_aql_value archive_name ++ codes "}]}")))))))))

-- The loop over the archive entries: a comma after each but the last.
unfoldable pub handle_archive_search : RepoPathFile → List RepoPathFile → Bytes
unfolding build_inner_archive_query_part
handle_archive_search triple [] = []
handle_archive_search triple (pair ∷ []) = build_inner_archive_query_part triple pair.path pair.file
handle_archive_search triple (pair ∷ next ∷ pairs) =
    build_inner_archive_query_part triple pair.path pair.file
    ++ (codes "," ++ handle_archive_search triple (next ∷ pairs))

unfoldable pub one_triple : RepoPathFile → List RepoPathFile → Bytes
unfolding handle_archive_search build_inner_query_part
one_triple triple archive_pairs =
    if ltb 0 (length archive_pairs)
    then handle_archive_search triple archive_pairs
    else build_inner_query_part triple

-- `pathPairSize` is the length of the list at the only call.
unfoldable pub handle_repo_path_file_triples : List RepoPathFile → List RepoPathFile → Bytes
unfolding one_triple
handle_repo_path_file_triples [] archive_pairs = []
handle_repo_path_file_triples (triple ∷ []) archive_pairs = one_triple triple archive_pairs
handle_repo_path_file_triples (triple ∷ next ∷ triples) archive_pairs =
    one_triple triple archive_pairs
    ++ (codes "," ++ handle_repo_path_file_triples (next ∷ triples) archive_pairs)

unfoldable pub prepare_fields_for_query : List Bytes → List Bytes
prepare_fields_for_query fields = map quoted fields

unfoldable pub build_include_query_part : List Bytes → Bytes
unfolding prepare_fields_for_query join
build_include_query_part fields =
    codes ".include(" ++ (join (codes ",") (prepare_fields_for_query fields) ++ codes ")")

unfoldable pub build_sort_query_part : List Bytes → Bytes → Bytes
unfolding prepare_fields_for_query join str_eq
build_sort_query_part sort_fields sort_order =
    codes "\"$"
    ++ ((if str_eq sort_order [] then codes "asc" else sort_order)
        ++ (codes "\":[" ++ (join (codes ",") (prepare_fields_for_query sort_fields) ++ codes "]")))

unfoldable pub include_properties_in_aql_for_spec : CommonParams → Bool
unfolding ltb_ℤ
include_properties_in_aql_for_spec spec_file =
    not (ltb 0 (length spec_file.sort_by) || ltb_ℤ (pos 0) spec_file.limit)

unfoldable pub append_missing_fields : List Bytes → List Bytes → List Bytes
unfolding contains
append_missing_fields [] default_fields = default_fields
append_missing_fields (field ∷ fields) default_fields =
    append_missing_fields fields
      (if contains default_fields field then default_fields else default_fields ++ field ∷ [])

-- The loop over the included fields, which skips those that are there.
unfoldable pub include_missing : List Bytes → List Bytes → List Bytes
unfolding contains
include_missing [] return_fields = return_fields
include_missing (field ∷ included) return_fields =
    include_missing included
      (if contains return_fields field then return_fields else return_fields ++ field ∷ [])

unfoldable pub get_query_return_fields_with_include : List Bytes → List Bytes
unfolding include_missing
get_query_return_fields_with_include included_query =
    include_missing included_query (codes "name" ∷ codes "repo" ∷ codes "path" ∷ [])

abbrev pub default_fields : List Bytes
default_fields =
    codes "name"
    ∷ codes "repo"
    ∷ codes "path"
    ∷ codes "actual_md5"
    ∷ codes "actual_sha1"
    ∷ codes "sha256"
    ∷ codes "size"
    ∷ codes "type"
    ∷ codes "modified"
    ∷ codes "created"
    ∷ []

-- requiredArtifactProps != NONE
unfoldable pub some_props : RequiredArtifactProps → Bool
some_props no_props = false
some_props all_props = true
some_props symlink_props = true

-- The fields before sorting and properties are looked at.
unfoldable pub base_fields : List Bytes → List Bytes
unfolding get_query_return_fields_with_include
base_fields [] = default_fields
base_fields (field ∷ fields) = get_query_return_fields_with_include (field ∷ fields)

unfoldable pub get_query_return_fields : CommonParams → RequiredArtifactProps → List Bytes
unfolding base_fields append_missing_fields include_properties_in_aql_for_spec some_props
get_query_return_fields spec_file required =
    let return_fields = base_fields spec_file.include in
    if not (include_properties_in_aql_for_spec spec_file)
    then append_missing_fields spec_file.sort_by return_fields
    else if some_props required
    then return_fields ++ codes "property" ∷ []
    else return_fields

module _ (itoa : ℤ → Bytes) where
  unfoldable pub append_offset_query_part : CommonParams → Bytes → Bytes
  unfolding ltb_ℤ
  append_offset_query_part spec_file query =
      if ltb_ℤ (pos 0) spec_file.offset
      then query ++ (codes ".offset(" ++ (itoa spec_file.offset ++ codes ")"))
      else query

  unfoldable pub append_limit_query_part : CommonParams → Bytes → Bytes
  unfolding ltb_ℤ
  append_limit_query_part spec_file query =
      if ltb_ℤ (pos 0) spec_file.limit
      then query ++ (codes ".limit(" ++ (itoa spec_file.limit ++ codes ")"))
      else query

  unfoldable pub append_sort_query_part : CommonParams → Bytes → Bytes
  unfolding build_sort_query_part
  append_sort_query_part spec_file query =
      if ltb 0 (length spec_file.sort_by)
      then query
        ++ (codes ".sort({"
            ++ (build_sort_query_part spec_file.sort_by spec_file.sort_order ++ codes "})"))
      else query

  unfoldable pub append_transitive_query_part : CommonParams → Bytes → Bytes
  append_transitive_query_part spec_file query =
      if spec_file.transitive then query ++ codes ".transitive()" else query

  unfoldable pub build_query_from_spec_file : CommonParams → RequiredArtifactProps → Bytes
  unfolding get_query_return_fields build_include_query_part append_offset_query_part
      append_limit_query_part append_sort_query_part append_transitive_query_part
  build_query_from_spec_file spec_file required =
      let query =
        codes "items.find("
        ++ (spec_file.aql.items_find
            ++ (codes ")"
                ++ build_include_query_part (get_query_return_fields spec_file required))) in
      append_limit_query_part spec_file (
        append_transitive_query_part spec_file
          (append_offset_query_part spec_file (append_sort_query_part spec_file query)))
