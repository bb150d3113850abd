-- ===== src/Aql/Body.antt =====
-- artifactory/services/utils/aqlquerybuilder.go and artifactoryutils.go: the body of the query that a
-- search pattern is translated to, with its properties, exclusions and release bundle.
use jfrog_client_go.Base.{
  Bool, true, false, ◌&&◌, ◌||◌, not, Option, none, some, List, [], ◌∷◌, ◌++◌, map, if◌then◌else◌,
  ltb, length, ◌==◌,
}
use jfrog_client_go.Base.Outcome.{Outcome, ok, err, ◌>>=◌}
use jfrog_client_go.Base.Text.{
  Bytes, codes, str_eq, contains_byte, count_byte, ends_with, join, trim_suffix,
}
use jfrog_client_go.Base.Text.Split.{split_byte}
use jfrog_client_go.Base.Text.Replace.{replace_all}
use jfrog_client_go.Aql.{RepoPathFile, slash, create_path_file_pairs, create_repo_path_file_triples}
use jfrog_client_go.Aql.Query.{
  CommonParams, get_aql_value, add_wildcard_if_needed, prepare_search_pattern,
  handle_repo_path_file_triples,
}
use jfrog_client_go.Props.{Dict, parse_properties, keys_len, backslash}
use jfrog_client_go.Placeholders.{remove_placeholder_parentheses}

pub record Build : Type 0 where
  pub build_name : Bytes
  pub build_number : Bytes

abbrev pub latest_build_number_key : Bytes
latest_build_number_key = codes "LATEST"

-- A Go call's (value, error).
unfoldable pub checked : {A : Type 0} → A × Option Bytes → Outcome A
checked (a, none) = ok a
checked (a, some e) = err e

-- The loop from the last part down: `before` are the parts in front, the nearest first, `version` the
-- parts of the version so far. `none` where every delimiter is escaped.
unfoldable pub cut_version : List Bytes → List Bytes → Option (List Bytes × List Bytes)
unfolding ends_with
cut_version [] version = none
cut_version (p ∷ before) version =
    let rest = cut_version before (p ∷ version) in
    if not (ends_with backslash p) then some (p ∷ before, version) else rest

unfoldable pub reversed : List Bytes → List Bytes → List Bytes
reversed [] acc = acc
reversed (p ∷ ps) acc = reversed ps (p ∷ acc)

-- The last part starts the version.
unfoldable pub cut_name : List Bytes → Option (List Bytes × List Bytes)
unfolding cut_version
cut_name [] = none
cut_name (p ∷ before) = cut_version before (p ∷ [])

-- (name, version), both empty where no delimiter was found
unfoldable pub joined : Option (List Bytes × List Bytes) → Bytes × Bytes
unfolding join reversed
joined none = ([], [])
joined (some (before, version)) = (join (codes "/") (reversed before []), join (codes "/") version)

abbrev pub escaped_slash : Bytes
escaped_slash = 92 ∷ b'/' ∷ []

unfoldable pub unescape_slashes : Bytes → Bytes
unfolding replace_all
unescape_slashes s = replace_all escaped_slash (codes "/") s

-- With the debug lines left out; the identifier has no % for the error's format.
unfoldable pub parse_name_and_version : Bytes → Bool → Outcome (Bytes × Bytes)
unfolding str_eq contains_byte split_byte cut_name joined unescape_slashes reversed
parse_name_and_version identifier use_latest_policy =
    let (name, version) = joined (cut_name (reversed (split_byte slash identifier) [])) in
    if str_eq identifier []
    then ok ([], [])
    else if not (contains_byte slash identifier)
    then (if use_latest_policy
        then ok (identifier, latest_build_number_key)
        else err (codes "No '/' is found in '" ++ (identifier ++ codes "'")))
    else if str_eq name []
    then (if use_latest_policy
        then ok (unescape_slashes identifier, unescape_slashes latest_build_number_key)
        else err (
            codes "No delimiter char (/) without escaping char was found in '"
            ++ (identifier ++ codes "'")))
    else ok (unescape_slashes name, unescape_slashes version)

-- {"@key":value}
abbrev pub key_value_item : Bytes → Bytes → Bytes
key_value_item key value =
    codes "{\"@" ++ (key ++ (codes "\":" ++ (get_aql_value value ++ codes "}")))

unfoldable pub build_key_val_query_part : Bytes → List Bytes → Bytes
unfolding join get_aql_value
build_key_val_query_part key values =
    codes "\"$or\":[" ++ (join (codes ",") (map (key_value_item key) values) ++ codes "]")

unfoldable pub build_key_all_val_query_part : Bytes → List Bytes → Bytes
unfolding join get_aql_value
build_key_all_val_query_part key values =
    codes "\"$and\":[" ++ (join (codes ",") (map (key_value_item key) values) ++ codes "]")

unfoldable pub build_excluded_key_val_query_part : Bytes → Bytes → Bytes
unfolding get_aql_value
build_excluded_key_val_query_part key value =
    codes "\"@" ++ (key ++ (codes "\":{\"$ne\":" ++ (get_aql_value value ++ codes "}")))

unfoldable pub props_query : Dict → Bytes
unfolding build_key_all_val_query_part
props_query [] = []
props_query ((key, values) ∷ d) =
    build_key_all_val_query_part key values ++ (codes "," ++ props_query d)

unfoldable pub exclude_values : Bytes → List Bytes → Bytes
unfolding build_excluded_key_val_query_part
exclude_values key [] = []
exclude_values key (value ∷ values) =
    codes "{"
    ++ (build_excluded_key_val_query_part key value ++ (codes "}," ++ exclude_values key values))

unfoldable pub exclude_props_query : Dict → Bytes
unfolding exclude_values
exclude_props_query [] = []
exclude_props_query ((key, values) ∷ d) = exclude_values key values ++ exclude_props_query d

unfoldable pub build_props_query_part : Bytes → Bytes → Outcome Bytes
unfolding parse_properties props_query exclude_props_query trim_suffix checked
build_props_query_part props exclude_props = do
  properties ← checked (parse_properties props)
  excluded ← checked (parse_properties exclude_props)
  ok (
      props_query properties.properties
      ++ (if ltb 0 (keys_len excluded)
          then trim_suffix (codes ",")
              (codes "\"$or\":[" ++ exclude_props_query excluded.properties)
            ++ codes "],"
          else []))

unfoldable pub build_item_type_query_part : CommonParams → Bytes
build_item_type_query_part params = if params.include_dirs then codes "\"type\":\"any\"," else []

unfoldable pub build_ne_path_part : Bool → Bytes
build_ne_path_part include_root = if not include_root then codes "\"path\":{\"$ne\":\".\"}," else []

-- The first loop: the triples of all exclusions.
unfoldable pub exclusion_triples : List Bytes → Bool → Outcome (List RepoPathFile)
unfolding create_repo_path_file_triples prepare_search_pattern
exclusion_triples [] recursive = ok []
exclusion_triples (exclusion ∷ more) recursive = do
  found ← create_repo_path_file_triples (prepare_search_pattern exclusion true) recursive
  rest ← exclusion_triples more recursive
  ok (found.0 ++ rest)

unfoldable pub exclude_triple : Bool → RepoPathFile → Bytes
unfolding str_eq
exclude_triple use_local_path triple =
    let exclude_path =
      if not use_local_path && str_eq triple.path (codes ".") then codes "*" else triple.path in
    let exclude_repo_str =
      if not (str_eq triple.repo []) && not (str_eq triple.repo (codes "*"))
      then codes "\"repo\":{\"$nmatch\":\"" ++ (triple.repo ++ codes "\"},")
      else [] in
    codes "\"$or\":[{"
    ++ (exclude_repo_str
        ++ (codes "\"path\":{\"$nmatch\":\""
            ++ (exclude_path
                ++ (codes "\"},\"name\":{\"$nmatch\":\"" ++ (triple.file ++ codes "\"}}],")))))

unfoldable pub exclude_triples : Bool → List RepoPathFile → Bytes
unfolding exclude_triple
exclude_triples use_local_path [] = []
exclude_triples use_local_path (t ∷ ts) =
    exclude_triple use_local_path t ++ exclude_triples use_local_path ts

unfoldable pub build_exclude_query_part : CommonParams → Bool → Bool → Outcome Bytes
unfolding exclusion_triples exclude_triples
build_exclude_query_part params use_local_path recursive = do
  triples ← exclusion_triples params.exclusions recursive
  ok (exclude_triples use_local_path triples)

unfoldable pub build_release_bundle_query : CommonParams → Outcome Bytes
unfolding parse_name_and_version get_aql_value
build_release_bundle_query params = do
  bundle ← parse_name_and_version params.bundle false
  ok (
      if str_eq bundle.0 []
      then []
      else codes "\"$and\":[{\"release_artifact.release.name\":"
        ++ (get_aql_value bundle.0
            ++ (codes ",\"release_artifact.release.version\":"
                ++ (get_aql_value bundle.1 ++ codes "}],"))))

unfoldable pub create_archive_search_params : CommonParams → Outcome (List RepoPathFile)
unfolding prepare_search_pattern create_path_file_pairs str_eq
create_archive_search_params params =
    if not (str_eq params.archive_entries [])
    then create_path_file_pairs [] (prepare_search_pattern params.archive_entries false) true
    else ok []

unfoldable pub prepare_source_search_pattern : Bytes → Bytes → Outcome Bytes
unfolding add_wildcard_if_needed remove_placeholder_parentheses
prepare_source_search_pattern pattern target =
    remove_placeholder_parentheses (add_wildcard_if_needed pattern true) target

abbrev pub transitive_error : Bytes
transitive_error =
    codes
      "When searching or downloading with the transitive setting, the pattern must include a single repository only, meaning wildcards are allowed only after the first slash."

-- The triples of a search, refused where a transitive search has several repositories.
unfoldable pub check_transitive :
    CommonParams → List RepoPathFile × Bool → Outcome (List RepoPathFile)
check_transitive params found =
    if params.transitive && not found.1 then err transitive_error else ok found.0

unfoldable pub create_aql_body_for_spec_with_pattern : CommonParams → Outcome Bytes
unfolding prepare_source_search_pattern create_repo_path_file_triples build_props_query_part
    build_item_type_query_part build_ne_path_part build_exclude_query_part
    build_release_bundle_query create_archive_search_params handle_repo_path_file_triples count_byte
    check_transitive
create_aql_body_for_spec_with_pattern params = do
  search_pattern ← prepare_source_search_pattern params.pattern params.target
  found ← create_repo_path_file_triples search_pattern params.recursive
  triples ← check_transitive params found
  let triples_size = length triples
  let include_root = ltb (count_byte slash search_pattern) 2
  props ← build_props_query_part params.props params.exclude_props
  exclude_query ←
      build_exclude_query_part params (triples_size == 0 || params.recursive) params.recursive
  release_bundle ← build_release_bundle_query params
  archive_pairs ← create_archive_search_params params
  ok (
      codes "{"
      ++ (props
          ++ (build_item_type_query_part params
              ++ (build_ne_path_part (triples_size == 0 || include_root)
                  ++ (exclude_query
                      ++ (release_bundle
                          ++ (codes "\"$or\":["
                              ++ (handle_repo_path_file_triples triples archive_pairs
                                  ++ codes "]}"))))))))
