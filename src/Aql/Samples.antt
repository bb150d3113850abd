-- ===== src/Aql/Samples.antt =====
-- Tests and witnesses for the queries of a search.
use jfrog_client_go.Base.{
  ◌≡◌, ◌≢◌, refl, true, false, ◌||◌, ◌&&◌, [], ◌∷◌, none, some, if◌then◌else◌, ◌⊎◌, Distinct,
}
use jfrog_client_go.Base.Int.{pos}
use jfrog_client_go.Base.Outcome.{ok, err}
use jfrog_client_go.Base.Text.{codes, str_eq, index_byte}
use jfrog_client_go.Aql.{
  create_path_file_pairs, create_repo_path_file_triples, pattern_error, slash,
}
use jfrog_client_go.Aql.Triples.{
  Answers, Succeeds, create_path_file_pairs-Answers, create_repo_path_file_triples_lem,
}
use jfrog_client_go.Base.{arith}
use jfrog_client_go.Aql.Plain.{create_repo_path_file_triples-plain}
use jfrog_client_go.Aql.Query.{CommonParams, all_props, contains, get_query_return_fields}
use jfrog_client_go.Aql.Fields.{
  asked_for, wants_properties, sorted_or_limited, get_query_return_fields-contains,
  get_query_return_fields-Distinct,
}
use jfrog_client_go.Props.{
  parse_and_add_properties, add_parsed, split_while_ignoring_backslash_prefix_separators,
  split_prop_to_key_and_value, remove_duplicate_values, append_values, remove_duplicates, keys_len,
}
use jfrog_client_go.Aql.Body.{create_aql_body_for_spec_with_pattern, parse_name_and_version}

abbrev sorted_search : CommonParams
sorted_search = record {
  aql = record { items_find = [] };
  pattern = codes "libs/a*b/c";
  exclusions = [];
  target = [];
  props = codes "k=v*";
  target_props = none;
  exclude_props = [];
  sort_order = [];
  sort_by = codes "size" ∷ codes "repo" ∷ [];
  offset = pos 0;
  limit = pos 0;
  build = [];
  project = [];
  exclude_artifacts = false;
  include_deps = false;
  bundle = [];
  recursive = true;
  include_dirs = false;
  regexp = false;
  ant = false;
  archive_entries = [];
  transitive = false;
  include = codes "created" ∷ [];
}

sorted_search-body :
    create_aql_body_for_spec_with_pattern sorted_search
    ≡ ok (
        codes
          "{\"$and\":[{\"@k\":{\"$match\":\"v*\"}}],\"path\":{\"$ne\":\".\"},\"$or\":[{\"$and\":[{\"repo\":\"libs\",\"path\":{\"$match\":\"a*b\"},\"name\":\"c\"}]}]}")
unfolding create_aql_body_for_spec_with_pattern parse_and_add_properties add_parsed
    split_while_ignoring_backslash_prefix_separators split_prop_to_key_and_value
    remove_duplicate_values append_values remove_duplicates keys_len
sorted_search-body = refl

two_triples :
    create_repo_path_file_triples (codes "r/b*a") true
    ≡ ok (
      record { repo = codes "r"; path = codes "."; file = codes "b*a" }
          ∷ record { repo = codes "r"; path = codes "b*"; file = codes "*a" }
          ∷ [],
      true,
    )
unfolding create_repo_path_file_triples
two_triples = refl

escaped_version : parse_name_and_version (codes "name/1\\/2") false ≡ ok (codes "name", codes "1/2")
unfolding parse_name_and_version
escaped_version = refl

create_path_file_pairs-Answers_example :
    Answers (codes "r") (create_path_file_pairs (codes "r") (codes "a/b*c*d") true)
create_path_file_pairs-Answers_example =
    create_path_file_pairs-Answers (codes "r") (codes "a/b*c*d") true

create_repo_path_file_triples_example :
    ((index_byte slash (codes "a*b/c") ≡ some 0)
      × (create_repo_path_file_triples (codes "a*b/c") true ≡ err pattern_error))
    ⊎ ((index_byte slash (codes "a*b/c") ≢ some 0)
        × Succeeds (create_repo_path_file_triples (codes "a*b/c") true))
create_repo_path_file_triples_example = create_repo_path_file_triples_lem (codes "a*b/c") true

get_query_return_fields-contains_example :
    contains (get_query_return_fields sorted_search all_props) (codes "size")
    ≡ asked_for sorted_search.include (codes "size")
      || (if sorted_or_limited sorted_search.sort_by sorted_search.limit
          then contains sorted_search.sort_by (codes "size")
          else wants_properties all_props && str_eq (codes "property") (codes "size"))
get_query_return_fields-contains_example =
    get_query_return_fields-contains sorted_search all_props (codes "size")

created_only : contains sorted_search.include (codes "property") ≡ false
unfolding contains
created_only = refl

get_query_return_fields-Distinct_example :
    Distinct (get_query_return_fields sorted_search all_props)
get_query_return_fields-Distinct_example =
    get_query_return_fields-Distinct sorted_search all_props created_only

create_repo_path_file_triples-plain_example :
    create_repo_path_file_triples (codes "libs/a*b/c") false
    ≡ ok (record { repo = codes "libs"; path = codes "a*b"; file = codes "c" } ∷ [], true)
create_repo_path_file_triples-plain_example =
    create_repo_path_file_triples-plain b'l' (codes "ibs") (codes "a*b") (codes "c") (omega arith)
      (omega arith) (omega arith)
