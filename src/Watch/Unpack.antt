-- ===== src/Watch/Unpack.antt =====
-- xray/services/utils/watchbody.go: UnpackWatchBody and unpackFilters, which read a decoded body.
use jfrog_client_go.Base.{Option, none, some, List, [], ◌∷◌, ◌++◌, if◌then◌else◌}
use jfrog_client_go.Base.Outcome.{Outcome, ok, ◌>>=◌}
use jfrog_client_go.Base.Text.{Bytes, codes, str_eq}
use jfrog_client_go.Props.{sort_strings}
use jfrog_client_go.Watch.{
  WatchFilters, WatchPathFilters, WatchFilter, WatchParams, WatchBody, WatchProjectResourcesElement,
  Json, Fields, as_string, as_array, as_map, field?, field_string, strings_of,
}

-- append(slice, more...), which leaves a nil slice nil where nothing is added
unfoldable pub append_some : Option (List Bytes) → List Bytes → Option (List Bytes)
append_some none [] = none
append_some none (x ∷ xs) = some (x ∷ xs)
append_some (some xs) ys = some (xs ++ ys)

-- m[key] = value
unfoldable pub put {ℓ} : {A : Type ℓ} → Bytes → A → List (Bytes × A) → List (Bytes × A)
unfolding str_eq
put key a [] = (key, a) ∷ []
put key a ((k, b) ∷ entries) = if str_eq k key then (k, a) ∷ entries else (k, b) ∷ put key a entries

-- The strings under a key appended to the patterns; a missing key adds none.
unfoldable pub add_patterns : Option (List Bytes) → Option Json → Outcome (Option (List Bytes))
unfolding append_some as_array strings_of
add_patterns patterns none = ok patterns
add_patterns patterns (some val) = do
  items ← as_array val
  texts ← strings_of items
  ok (append_some patterns texts)

-- Only patterns that are empty so far are filled.
unfoldable pub fill_patterns : Option (List Bytes) → Option Json → Outcome (Option (List Bytes))
unfolding add_patterns
fill_patterns none val = add_patterns none val
fill_patterns (some []) val = add_patterns (some []) val
fill_patterns (some (x ∷ xs)) val = ok (some (x ∷ xs))

unfoldable pub unpack_path_patterns : WatchPathFilters → Fields → Outcome WatchPathFilters
unfolding fill_patterns field?
unpack_path_patterns repos fields = do
  exclude ← fill_patterns repos.exclude_patterns (field? (codes "ExcludePatterns") fields)
  include ← fill_patterns repos.include_patterns (field? (codes "IncludePatterns") fields)
  ok (record { exclude_patterns = exclude; include_patterns = include })

-- The cases of the switch on a filter's type.
pub data FilterType : Type 0 where
  package_type : FilterType
  regex : FilterType
  path_regex : FilterType
  mime_type : FilterType
  property : FilterType
  path_ant_patterns : FilterType
  other : FilterType

unfoldable pub filter_type : Bytes → FilterType
unfolding str_eq
filter_type t =
    if str_eq t (codes "package-type")
    then package_type
    else if str_eq t (codes "regex")
    then regex
    else if str_eq t (codes "path-regex")
    then path_regex
    else if str_eq t (codes "mime-type")
    then mime_type
    else if str_eq t (codes "property")
    then property
    else if str_eq t (codes "path-ant-patterns")
    then path_ant_patterns
    else other

unfoldable pub unpack_filter :
    FilterType → Json → WatchFilters → WatchPathFilters → Outcome (WatchFilters × WatchPathFilters)
unfolding as_string as_map field_string put unpack_path_patterns
unpack_filter package_type value output repos = do
  s ← as_string value
  ok (record output { package_types = output.package_types ++ s ∷ [] }, repos)
unpack_filter regex value output repos = do
  s ← as_string value
  ok (record output { names = output.names ++ s ∷ [] }, repos)
unpack_filter path_regex value output repos = do
  s ← as_string value
  ok (record output { paths = output.paths ++ s ∷ [] }, repos)
unpack_filter mime_type value output repos = do
  s ← as_string value
  ok (record output { mime_types = output.mime_types ++ s ∷ [] }, repos)
unpack_filter property value output repos = do
  params ← as_map value
  key ← field_string (codes "key") params
  val ← field_string (codes "value") params
  ok (record output { properties = put key val output.properties }, repos)
unpack_filter path_ant_patterns value output repos = do
  fields ← as_map value
  patterns ← unpack_path_patterns repos fields
  ok (output, patterns)
unpack_filter other value output repos = ok (output, repos)

-- The loop over the filters.
unfoldable pub unpack_each :
    List (WatchFilter Json)
    → WatchFilters
    → WatchPathFilters
    → Outcome (WatchFilters × WatchPathFilters)
unfolding unpack_filter filter_type
unpack_each [] output repos = ok (output, repos)
unpack_each (filter ∷ filters) output repos =
    unpack_filter (filter_type filter.type) filter.value output repos >>= λ r.
    unpack_each filters r.0 r.1

unfoldable pub sort_filters : WatchFilters → WatchFilters
unfolding sort_strings
sort_filters output = record {
  package_types = sort_strings output.package_types;
  names = sort_strings output.names;
  paths = sort_strings output.paths;
  mime_types = sort_strings output.mime_types;
  properties = output.properties;
}

unfoldable pub unpack_filters :
    List (WatchFilter Json)
    → WatchFilters
    → WatchPathFilters
    → Outcome (WatchFilters × WatchPathFilters)
unfolding unpack_each sort_filters
unpack_filters filters output repos =
    unpack_each filters (record output { properties = [] }) repos >>= λ r.
    ok (sort_filters r.0, r.1)

abbrev pub no_filters : WatchFilters
no_filters = record { package_types = []; names = []; paths = []; mime_types = []; properties = [] }

-- The loop over the filters of "all-builds".
unfoldable pub unpack_build_filters :
    List (WatchFilter Json) → WatchPathFilters → Outcome WatchPathFilters
unfolding str_eq as_map add_patterns field?
unpack_build_filters [] patterns = ok patterns
unpack_build_filters (filter ∷ filters) patterns =
    (if str_eq filter.type (codes "ant-patterns")
      then (as_map filter.value >>= λ fields.
          add_patterns patterns.exclude_patterns (field? (codes "ExcludePatterns") fields)
          >>= λ exclude.
              add_patterns patterns.include_patterns (field? (codes "IncludePatterns") fields)
              >>= λ include. ok (record { exclude_patterns = exclude; include_patterns = include }))
      else ok patterns)
    >>= λ next. unpack_build_filters filters next

-- One resource, by its type; any other type changes nothing.
unfoldable pub unpack_resource :
    WatchParams → WatchProjectResourcesElement Json → Outcome WatchParams
unfolding str_eq unpack_filters unpack_build_filters put
unpack_resource watch resource =
    let repos = watch.repositories in
    let builds = watch.builds in
    if str_eq resource.type (codes "all-repos")
    then (unpack_filters resource.filters repos.all_filters repos.path_filters >>= λ r.
        ok (record watch {
          repositories = record repos { type = codes "all"; all_filters = r.0; path_filters = r.1 };
        }))
    else if str_eq resource.type (codes "repository")
    then (unpack_filters resource.filters no_filters repos.path_filters >>= λ r. ok (record watch {
      repositories = record repos {
        type = codes "byname";
        repositories =
            put resource.name
              (record {
                name = resource.name;
                bin_mgr_id = resource.bin_mgr_id;
                repo_type = resource.repo_type;
                filters = r.0;
              })
              repos.repositories;
        path_filters = r.1;
      };
    }))
    else if str_eq resource.type (codes "all-builds")
    then (unpack_build_filters resource.filters builds.all.path_filters >>= λ patterns.
        ok (record watch {
          builds = record builds {
            type = codes "all";
            all = record { bin_mgr_id = resource.bin_mgr_id; path_filters = patterns };
          };
        }))
    else if str_eq resource.type (codes "build")
    then ok (record watch {
      builds = record builds {
        type = codes "byname";
        by_names =
            put resource.name (record { name = resource.name; bin_mgr_id = resource.bin_mgr_id })
              builds.by_names;
      };
    })
    else ok watch

unfoldable pub unpack_resources :
    WatchParams → List (WatchProjectResourcesElement Json) → Outcome WatchParams
unfolding unpack_resource
unpack_resources watch [] = ok watch
unpack_resources watch (resource ∷ resources) =
    unpack_resource watch resource >>= λ next. unpack_resources next resources

-- sort.Strings on a slice that may be nil
unfoldable pub sort_some : Option (List Bytes) → Option (List Bytes)
unfolding sort_strings
sort_some none = none
sort_some (some xs) = some (sort_strings xs)

unfoldable pub unpack_watch_body : WatchParams → WatchBody Json → Outcome WatchParams
unfolding unpack_resources sort_some
unpack_watch_body watch body = unpack_resources watch body.resources >>= λ w. ok (record w {
  repositories = record w.repositories {
    path_filters = record {
      exclude_patterns = sort_some w.repositories.path_filters.exclude_patterns;
      include_patterns = sort_some w.repositories.path_filters.include_patterns;
    };
  };
})
