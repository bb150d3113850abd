-- ===== src/Watch.antt =====
-- xray/services/utils/watchbody.go: the parameters of an Xray watch, the body that creates it, and
-- the way back. A filter's value is what the code puts there, or decoded JSON on the way back.
pub mod Unpack
pub mod Filters
mod Samples
use jfrog_client_go.Base.{
  ℕ, zero, suc, ◌+◌, Bool, true, false, ◌&&◌, ◌||◌, not, Option, none, some, List, [], ◌∷◌, ◌++◌,
  map, if◌then◌else◌, length,
}
use jfrog_client_go.Base.Outcome.{Outcome, ok, err, panic, ◌>>=◌}
use jfrog_client_go.Base.Text.{Bytes, codes, str_eq}
use jfrog_client_go.Props.{sort_strings}

-- A slice of strings whose nil the code tells apart is an option.
pub record WatchPathFilters : Type 0 where
  pub exclude_patterns : Option (List Bytes)
  pub include_patterns : Option (List Bytes)

pub record WatchFilters : Type 0 where
  pub package_types : List Bytes
  pub names : List Bytes
  pub paths : List Bytes
  pub mime_types : List Bytes
  pub properties : List (Bytes × Bytes)

pub record WatchRepository : Type 0 where
  pub name : Bytes
  pub bin_mgr_id : Bytes
  pub repo_type : Bytes
  pub filters : WatchFilters

pub record WatchRepositoriesParams : Type 0 where
  pub type : Bytes
  pub all_filters : WatchFilters
  pub repositories : List (Bytes × WatchRepository)
  pub path_filters : WatchPathFilters

pub record WatchBuildsByNameParams : Type 0 where
  pub name : Bytes
  pub bin_mgr_id : Bytes

pub record WatchBuildsAllParams : Type 0 where
  pub bin_mgr_id : Bytes
  pub path_filters : WatchPathFilters

pub record WatchBuildsParams : Type 0 where
  pub type : Bytes
  pub all : WatchBuildsAllParams
  pub by_names : List (Bytes × WatchBuildsByNameParams)

pub record AssignedPolicy : Type 0 where
  pub name : Bytes
  pub type : Bytes

pub record WatchParams : Type 0 where
  pub name : Bytes
  pub description : Bytes
  pub active : Bool
  pub repositories : WatchRepositoriesParams
  pub builds : WatchBuildsParams
  pub policies : List AssignedPolicy

-- The values that createFilters and configureBuilds store in `Value interface{}`.
pub data FilterValue : Type 0 where
  text_value : Bytes → FilterValue
  property_value : Bytes → Bytes → FilterValue
  path_value : WatchPathFilters → FilterValue

pub record WatchFilter (V : Type 0) : Type 0 where
  pub type : Bytes
  pub value : V

pub record WatchProjectResourcesElement (V : Type 0) : Type 0 where
  pub name : Bytes
  pub bin_mgr_id : Bytes
  pub type : Bytes
  pub repo_type : Bytes
  pub filters : List (WatchFilter V)

pub record WatchGeneralParams : Type 0 where
  pub id : Bytes
  pub name : Bytes
  pub description : Bytes
  pub active : Bool

pub record WatchBody (V : Type 0) : Type 0 where
  pub general_data : WatchGeneralParams
  pub resources : List (WatchProjectResourcesElement V)
  pub assigned_policies : List AssignedPolicy

abbrev pub text_filter : Bytes → Bytes → WatchFilter FilterValue
text_filter type text = record { type = type; value = text_value text }

abbrev pub property_filter : Bytes × Bytes → WatchFilter FilterValue
property_filter (key, value) = record { type = codes "property"; value = property_value key value }

-- One filter where one of the two slices is not nil.
unfoldable pub pattern_filter :
    Bytes → Option (List Bytes) → Option (List Bytes) → List (WatchFilter FilterValue)
pattern_filter type none none = []
pattern_filter type none (some ys) =
    record {
      type = type;
      value = path_value (record { exclude_patterns = none; include_patterns = some ys });
    }
    ∷ []
pattern_filter type (some xs) include =
    record {
      type = type;
      value = path_value (record { exclude_patterns = some xs; include_patterns = include });
    }
    ∷ []

unfoldable pub create_filters : WatchFilters → WatchPathFilters → List (WatchFilter FilterValue)
unfolding pattern_filter
create_filters filters repo =
    map (text_filter (codes "package-type")) filters.package_types
    ++ (map (text_filter (codes "regex")) filters.names
        ++ (map (text_filter (codes "path-regex")) filters.paths
            ++ (map (text_filter (codes "mime-type")) filters.mime_types
                ++ (map property_filter filters.properties
                    ++ pattern_filter (codes "path-ant-patterns") repo.exclude_patterns
                        repo.include_patterns))))

abbrev pub repository_element :
    WatchPathFilters → Bytes × WatchRepository → WatchProjectResourcesElement FilterValue
repository_element path_filters (key, repository) = record {
  name = repository.name;
  bin_mgr_id = repository.bin_mgr_id;
  type = codes "repository";
  repo_type = repository.repo_type;
  filters = create_filters repository.filters path_filters;
}

unfoldable pub configure_repositories :
    WatchParams → Outcome (List (WatchProjectResourcesElement FilterValue))
unfolding create_filters str_eq
configure_repositories params =
    let repos = params.repositories in
    if str_eq repos.type (codes "all")
    then ok (
        record {
          name = [];
          bin_mgr_id = [];
          type = codes "all-repos";
          repo_type = [];
          filters = create_filters repos.all_filters repos.path_filters;
        }
        ∷ [])
    else if str_eq repos.type (codes "byname")
    then ok (map (repository_element repos.path_filters) repos.repositories)
    else if str_eq repos.type []
    then ok []
    else err (codes "Invalid Repository Type. Must be all or byname")

abbrev pub build_element :
    Bytes × WatchBuildsByNameParams → WatchProjectResourcesElement FilterValue
build_element (key, by_name) = record {
  name = by_name.name;
  bin_mgr_id = by_name.bin_mgr_id;
  type = codes "build";
  repo_type = [];
  filters = [];
}

unfoldable pub configure_builds :
    WatchParams → Outcome (List (WatchProjectResourcesElement FilterValue))
unfolding pattern_filter str_eq
configure_builds params =
    let builds = params.builds in
    let path_filters = builds.all.path_filters in
    if str_eq builds.type (codes "all")
    then ok (
        record {
          name = codes "All Builds";
          bin_mgr_id = builds.all.bin_mgr_id;
          type = codes "all-builds";
          repo_type = [];
          filters =
              pattern_filter (codes "ant-patterns") path_filters.exclude_patterns
                path_filters.include_patterns;
        }
        ∷ [])
    else if str_eq builds.type (codes "byname")
    then ok (map build_element builds.by_names)
    else if str_eq builds.type []
    then ok []
    else err (codes "Invalid Build Type. Must be all or byname")

unfoldable pub create_body : WatchParams → Outcome (WatchBody FilterValue)
unfolding configure_repositories configure_builds
create_body params = do
  repositories ← configure_repositories params
  builds ← configure_builds params
  ok (record {
    general_data = record {
      id = [];
      name = params.name;
      description = params.description;
      active = params.active;
    };
    resources = repositories ++ builds;
    assigned_policies = params.policies;
  })

-- What encoding/json decodes into an interface{}: numbers and Booleans, which no filter has, are left
-- out. An array and an object are chains of their parts.
mutual
  pub data Json : Type 0 where
    null : Json
    text : Bytes → Json
    array : Items → Json
    object : Fields → Json

  pub data Items : Type 0 where
    end_items : Items
    item : Json → Items → Items

  pub data Fields : Type 0 where
    end_fields : Fields
    field : Bytes → Json → Fields → Fields

-- The type assertions x.(string), x.([]interface{}) and x.(map[string]interface{}), which panic.
unfoldable pub as_string : Json → Outcome Bytes
as_string (text s) = ok s
as_string null = panic
as_string (array xs) = panic
as_string (object fs) = panic

unfoldable pub as_array : Json → Outcome Items
as_array (array xs) = ok xs
as_array null = panic
as_array (text s) = panic
as_array (object fs) = panic

unfoldable pub as_map : Json → Outcome Fields
as_map (object fs) = ok fs
as_map null = panic
as_map (text s) = panic
as_map (array xs) = panic

-- value, ok := m[key]
unfoldable pub field? : Bytes → Fields → Option Json
unfolding str_eq
field? key end_fields = none
field? key (field k v fs) = if str_eq k key then some v else field? key fs

-- m[key].(string), where a missing key is nil
unfoldable pub field_string : Bytes → Fields → Outcome Bytes
unfolding field? as_string
field_string key fs = elim (field? key fs) [ none ↦ panic | some v ↦ as_string v ]

unfoldable pub strings_of : Items → Outcome (List Bytes)
unfolding as_string
strings_of end_items = ok []
strings_of (item x xs) = do s ← as_string x; rest ← strings_of xs; ok (s ∷ rest)
