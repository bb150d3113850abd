-- ===== src/Watch/Samples.antt =====
-- Runs of the watch functions, and the round trip at a watch with two names and a property.
use jfrog_client_go.Base.{◌≡◌, refl, true, none, some, [], ◌∷◌, map}
use jfrog_client_go.Base.Outcome.{ok, err}
use jfrog_client_go.Base.Text.{codes}
use jfrog_client_go.Watch.{WatchFilters, WatchParams, create_filters, create_body}
use jfrog_client_go.Watch.Unpack.{no_filters, unpack_filters}
use jfrog_client_go.Watch.Filters.{AreSortedFrom, FreshKeys, encoded, unpack_filters-create_filters}

abbrev two_names : WatchFilters
two_names = record no_filters {
  names = codes "b" ∷ codes "a" ∷ [];
  properties = (codes "k", codes "v") ∷ [];
}

abbrev bad_watch : WatchParams
bad_watch = record {
  name = codes "w";
  description = [];
  active = true;
  repositories = record {
    type = codes "some";
    all_filters = two_names;
    repositories = [];
    path_filters = record { exclude_patterns = none; include_patterns = none };
  };
  builds = record {
    type = [];
    all = record {
      bin_mgr_id = [];
      path_filters = record { exclude_patterns = none; include_patterns = none };
    };
    by_names = [];
  };
  policies = [];
}

bad_watch-err : create_body bad_watch ≡ err (codes "Invalid Repository Type. Must be all or byname")
unfolding create_body
bad_watch-err = refl

one_key : FreshKeys [] two_names.properties
unfolding FreshKeys
one_key = ((λ h. h), tt)

unpack_filters-create_filters_example :
    (out : WatchFilters) × AreSortedFrom two_names out
    × (unpack_filters
          (map encoded (
            create_filters two_names
              (record { exclude_patterns = some (codes "*x" ∷ []); include_patterns = some [] })))
          no_filters
          (record { exclude_patterns = none; include_patterns = none })
        ≡ ok (out, record { exclude_patterns = some (codes "*x" ∷ []); include_patterns = none }))
unpack_filters-create_filters_example =
    unpack_filters-create_filters two_names (codes "*x" ∷ []) [] one_key
