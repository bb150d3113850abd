-- ===== src/Watch/Filters.antt =====
-- xray/services/utils/watchbody.go: unpackFilters reads back what createFilters made.
use jfrog_client_go.Base.{
  Option, none, some, List, [], ◌∷◌, ◌++◌, ◌≡◌, refl, sym, ap, ◌∙◌, map, append_assoc, append-nil,
  Elem, Bool-cases, inl, inr,
}
use jfrog_client_go.Base.Outcome.{ok}
use jfrog_client_go.Base.Text.{Bytes, codes, str_eq, str_eq_iff}
use jfrog_client_go.Props.Keys.{IsSortedFrom, sort_strings_lem}
use jfrog_client_go.Watch.{
  WatchFilters, WatchPathFilters, WatchFilter, FilterValue, text_value, property_value, path_value,
  text_filter, property_filter, pattern_filter, create_filters, Json, Items, null, text, array,
  object, end_items, item, end_fields, field, strings_of,
}
use jfrog_client_go.Watch.Unpack.{
  unpack_each, unpack_filters, put, append_some, sort_filters, no_filters,
}

-- What encoding/json makes of a filter's value, read back into an interface{}.
abbrev pub items_of : List Bytes → Items
items_of [] = end_items
items_of (s ∷ ss) = item (text s) (items_of ss)

abbrev pub nullable : Option (List Bytes) → Json
nullable none = null
nullable (some xs) = array (items_of xs)

abbrev pub json_of : FilterValue → Json
json_of (text_value s) = text s
json_of (property_value k v) =
    object (field (codes "key") (text k) (field (codes "value") (text v) end_fields))
json_of (path_value p) = object (
    field (codes "ExcludePatterns") (nullable p.exclude_patterns)
      (field (codes "IncludePatterns") (nullable p.include_patterns) end_fields))

abbrev pub encoded : WatchFilter FilterValue → WatchFilter Json
encoded filter = record { type = filter.type; value = json_of filter.value }

strings_of-items_of : (xs : List Bytes) → strings_of (items_of xs) ≡ ok xs
unfolding strings_of
strings_of-items_of [] = refl
strings_of-items_of (x ∷ xs) = rw (strings_of-items_of xs) refl

package_types_back :
    (xs : List Bytes) (rest : List (WatchFilter FilterValue)) (output : WatchFilters)
    (repos : WatchPathFilters)
    → unpack_each (map encoded (map (text_filter (codes "package-type")) xs ++ rest)) output repos
      ≡ unpack_each
          (map encoded rest)
          (record output { package_types = output.package_types ++ xs })
          repos
unfolding unpack_each
package_types_back [] rest output repos = rw (append-nil output.package_types) refl
package_types_back (x ∷ xs) rest output repos =
    package_types_back xs rest (record output { package_types = output.package_types ++ x ∷ [] })
      repos
    ∙ ap (λ ts. unpack_each (map encoded rest) (record output { package_types = ts }) repos)
        (append_assoc output.package_types (x ∷ []) xs)

names_back :
    (xs : List Bytes) (rest : List (WatchFilter FilterValue)) (output : WatchFilters)
    (repos : WatchPathFilters)
    → unpack_each (map encoded (map (text_filter (codes "regex")) xs ++ rest)) output repos
      ≡ unpack_each (map encoded rest) (record output { names = output.names ++ xs }) repos
unfolding unpack_each
names_back [] rest output repos = rw (append-nil output.names) refl
names_back (x ∷ xs) rest output repos =
    names_back xs rest (record output { names = output.names ++ x ∷ [] }) repos
    ∙ ap (λ ts. unpack_each (map encoded rest) (record output { names = ts }) repos)
        (append_assoc output.names (x ∷ []) xs)

paths_back :
    (xs : List Bytes) (rest : List (WatchFilter FilterValue)) (output : WatchFilters)
    (repos : WatchPathFilters)
    → unpack_each (map encoded (map (text_filter (codes "path-regex")) xs ++ rest)) output repos
      ≡ unpack_each (map encoded rest) (record output { paths = output.paths ++ xs }) repos
unfolding unpack_each
paths_back [] rest output repos = rw (append-nil output.paths) refl
paths_back (x ∷ xs) rest output repos =
    paths_back xs rest (record output { paths = output.paths ++ x ∷ [] }) repos
    ∙ ap (λ ts. unpack_each (map encoded rest) (record output { paths = ts }) repos)
        (append_assoc output.paths (x ∷ []) xs)

mime_types_back :
    (xs : List Bytes) (rest : List (WatchFilter FilterValue)) (output : WatchFilters)
    (repos : WatchPathFilters)
    → unpack_each (map encoded (map (text_filter (codes "mime-type")) xs ++ rest)) output repos
      ≡ unpack_each
          (map encoded rest)
          (record output { mime_types = output.mime_types ++ xs })
          repos
unfolding unpack_each
mime_types_back [] rest output repos = rw (append-nil output.mime_types) refl
mime_types_back (x ∷ xs) rest output repos =
    mime_types_back xs rest (record output { mime_types = output.mime_types ++ x ∷ [] }) repos
    ∙ ap (λ ts. unpack_each (map encoded rest) (record output { mime_types = ts }) repos)
        (append_assoc output.mime_types (x ∷ []) xs)

pub put-new :
    (key value : Bytes) (entries : List (Bytes × Bytes))
    → ¬ Elem key (map (λ e. e.0) entries)
    → put key value entries ≡ entries ++ (key, value) ∷ []
unfolding put
put-new key value [] h = refl
put-new key value ((k, v) ∷ entries) h = elim (Bool-cases (str_eq k key)) [
  | inl e ↦ absurd (h (inl (sym ((str_eq_iff k key).0 e))))
  | inr e ↦ rw e (ap (λ rest. (k, v) ∷ rest) (put-new key value entries (λ m. h (inr m))))
]

-- No key stands twice: each is new to the entries before it.
unfoldable pub FreshKeys : List (Bytes × Bytes) → List (Bytes × Bytes) → Type 0
FreshKeys done [] = Unit
FreshKeys done (entry ∷ entries) =
    (¬ Elem entry.0 (map (λ e. e.0) done)) × FreshKeys (done ++ entry ∷ []) entries

properties_back :
    (xs : List (Bytes × Bytes)) (rest : List (WatchFilter FilterValue)) (output : WatchFilters)
    (repos : WatchPathFilters)
    → FreshKeys output.properties xs
    → unpack_each (map encoded (map property_filter xs ++ rest)) output repos
      ≡ unpack_each
          (map encoded rest)
          (record output { properties = output.properties ++ xs })
          repos
unfolding unpack_each FreshKeys
properties_back [] rest output repos h = rw (append-nil output.properties) refl
properties_back ((k, v) ∷ xs) rest output repos h =
    let added = put-new k v output.properties h.0 in
    rw added (
      properties_back xs rest (record output { properties = output.properties ++ (k, v) ∷ [] })
        repos h.1
      ∙ ap (λ ps. unpack_each (map encoded rest) (record output { properties = ps }) repos)
          (append_assoc output.properties ((k, v) ∷ []) xs))

path_patterns_back :
    (ex inc : List Bytes) (output : WatchFilters)
    → unpack_each
        (map encoded (pattern_filter (codes "path-ant-patterns") (some ex) (some inc)))
        output
        (record { exclude_patterns = none; include_patterns = none })
      ≡ ok (
        output,
        record { exclude_patterns = append_some none ex; include_patterns = append_some none inc },
      )
unfolding unpack_each pattern_filter
path_patterns_back ex inc output = rw (strings_of-items_of ex, strings_of-items_of inc) refl

-- A slice that encoding/json reads back: nil for an empty one.
abbrev pub or_nil : List Bytes → Option (List Bytes)
or_nil [] = none
or_nil (x ∷ xs) = some (x ∷ xs)

append_some-or_nil : (xs : List Bytes) → append_some none xs ≡ or_nil xs
unfolding append_some
append_some-or_nil [] = refl
append_some-or_nil (x ∷ xs) = refl

-- The same filters with each of the four lists of names in the order of their bytes.
abbrev pub AreSortedFrom : WatchFilters → WatchFilters → Type 0
AreSortedFrom given filters =
    IsSortedFrom given.package_types filters.package_types
    × IsSortedFrom given.names filters.names
    × IsSortedFrom given.paths filters.paths
    × IsSortedFrom given.mime_types filters.mime_types
    × (filters.properties ≡ given.properties)

sort_filters-AreSortedFrom : (filters : WatchFilters) → AreSortedFrom filters (sort_filters filters)
unfolding sort_filters
sort_filters-AreSortedFrom filters = (
  sort_strings_lem filters.package_types,
  sort_strings_lem filters.names,
  sort_strings_lem filters.paths,
  sort_strings_lem filters.mime_types,
  refl,
)

-- Reading back the filters that createFilters makes of a repository's filters, through JSON, into empty
-- parameters: it does not panic, and gives each of the four lists of names in the order of their bytes,
-- with the same names as often, the same properties, and the exclude and include patterns of the watch,
-- an empty slice of which comes back as nil. The keys of the properties are distinct, as a map's are,
-- and neither slice of patterns is nil.
pub unpack_filters-create_filters :
    (filters : WatchFilters) (ex inc : List Bytes)
    → FreshKeys [] filters.properties
    → (out : WatchFilters) × AreSortedFrom filters out
      × (unpack_filters
            (map encoded (
              create_filters filters
                (record { exclude_patterns = some ex; include_patterns = some inc })))
            no_filters
            (record { exclude_patterns = none; include_patterns = none })
          ≡ ok (out, record { exclude_patterns = or_nil ex; include_patterns = or_nil inc }))
unfolding unpack_filters create_filters append_some
unpack_filters-create_filters filters ex inc fresh =
    let repos : WatchPathFilters = record { exclude_patterns = none; include_patterns = none } in
    let tail = pattern_filter (codes "path-ant-patterns") (some ex) (some inc) in
    let props = map property_filter filters.properties ++ tail in
    let mimes = map (text_filter (codes "mime-type")) filters.mime_types ++ props in
    let paths = map (text_filter (codes "path-regex")) filters.paths ++ mimes in
    let names = map (text_filter (codes "regex")) filters.names ++ paths in
    let o1 = record no_filters { package_types = filters.package_types } in
    let o2 = record o1 { names = filters.names } in
    let o3 = record o2 { paths = filters.paths } in
    let o4 = record o3 { mime_types = filters.mime_types } in
    let o5 = record o4 { properties = filters.properties } in
    let all : unpack_each
          (map encoded (map (text_filter (codes "package-type")) filters.package_types ++ names))
          no_filters repos
        ≡ ok (
          o5,
          record {
            exclude_patterns = append_some none ex;
            include_patterns = append_some none inc;
          },
        ) =
      package_types_back filters.package_types names no_filters repos
      ∙ names_back filters.names paths o1 repos
      ∙ paths_back filters.paths mimes o2 repos
      ∙ mime_types_back filters.mime_types props o3 repos
      ∙ properties_back filters.properties tail o4 repos fresh
      ∙ path_patterns_back ex inc o5 in
    (
      sort_filters filters,
      sort_filters-AreSortedFrom filters,
      rw all (
          ap (λ r. ok (sort_filters filters, r))
            (ap (λ e. record { exclude_patterns = e; include_patterns = append_some none inc })
                (append_some-or_nil ex)
              ∙ ap (λ i. record { exclude_patterns = or_nil ex; include_patterns = i })
                  (append_some-or_nil inc))),
    )
