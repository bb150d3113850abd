-- ===== src/Builds.antt =====
-- artifactory/services/utils/artifactoryutils.go: the search results that belong to builds.
-- A Go map from SHA1 values to priorities is a function, whose `none` is a missing key.
pub mod Values
pub mod Fill
pub mod Append
pub mod Filtered
pub mod Aggregate
pub mod Children
pub mod Transitive
pub mod Missing
pub mod Loaded
mod Samples
use jfrog_client_go.Base.{
  ℕ, Bool, true, false, ◌&&◌, ◌||◌, not, Option, none, some, List, [], ◌∷◌, ◌++◌, ◌==◌, ltb, length,
  if◌then◌else◌,
}
use jfrog_client_go.Base.Text.{Bytes, codes, str_eq}
use jfrog_client_go.Props.{Property}
use jfrog_client_go.Search.{ResultItem}
use jfrog_client_go.Aql.Body.{Build}

abbrev pub ShaMap : Type 0
ShaMap = Bytes → Option ℕ

-- The value of a missing key is 0.
abbrev pub or_zero : Option ℕ → ℕ
or_zero none = 0
or_zero (some level) = level

abbrev pub get : ShaMap → Bytes → ℕ
get shas sha = or_zero (shas sha)

abbrev pub put : Bytes → ℕ → ShaMap → ShaMap
put sha level shas s = if str_eq sha s then some level else shas s

abbrev pub delete : Bytes → ShaMap → ShaMap
delete sha shas s = if str_eq sha s then none else shas s

abbrev pub make : ShaMap
make s = none

-- The loop over the properties, from the two names found so far.
unfoldable pub name_and_number_from : Bytes → Bytes → List Property → Bytes × Bytes
unfolding str_eq
name_and_number_from build_name build_number [] = (build_name, build_number)
name_and_number_from build_name build_number (property ∷ properties) =
    let name = if str_eq property.key (codes "build.name") then property.value else build_name in
    let number =
      if str_eq property.key (codes "build.name")
      then build_number
      else if str_eq property.key (codes "build.number")
      then property.value
      else build_number in
    let rest = name_and_number_from name number properties in
    if ltb 0 (length name) && ltb 0 (length number) then (name, number) else rest

unfoldable pub get_build_name_and_number_from_props : List Property → Bytes × Bytes
unfolding name_and_number_from
get_build_name_and_number_from_props properties = name_and_number_from [] [] properties

unfoldable pub is_build_contained : Bytes → Bytes → List Build → Bool
unfolding str_eq
is_build_contained build_name build_number [] = false
is_build_contained build_name build_number (build ∷ builds) =
    (str_eq build.build_name build_name && str_eq build.build_number build_number)
    || is_build_contained build_name build_number builds

unfoldable pub is_build_name_contained : Bytes → List Build → Bool
unfolding str_eq
is_build_name_contained build_name [] = false
is_build_name_contained build_name (build ∷ builds) =
    str_eq build.build_name build_name || is_build_name_contained build_name builds

unfoldable pub extract_from : ShaMap → List ResultItem → ShaMap
unfolding str_eq
extract_from elements_map [] = elements_map
extract_from elements_map (item ∷ items) = extract_from (put item.actual_sha1 2 elements_map) items

unfoldable pub extract_sha1_from_aql_response : List ResultItem → ShaMap
unfolding extract_from
extract_sha1_from_aql_response items = extract_from make items

-- The three files, and buildArtifactsSha after the loop.
pub record Priorities : Type 0 where
  pub first : List ResultItem
  pub second : List ResultItem
  pub third : List ResultItem
  pub shas : ShaMap

module _ (builds : List Build) where
  unfoldable pub has_build : ResultItem → Bool
  unfolding get_build_name_and_number_from_props is_build_contained
  has_build item =
      let (name, number) = get_build_name_and_number_from_props item.properties in
      is_build_contained name number builds

  unfoldable pub has_build_name : ResultItem → Bool
  unfolding get_build_name_and_number_from_props is_build_name_contained
  has_build_name item =
      let (name, number) = get_build_name_and_number_from_props item.properties in
      is_build_name_contained name builds

  -- Step 1: the loop over the reader's records.
  unfoldable pub fill_priorities : ShaMap → List ResultItem → Priorities
  unfolding has_build has_build_name str_eq
  fill_priorities shas [] = record { first = []; second = []; third = []; shas = shas }
  fill_priorities shas (item ∷ items) = elim (shas item.actual_sha1) [
    | none ↦ fill_priorities shas items
    | some level ↦ elim (has_build item) [
      | true ↦
          let rest = fill_priorities (put item.actual_sha1 0 shas) items in
          record {
            first = item ∷ rest.first;
            second = rest.second;
            third = rest.third;
            shas = rest.shas;
          }
      | false ↦ elim (has_build_name item && not (level == 0)) [
        | true ↦
            let rest = fill_priorities (put item.actual_sha1 1 shas) items in
            record {
              first = rest.first;
              second = item ∷ rest.second;
              third = rest.third;
              shas = rest.shas;
            }
        | false ↦
            let rest = fill_priorities shas items in
            if level == 2
            then record {
              first = rest.first;
              second = rest.second;
              third = item ∷ rest.third;
              shas = rest.shas;
            }
            else rest
      ]
    ]
  ]

-- Step 2 on one file: what is written, and the map after it.
unfoldable pub append_priority : ℕ → ShaMap → List ResultItem → List ResultItem × ShaMap
unfolding str_eq
append_priority priority_level shas [] = ([], shas)
append_priority priority_level shas (item ∷ items) =
    elim (get shas item.actual_sha1 == priority_level) [
      | true ↦
          let (written, left) =
            append_priority priority_level (delete item.actual_sha1 shas) items in
          (item ∷ written, left)
      | false ↦ append_priority priority_level shas items
    ]

unfoldable pub append_priorities : Priorities → List ResultItem
unfolding append_priority
append_priorities p =
    let (written0, shas1) = append_priority 0 p.shas p.first in
    let (written1, shas2) = append_priority 1 shas1 p.second in
    let (written2, shas3) = append_priority 2 shas2 p.third in written0 ++ (written1 ++ written2)

unfoldable pub filter_build_aql_search_results :
    List ResultItem → ShaMap → List Build → List ResultItem
unfolding fill_priorities append_priorities
filter_build_aql_search_results records build_artifacts_sha builds =
    append_priorities (fill_priorities builds build_artifacts_sha records)
