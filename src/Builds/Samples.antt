-- ===== src/Builds/Samples.antt =====
-- Items and builds, and the theorems at them.
use jfrog_client_go.Base.{
  ℕ, ◌≡◌, refl, sym, ap, ◌∙◌, false, Option, none, some, List, [], ◌∷◌, ◌++◌, ◌↔◌, ◌<◌, inl, inr,
  Elem, keep, map, if◌then◌else◌, arith, Bool-cases,
}
use jfrog_client_go.Base.Outcome.{Outcome, ok}
use jfrog_client_go.Base.Text.{Bytes, codes, str_eq}
use jfrog_client_go.Search.{ResultItem}
use jfrog_client_go.Search.Samples.{item}
use jfrog_client_go.Aql.Body.{Build, parse_name_and_version}
use jfrog_client_go.Builds.{filter_build_aql_search_results, extract_sha1_from_aql_response}
use jfrog_client_go.Search.{get_item_relative_path}
use jfrog_client_go.Builds.Missing.{load_missing_properties}
use jfrog_client_go.Builds.Loaded.{with_properties, load_missing_properties_lem}
use jfrog_client_go.Builds.Append.{firsts}
use jfrog_client_go.Builds.Filtered.{is_chosen, filter_build_aql_search_results_lem}
use jfrog_client_go.Builds.Aggregate.{Module, is_build, get_aggregated_builds}
use jfrog_client_go.Builds.Transitive.{
  IsTransitive, Descends, get_aggregated_builds_lem, get_aggregated_builds-cycle,
}

abbrev build : Bytes → Bytes → Build
build name number = record { build_name = name; build_number = number }

abbrev built : Bytes → Bytes → Bytes → Bytes → ResultItem
built name sha build_name build_number = record (item (codes "r") (codes "p") name (codes "file")) {
  actual_sha1 = sha;
  properties =
      record { key = codes "build.name"; value = build_name }
      ∷ record { key = codes "build.number"; value = build_number }
      ∷ [];
}

abbrev builds : List Build
builds = build (codes "app") (codes "7") ∷ []

-- Twice the exact build, the same content from another number, another number twice, no build, and
-- content that no artifact has.
abbrev a : ResultItem
a = built (codes "a") (codes "s1") (codes "app") (codes "6")

abbrev b : ResultItem
b = built (codes "b") (codes "s1") (codes "app") (codes "7")

abbrev c : ResultItem
c = built (codes "c") (codes "s1") (codes "app") (codes "7")

abbrev d : ResultItem
d = built (codes "d") (codes "s2") (codes "app") (codes "5")

abbrev e : ResultItem
e = built (codes "e") (codes "s2") (codes "app") (codes "4")

abbrev f : ResultItem
f = built (codes "f") (codes "s3") (codes "other") (codes "7")

abbrev g : ResultItem
g = built (codes "g") (codes "s4") (codes "app") (codes "7")

abbrev artifacts : List ResultItem
artifacts = a ∷ d ∷ f ∷ []

abbrev found : List ResultItem
found = a ∷ f ∷ b ∷ d ∷ e ∷ c ∷ g ∷ []

filtered :
    filter_build_aql_search_results found (extract_sha1_from_aql_response artifacts) builds
    ≡ b ∷ c ∷ d ∷ f ∷ []
unfolding filter_build_aql_search_results extract_sha1_from_aql_response
filtered = refl

filter_build_aql_search_results_example :
    filter_build_aql_search_results found (extract_sha1_from_aql_response artifacts) builds
    ≡ keep (is_chosen artifacts builds found 0) found
      ++ (firsts [] (keep (is_chosen artifacts builds found 1) found)
          ++ firsts [] (keep (is_chosen artifacts builds found 2) found))
filter_build_aql_search_results_example = filter_build_aql_search_results_lem artifacts builds found

-- "app" number 1 has "lib" number 2 as a module, which has none.
abbrev lib : Module
lib = record { type = codes "build"; id = codes "lib/2" }

abbrev known : Bytes → Bytes → Outcome (Option (List Module))
known name number =
    if str_eq name (codes "app")
    then ok (some (lib ∷ []))
    else if str_eq name (codes "lib")
    then ok (some [])
    else ok none

aggregated :
    get_aggregated_builds (codes "build") known 3 (codes "app") (codes "1")
    ≡ some (ok (build (codes "app") (codes "1") ∷ build (codes "lib") (codes "2") ∷ []))
unfolding get_aggregated_builds
aggregated = refl

abbrev rank : Bytes → Bytes → ℕ
rank name number =
    if str_eq name (codes "app") then 2 else if str_eq name (codes "lib") then 1 else 0

lib-parsed : parse_name_and_version (codes "lib/2") false ≡ ok (codes "lib", codes "2")
unfolding parse_name_and_version
lib-parsed = refl

rank-falls : Descends (codes "build") known rank
unfolding str_eq
rank-falls name number modules id h (m, e, t, p) = elim (Bool-cases (str_eq name (codes "app"))) [
  | inl k ↦
      let h' : ◌≡◌ {A = Outcome (Option (List Module))} (ok (some (lib ∷ []))) (ok (some modules)) =
        rw k at h in
      let same : modules ≡ lib ∷ [] = ground arith in
      let e' : Elem m (lib ∷ []) = rw same at e in
      elim e' [
        | inl l ↦
            let p' : parse_name_and_version (codes "lib/2") false ≡ ok id =
              ap (λ (n : Module). parse_name_and_version n.id false) (sym l) ∙ p in
            let made : id ≡ (codes "lib", codes "2") = ground (arith, lib-parsed) in
            rw (made, k) (omega arith)
        | inr l ↦ absurd l
      ]
  | inr k ↦ elim (Bool-cases (str_eq name (codes "lib"))) [
    | inl k' ↦
        let h' : ◌≡◌ {A = Outcome (Option (List Module))} (ok (some [])) (ok (some modules)) =
          rw (k, k') at h in
        let same : modules ≡ [] = ground arith in absurd (rw same at e)
    | inr k' ↦
        let h' : ◌≡◌ {A = Outcome (Option (List Module))} (ok none) (ok (some modules)) =
          rw (k, k') at h in
        absurd (ground arith)
  ]
]

below_three : rank (codes "app") (codes "1") < 3
unfolding str_eq
below_three = omega arith

get_aggregated_builds_example :
    (outcome : Outcome (List Build)) × (get_aggregated_builds
        (codes "build")
        known
        3
        (codes "app")
        (codes "1")
      ≡ some outcome)
    × ((bs : List Build)
        → outcome ≡ ok bs
        → (x : Build) → Elem x bs ↔ IsTransitive (codes "build") known (codes "app") (codes "1") x)
get_aggregated_builds_example =
    get_aggregated_builds_lem (codes "build") known rank rank-falls 3 (codes "app") (codes "1")
      below_three

-- "lib" number 2 has itself as a module.
abbrev cyclic : Bytes → Bytes → Outcome (Option (List Module))
cyclic name number = ok (some (lib ∷ []))

get_aggregated_builds-cycle_example :
    get_aggregated_builds (codes "build") cyclic 5 (codes "lib") (codes "2") ≡ none
get_aggregated_builds-cycle_example =
    get_aggregated_builds-cycle (codes "build") cyclic (codes "lib") (codes "2") lib refl
      (unfold is_build in refl) lib-parsed 5

-- Through a buffer of one item; only "a" has a record.
load_missing_properties_example :
    load_missing_properties 1 (a ∷ d ∷ []) (record a { properties = [] } ∷ b ∷ [])
    ≡ map (with_properties (record a { properties = [] } ∷ b ∷ [])) (a ∷ d ∷ [])
unfolding get_item_relative_path
load_missing_properties_example =
    load_missing_properties_lem 1 (a ∷ d ∷ []) (record a { properties = [] } ∷ b ∷ [])
      (refl, (refl, tt))

loaded :
    load_missing_properties 1 (a ∷ d ∷ []) (record a { properties = [] } ∷ b ∷ [])
    ≡ record a { properties = [] } ∷ d ∷ []
unfolding load_missing_properties get_item_relative_path
loaded = refl
