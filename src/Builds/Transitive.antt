-- ===== src/Builds/Transitive.antt =====
-- getAggregatedBuilds ends on builds that do not contain themselves, and gives the transitive builds.
use jfrog_client_go.Base.{
  ℕ, zero, suc, ◌<◌, ◌≡◌, refl, sym, ap, ◌∙◌, true, false, Option, none, some, List, [], ◌∷◌, inl,
  inr, ◌↔◌, Elem, Option-cases, arith,
}
use jfrog_client_go.Base.Outcome.{Outcome, ok}
use jfrog_client_go.Base.Text.{Bytes}
use jfrog_client_go.Aql.Body.{Build, parse_name_and_version}
use jfrog_client_go.Builds.Aggregate.{
  Module, Run, IsSome, after-ok, after-IsSome, is_build, aggregate_modules, get_aggregated_builds,
}
use jfrog_client_go.Builds.Children.{
  IsChild, aggregate_modules-take, aggregate_modules-IsSome, aggregate_modules-from,
  aggregate_modules-acc, aggregate_modules-child,
}

module _ (build_type : Bytes)
    (get_build_info : Bytes → Bytes → Outcome (Option (List Module))) where
  -- A build that Artifactory knows is transitive to itself, and so is what is transitive to a build
  -- among its modules.
  pub data IsTransitive : Bytes → Bytes → Build → Type 0 where
    itself :
        {name number : Bytes} {modules : List Module}
        → get_build_info name number ≡ ok (some modules)
        → IsTransitive name number (record { build_name = name; build_number = number })
    below :
        {name number : Bytes} {modules : List Module} {id : Bytes × Bytes} {b : Build}
        → get_build_info name number ≡ ok (some modules)
        → IsChild build_type modules id
        → IsTransitive id.0 id.1 b
        → IsTransitive name number b

  abbrev aggregated : ℕ → Bytes → Bytes → Run (List Build)
  aggregated = get_aggregated_builds build_type get_build_info

  aggregated-found :
      (f : ℕ) (name number : Bytes) (modules : List Module)
      → get_build_info name number ≡ ok (some modules)
      → aggregated (suc f) name number
        ≡ aggregate_modules build_type
            (aggregated f)
            (record { build_name = name; build_number = number } ∷ [])
            modules
  unfolding get_aggregated_builds
  aggregated-found f name number modules h = rw (h, get_aggregated_builds) refl

  aggregated-missing :
      (f : ℕ) (name number : Bytes)
      → get_build_info name number ≡ ok none
      → aggregated (suc f) name number ≡ some (ok [])
  unfolding get_aggregated_builds
  aggregated-missing f name number h = rw (h, get_aggregated_builds) refl

  -- A rank of the builds that falls from a build to those among its modules.
  abbrev pub Descends : (Bytes → Bytes → ℕ) → Type 0
  Descends depth =
      (name number : Bytes) (modules : List Module) (id : Bytes × Bytes)
      → get_build_info name number ≡ ok (some modules)
      → IsChild build_type modules id
      → depth id.0 id.1 < depth name number

  aggregated-from :
      (f : ℕ) (name number : Bytes) (result : List Build) (b : Build)
      → aggregated f name number ≡ some (ok result)
      → Elem b result
      → IsTransitive name number b
  unfolding get_aggregated_builds
  aggregated-from zero name number result b h e = cc
  aggregated-from (suc f) name number result b h e =
      let (info, known, rest) = after-ok (some (get_build_info name number)) _ result h in
      elim (Option-cases info) [
        | inl i ↦
            let missing : get_build_info name number ≡ ok none = ground arith in
            let same : ◌≡◌ {A = Run (List Build)} (some (ok [])) (some (ok result)) =
              sym (aggregated-missing f name number missing) ∙ h in
            let empty : [] ≡ result = ground arith in absurd (rw (sym empty) at e)
        | inr (modules, i) ↦
            let found : get_build_info name number ≡ ok (some modules) = ground arith in
            elim (aggregate_modules-from build_type (aggregated f) _ modules result b
              (sym (aggregated-found f name number modules found) ∙ h) e) [
                | inl (inl l) ↦ rw l (itself found)
                | inl (inr l) ↦ absurd l
                | inr (id, bs, child, q, l) ↦
                    below found child (aggregated-from f id.0 id.1 bs b q l)
              ]
      ]

  aggregated-IsSome :
      (depth : Bytes → Bytes → ℕ)
      → Descends depth
      → (f : ℕ) (name number : Bytes) → depth name number < f
      → IsSome (aggregated f name number)
  unfolding get_aggregated_builds
  aggregated-IsSome depth falls zero name number less = absurd (omega arith)
  aggregated-IsSome depth falls (suc f) name number less =
      after-IsSome (some (get_build_info name number)) _ (get_build_info name number, refl)
        λ info known. elim (Option-cases info) [
          | inl i ↦ rw i (ok [], refl)
          | inr (modules, i) ↦
              let found : get_build_info name number ≡ ok (some modules) = ground arith in
              rw i (
                aggregate_modules-IsSome build_type (aggregated f) _ modules λ id child.
                  let shorter = falls name number modules id found child in
                  aggregated-IsSome depth falls f id.0 id.1 (omega arith))
        ]

  aggregated-all :
      (f : ℕ) (name number : Bytes) (result : List Build) (b : Build)
      → aggregated f name number ≡ some (ok result)
      → IsTransitive name number b
      → Elem b result
  unfolding get_aggregated_builds
  aggregated-all zero name number result b h t = cc
  aggregated-all (suc f) name number result b h (itself known) =
      aggregate_modules-acc build_type (aggregated f) _ _ result _
        (sym (aggregated-found f name number _ known) ∙ h) (inl refl)
  aggregated-all (suc f) name number result b h (below {id = id} known child t) =
      let (bs, q, inside) =
        aggregate_modules-child build_type (aggregated f) _ _ result id
          (sym (aggregated-found f name number _ known) ∙ h) child in
      inside b (aggregated-all f id.0 id.1 bs b q t)

  -- When a rank falls from each build to the builds among its modules, the recursion ends: with more
  -- fuel than the rank of the build there is an outcome, and if it is a list, the list holds exactly the
  -- transitive builds of the build.
  pub get_aggregated_builds_lem :
      (depth : Bytes → Bytes → ℕ)
      → Descends depth
      → (f : ℕ) (name number : Bytes) → depth name number < f
      → (outcome : Outcome (List Build)) × (get_aggregated_builds build_type get_build_info f name
            number
          ≡ some outcome)
        × ((builds : List Build)
            → outcome ≡ ok builds
            → (b : Build) → Elem b builds ↔ IsTransitive name number b)
  get_aggregated_builds_lem depth falls f name number less =
      let (outcome, e) = aggregated-IsSome depth falls f name number less in
      (
        outcome,
        e,
        λ builds h b.
            let e' = e ∙ ap some h in
            (aggregated-from f name number builds b e', aggregated-all f name number builds b e'),
      )

  -- A build that stands among its own modules, with nothing but it, has no outcome at any fuel.
  pub get_aggregated_builds-cycle :
      (name number : Bytes) (m : Module)
      → get_build_info name number ≡ ok (some (m ∷ []))
      → is_build build_type m ≡ true
      → parse_name_and_version m.id false ≡ ok (name, number)
      → (f : ℕ) → get_aggregated_builds build_type get_build_info f name number ≡ none
  unfolding get_aggregated_builds
  get_aggregated_builds-cycle name number m found t p zero = refl
  get_aggregated_builds-cycle name number m found t p (suc f) =
      aggregated-found f name number (m ∷ []) found
      ∙ aggregate_modules-take build_type (aggregated f) _ m [] t
      ∙ rw (p, get_aggregated_builds-cycle name number m found t p f) refl
