-- ===== src/Builds/Aggregate.antt =====
-- artifactoryutils.go, getAggregatedBuilds: a build with all the builds that are modules of it, directly or not.
-- GetBuildInfo sends a request: what it gives for a build is a parameter, and so is the type of the
-- modules that are builds, a constant of build-info-go. A `Run` has `none` for a recursion out of fuel.
use jfrog_client_go.Base.{
  ℕ, zero, suc, ◌≡◌, refl, Bool, true, false, Option, none, some, List, [], ◌∷◌, ◌++◌,
}
use jfrog_client_go.Base.Outcome.{Outcome, panic, ok, err}
use jfrog_client_go.Base.Text.{Bytes, str_eq}
use jfrog_client_go.Aql.Body.{Build, parse_name_and_version}

-- The fields of build-info-go's module that the code reads.
pub record Module : Type 0 where
  pub type : Bytes
  pub id : Bytes

abbrev pub Run : Type 0 → Type 0
Run A = Option (Outcome A)

abbrev pub IsSome : {A : Type 0} → Run A → Type 0
IsSome {A} run = (outcome : Outcome A) × (run ≡ some outcome)

abbrev pub after : {A B : Type 0} → Run A → (A → Run B) → Run B
after none next = none
after (some panic) next = some panic
after (some (err e)) next = some (err e)
after (some (ok a)) next = next a

pub after-ok :
    {A B : Type 0} (run : Run A) (next : A → Run B) (b : B)
    → after run next ≡ some (ok b)
    → (a : A) × (run ≡ some (ok a)) × (next a ≡ some (ok b))
after-ok none next b h = cc
after-ok (some panic) next b h = cc
after-ok (some (err e)) next b h = cc
after-ok (some (ok a)) next b h = (a, refl, h)

pub after-IsSome :
    {A B : Type 0} (run : Run A) (next : A → Run B)
    → IsSome run
    → ((a : A) → run ≡ some (ok a) → IsSome (next a))
    → IsSome (after run next)
after-IsSome none next (o, h) k = cc
after-IsSome (some panic) next h k = (panic, refl)
after-IsSome (some (err e)) next h k = (err e, refl)
after-IsSome (some (ok a)) next h k = k a refl

module _ (build_type : Bytes) where
  unfoldable pub is_build : Module → Bool
  unfolding str_eq
  is_build m = str_eq m.type build_type

  -- The loop over the modules, with the recursive call as an argument.
  unfoldable pub aggregate_modules :
      (Bytes → Bytes → Run (List Build)) → List Build → List Module → Run (List Build)
  unfolding is_build parse_name_and_version
  aggregate_modules call aggregated_builds [] = some (ok aggregated_builds)
  aggregate_modules call aggregated_builds (m ∷ modules) = elim (is_build m) [
    | true ↦ after (some (parse_name_and_version m.id false)) λ id.
        after (call id.0 id.1) λ child_aggregated_builds.
          aggregate_modules call (aggregated_builds ++ child_aggregated_builds) modules
    | false ↦ aggregate_modules call aggregated_builds modules
  ]

  -- The fuel bounds the depth of the recursion.
  unfoldable pub get_aggregated_builds :
      (Bytes → Bytes → Outcome (Option (List Module))) → ℕ → Bytes → Bytes → Run (List Build)
  unfolding aggregate_modules
  get_aggregated_builds get_build_info zero build_name build_number = none
  get_aggregated_builds get_build_info (suc f) build_name build_number =
      after (some (get_build_info build_name build_number)) λ build_info. elim build_info [
        | none ↦ some (ok [])
        | some modules ↦
            aggregate_modules (get_aggregated_builds get_build_info f)
              (record { build_name = build_name; build_number = build_number } ∷ []) modules
      ]
