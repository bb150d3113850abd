-- ===== src/Aql/Fields.antt =====
-- artifactory/services/utils/aqlquerybuilder.go: which fields getQueryReturnFields asks for.
use jfrog_client_go.Base.{
  zero, suc, not, ltb, length, Bool, true, false, ◌&&◌, ◌||◌, List, [], ◌∷◌, ◌++◌, ◌≡◌, refl, sym,
  ap, ◌∙◌, arith, Bool-cases, if◌then◌else◌, Distinct, Elem, inl, inr, Distinct-snoc, ◌↔◌,
}
use jfrog_client_go.Base.Text.{Bytes, codes, str_eq, str_eq_iff}
use jfrog_client_go.Base.Int.{ℤ, pos, negsuc, ltb_ℤ}
use jfrog_client_go.Aql.Query.{
  CommonParams, RequiredArtifactProps, no_props, all_props, symlink_props, contains,
  append_missing_fields, include_missing, base_fields, get_query_return_fields,
  get_query_return_fields_with_include, include_properties_in_aql_for_spec, some_props,
  default_fields,
}

contains-append :
    (xs ys : List Bytes) (f : Bytes) → contains (xs ++ ys) f ≡ contains xs f || contains ys f
unfolding contains
contains-append [] ys f = refl
contains-append (x ∷ xs) ys f = ground (arith, contains-append xs ys f)

contains_iff : (xs : List Bytes) (f : Bytes) → (contains xs f ≡ true) ↔ Elem f xs
unfolding contains
contains_iff [] f = ground arith
contains_iff (x ∷ xs) f = ground (arith, contains_iff xs f, str_eq_iff x f)

-- A field that is there already adds nothing.
contains-add :
    (field : Bytes) (xs : List Bytes) (f : Bytes)
    → contains (if contains xs field then xs else xs ++ field ∷ []) f
      ≡ contains xs f || str_eq field f
contains-add field xs f = elim (Bool-cases (contains xs field)) [
  | inl e ↦ elim (Bool-cases (str_eq field f)) [
    | inl same ↦
        let h : contains xs f ≡ true = ap (contains xs) (sym ((str_eq_iff field f).0 same)) ∙ e in
        rw (e, same, h) refl
    | inr other ↦ rw (e, other) ground arith
  ]
  | inr e ↦
      let h = contains-append xs (field ∷ []) f in
      let one : contains (field ∷ []) f ≡ str_eq field f = (unfold contains in ground arith) in
      rw (e, h, one) refl
]

append_missing_fields-contains :
    (fields xs : List Bytes) (f : Bytes)
    → contains (append_missing_fields fields xs) f ≡ contains xs f || contains fields f
unfolding append_missing_fields
append_missing_fields-contains [] xs f = (unfold contains in ground arith)
append_missing_fields-contains (field ∷ fields) xs f =
    let more = if contains xs field then xs else xs ++ field ∷ [] in
    let h = append_missing_fields-contains fields more f in
    let k = contains-add field xs f in
    let c : contains (field ∷ fields) f ≡ str_eq field f || contains fields f =
      (unfold contains in refl) in
    ground arith

contains-false : (xs : List Bytes) (f : Bytes) → contains xs f ≡ false → ¬ Elem f xs
contains-false xs f e m = let h = (contains_iff xs f).1 m in cc

Distinct-add :
    (field : Bytes) (xs : List Bytes)
    → Distinct xs
    → Distinct (if contains xs field then xs else xs ++ field ∷ [])
Distinct-add field xs h = elim (Bool-cases (contains xs field)) [
  | inl e ↦ rw e h
  | inr e ↦ rw e (Distinct-snoc field xs (contains-false xs field e) h)
]

append_missing_fields-Distinct :
    (fields xs : List Bytes) → Distinct xs → Distinct (append_missing_fields fields xs)
unfolding append_missing_fields
append_missing_fields-Distinct [] xs h = h
append_missing_fields-Distinct (field ∷ fields) xs h =
    append_missing_fields-Distinct fields _ (Distinct-add field xs h)

include_missing-same :
    (fields xs : List Bytes) → include_missing fields xs ≡ append_missing_fields fields xs
unfolding include_missing append_missing_fields
include_missing-same [] xs = refl
include_missing-same (field ∷ fields) xs =
    include_missing-same fields (if contains xs field then xs else xs ++ field ∷ [])

abbrev pub required_fields : List Bytes
required_fields = codes "name" ∷ codes "repo" ∷ codes "path" ∷ []

abbrev ten_fields : List Bytes
ten_fields =
    codes "name"
    ∷ codes "repo"
    ∷ codes "path"
    ∷ codes "actual_md5"
    ∷ codes "actual_sha1"
    ∷ codes "sha256"
    ∷ codes "size"
    ∷ codes "type"
    ∷ codes "modified"
    ∷ codes "created"
    ∷ []

-- The fields that a query without sorting, limit and properties asks for.
abbrev pub asked_for : List Bytes → Bytes → Bool
asked_for [] f = contains ten_fields f
asked_for (field ∷ fields) f = contains required_fields f || contains (field ∷ fields) f

base_fields-contains :
    (included : List Bytes) (f : Bytes) → contains (base_fields included) f ≡ asked_for included f
unfolding base_fields
base_fields-contains [] f = refl
base_fields-contains (field ∷ fields) f =
    (unfold get_query_return_fields_with_include in
      ap (λ xs. contains xs f) (include_missing-same (field ∷ fields) required_fields))
    ∙ append_missing_fields-contains (field ∷ fields) required_fields f

-- A query whose results come with all their properties, or with those of symbolic links.
abbrev pub wants_properties : RequiredArtifactProps → Bool
wants_properties no_props = false
wants_properties all_props = true
wants_properties symlink_props = true

some_props-wants_properties :
    (required : RequiredArtifactProps) → some_props required ≡ wants_properties required
unfolding some_props
some_props-wants_properties no_props = refl
some_props-wants_properties all_props = refl
some_props-wants_properties symlink_props = refl

-- The query is sorted, by one field at least, or limited, to one result at least.
abbrev pub sorted_or_limited : List Bytes → ℤ → Bool
sorted_or_limited [] (pos zero) = false
sorted_or_limited [] (pos (suc n)) = true
sorted_or_limited [] (negsuc n) = false
sorted_or_limited (field ∷ fields) limit = true

include_properties-sorted_or_limited :
    (spec : CommonParams)
    → include_properties_in_aql_for_spec spec ≡ not (sorted_or_limited spec.sort_by spec.limit)
unfolding include_properties_in_aql_for_spec ltb_ℤ
include_properties-sorted_or_limited spec = cases spec.sort_by spec.limit
  where
    cases :
        (by : List Bytes) (limit : ℤ)
        → not (ltb 0 (length by) || ltb_ℤ (pos 0) limit) ≡ not (sorted_or_limited by limit)
    cases [] (pos zero) = refl
    cases [] (pos (suc n)) = ground arith
    cases [] (negsuc n) = refl
    cases (field ∷ fields) limit = ground arith

-- The fields of a query are: "name", "repo" and "path" with the fields of Include, or these three with
-- "actual_md5", "actual_sha1", "sha256", "size", "type", "modified" and "created" where Include is
-- empty; besides these, a query with a field to sort by or a positive limit has the fields of SortBy and
-- nothing else, and any other query has "property" where all properties or those of
-- symbolic links are required, and nothing else.
pub get_query_return_fields-contains :
    (spec : CommonParams) (required : RequiredArtifactProps) (f : Bytes)
    → contains (get_query_return_fields spec required) f
      ≡ asked_for spec.include f
        || (if sorted_or_limited spec.sort_by spec.limit
            then contains spec.sort_by f
            else wants_properties required && str_eq (codes "property") f)
unfolding get_query_return_fields
get_query_return_fields-contains spec required f =
    let base = base_fields spec.include in
    let h = base_fields-contains spec.include f in
    let one : contains (codes "property" ∷ []) f ≡ str_eq (codes "property") f =
      (unfold contains in ground arith) in
    rw (include_properties-sorted_or_limited spec, ← some_props-wants_properties required)
      (elim (Bool-cases (sorted_or_limited spec.sort_by spec.limit)) [
        | inl e ↦ rw (e, append_missing_fields-contains spec.sort_by base f, h) refl
        | inr e ↦ elim (Bool-cases (some_props required)) [
          | inl r ↦ rw (e, r, contains-append base (codes "property" ∷ []) f, h, one) refl
          | inr r ↦ rw (e, r, h) ground arith
        ]
      ])

-- A list that comes out when its fields are added one by one.
added-Distinct : (xs : List Bytes) → append_missing_fields xs [] ≡ xs → Distinct xs
added-Distinct xs h =
    let added : Distinct (append_missing_fields xs []) = append_missing_fields-Distinct xs [] tt in
    rw (sym h) added

default_fields-added : append_missing_fields default_fields [] ≡ default_fields
unfolding append_missing_fields
default_fields-added = refl

required_fields-added : append_missing_fields required_fields [] ≡ required_fields
unfolding append_missing_fields
required_fields-added = refl

base_fields-Distinct : (included : List Bytes) → Distinct (base_fields included)
unfolding base_fields
base_fields-Distinct [] = added-Distinct default_fields default_fields-added
base_fields-Distinct (field ∷ fields) =
    (unfold get_query_return_fields_with_include in
      rw (include_missing-same (field ∷ fields) required_fields) (
        append_missing_fields-Distinct (field ∷ fields) required_fields
          (added-Distinct required_fields required_fields-added)))

asked_for-property :
    (included : List Bytes)
    → contains included (codes "property") ≡ false
    → asked_for included (codes "property") ≡ false
asked_for-property [] h = (unfold contains in refl)
asked_for-property (field ∷ fields) h = (rw h (unfold contains in refl))

-- No field stands twice among those that a query asks for, as long as Include does not name "property".
pub get_query_return_fields-Distinct :
    (spec : CommonParams) (required : RequiredArtifactProps)
    → contains spec.include (codes "property") ≡ false
    → Distinct (get_query_return_fields spec required)
unfolding get_query_return_fields
get_query_return_fields-Distinct spec required hyp =
    let base = base_fields spec.include in
    let new : contains base (codes "property") ≡ false =
      base_fields-contains spec.include (codes "property") ∙ asked_for-property spec.include hyp in
    elim (Bool-cases (include_properties_in_aql_for_spec spec)) [
      | inl e ↦ elim (Bool-cases (some_props required)) [
        | inl r ↦
            rw (e, r)
              (Distinct-snoc (codes "property") base (contains-false base _ new)
                (base_fields-Distinct spec.include))
        | inr r ↦ rw (e, r) (base_fields-Distinct spec.include)
      ]
      | inr e ↦
          rw e
            (append_missing_fields-Distinct spec.sort_by base (base_fields-Distinct spec.include))
    ]
