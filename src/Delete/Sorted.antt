-- ===== src/Delete/Sorted.antt =====
-- What sorted folders and artifacts say of prefixes: the facts that the pass over them rests on.
use mathlib.Core.Bool.{false≢true}
use jfrog_client_go.Base.{
  ◌≡◌, refl, sym, ap, ◌∙◌, Bool, true, false, not, List, [], ◌∷◌, inl, inr, any, keep, All,
  Bool-cases,
}
use jfrog_client_go.Base.Text.{has_prefix, has_prefix_trans}
use jfrog_client_go.Base.Text.Order.{str_lt, str_le_trans, str_lt_antisymm, prefix_le, above_prefix}
use jfrog_client_go.Search.{ResultItem, is_dot, get_item_relative_path, get_item_relative_location}

-- The folder's path is a prefix of the artifact's location. For a path that ends in a slash this says that
-- the artifact lies in the folder, at any depth.
abbrev pub contains_artifact : ResultItem → ResultItem → Bool
contains_artifact d a = has_prefix (get_item_relative_path d) (get_item_relative_location a)

-- The folders for which this holds of none of the artifacts, in order.
abbrev pub without_artifacts : List ResultItem → List ResultItem → List ResultItem
without_artifacts files = keep (λ d. not (any files (contains_artifact d)))

-- The paths do not fall.
abbrev pub SortedByPath : List ResultItem → Type 0
SortedByPath [] = Unit
SortedByPath (d ∷ ds) =
    All (λ e. str_lt (get_item_relative_path e) (get_item_relative_path d) ≡ false) ds
    × SortedByPath ds

-- An artifact stands in its location.
abbrev pub IsLocated : ResultItem → Type 0
IsLocated a = has_prefix (get_item_relative_location a) (get_item_relative_path a) ≡ true

abbrev pub IsNamed : ResultItem → Type 0
IsNamed d = is_dot d ≡ false

-- An artifact whose location lies above the candidate, and outside it, has no later one inside.
pub no_later :
    (c a : ResultItem) (fs : List ResultItem)
    → str_lt (get_item_relative_path c) (get_item_relative_location a) ≡ true
    → contains_artifact c a ≡ false
    → IsLocated a
    → All (λ e. str_lt (get_item_relative_path e) (get_item_relative_path a) ≡ false) fs
    → All IsLocated fs
    → any fs (contains_artifact c) ≡ false
no_later c a [] lt h la sorted located = refl
no_later c a (e ∷ fs) lt h la (s, sorted) (le, located) =
    elim (Bool-cases (contains_artifact c e)) [
      | inl x ↦
          let below : str_lt (get_item_relative_path e) (get_item_relative_path a) ≡ true =
            above_prefix (get_item_relative_path c) _ _ _ lt h la
              (has_prefix_trans (get_item_relative_path c) (get_item_relative_location e) _ x le) in
          absurd (false≢true (sym s ∙ below))
      | inr x ↦ rw x (no_later c a fs lt h la sorted located)
    ]

-- A folder that is not below the candidate does not contain an artifact that is not above it.
not-contains_later :
    (c d a : ResultItem)
    → str_lt (get_item_relative_path c) (get_item_relative_location a) ≡ false
    → contains_artifact c a ≡ false
    → str_lt (get_item_relative_path d) (get_item_relative_path c) ≡ false
    → contains_artifact d a ≡ false
not-contains_later c d a not_above h le = elim (Bool-cases (contains_artifact d a)) [
  | inr x ↦ x
  | inl x ↦
      let d_le : str_lt (get_item_relative_location a) (get_item_relative_path d) ≡ false =
        prefix_le (get_item_relative_path d) _ x in
      let c_le = str_le_trans (get_item_relative_path c) (get_item_relative_path d) _ le d_le in
      let same : get_item_relative_path c ≡ get_item_relative_location a =
        str_lt_antisymm _ _ not_above c_le in
      let d_below : str_lt (get_item_relative_path c) (get_item_relative_path d) ≡ false =
        rw same d_le in
      let equal : get_item_relative_path d ≡ get_item_relative_path c =
        str_lt_antisymm _ _ le d_below in
      absurd (false≢true (sym h ∙ (rw equal at x)))
]

pub drop-artifact :
    (c a : ResultItem) (files ds : List ResultItem)
    → str_lt (get_item_relative_path c) (get_item_relative_location a) ≡ false
    → contains_artifact c a ≡ false
    → All (λ e. str_lt (get_item_relative_path e) (get_item_relative_path c) ≡ false) ds
    → without_artifacts (a ∷ files) ds ≡ without_artifacts files ds
drop-artifact c a files [] na h sorted = refl
drop-artifact c a files (d ∷ ds) na h (s, sorted) =
    rw (not-contains_later c d a na h s, drop-artifact c a files ds na h sorted)

pub without_artifacts-nil : (ds : List ResultItem) → without_artifacts [] ds ≡ ds
without_artifacts-nil [] = refl
without_artifacts-nil (d ∷ ds) = ap (λ r. d ∷ r) (without_artifacts-nil ds)
