-- ===== src/Search/Separate.antt =====
-- In a sorted search result, FilterTopChainResults leaves no entry under a folder that it keeps.
use mathlib.Core.Bool.{false≢true}
use jfrog_client_go.Base.{
  ◌≡◌, refl, sym, ◌∙◌, true, false, List, [], ◌∷◌, inl, inr, All, arith, Bool-cases,
}
use jfrog_client_go.Base.Text.{Bytes, str_eq, has_prefix}
use jfrog_client_go.Base.Text.Order.{str_lt, prefix_convex}
use jfrog_client_go.Search.{
  ResultItem, is_folder, append_folder_suffix, get_item_relative_path, top_path, top_chain,
}
use jfrog_client_go.Search.TopChain.{
  is_new, next_folder, top_chain-dot, top_chain-new, top_chain-old, turns,
}

-- The paths do not fall.
abbrev pub SortedByTopPath : List ResultItem → Type 0
SortedByTopPath [] = Unit
SortedByTopPath (x ∷ xs) =
    All (λ y. str_lt (top_path y) (top_path x) ≡ false) xs × SortedByTopPath xs

abbrev pub NoneUnder : Bytes → List ResultItem → Type 0
NoneUnder p = All (λ y. has_prefix p (top_path y) ≡ false)

-- No item lies under a folder that stands before it.
abbrev pub IsSeparate : List ResultItem → Type 0
IsSeparate [] = Unit
IsSeparate (x ∷ xs) = (is_folder x ≡ true → NoneUnder (top_path x) xs) × IsSeparate xs

-- A later item under `p` is under the last folder too.
abbrev Guarded : Bytes → Bytes → List ResultItem → Type 0
Guarded p prev = All (λ y. has_prefix p (top_path y) ≡ true → has_prefix prev (top_path y) ≡ true)

abbrev NotBelow : Bytes → List ResultItem → Type 0
NotBelow p = All (λ y. str_lt (top_path y) p ≡ false)

append_folder_suffix-ne-nil : (s : Bytes) → str_eq (append_folder_suffix s) [] ≡ false
unfolding append_folder_suffix str_eq
append_folder_suffix-ne-nil [] = refl
append_folder_suffix-ne-nil (c ∷ s) = ground arith

top_path-ne-nil : (x : ResultItem) → is_folder x ≡ true → str_eq (top_path x) [] ≡ false
unfolding top_path
top_path-ne-nil x h = rw h (append_folder_suffix-ne-nil (get_item_relative_path x))

-- Once an item is not under `p`, no item that is not below it is.
Guarded-after :
    (p q : Bytes) (x : ResultItem) (items : List ResultItem)
    → has_prefix p (top_path x) ≡ false
    → str_lt (top_path x) p ≡ false
    → All (λ y. str_lt (top_path y) (top_path x) ≡ false) items
    → Guarded p q items
Guarded-after p q x [] out above sorted = tt
Guarded-after p q x (y ∷ items) out above (s, sorted) = (
  λ h. absurd (false≢true (sym out ∙ prefix_convex p (top_path x) (top_path y) h above s)),
  Guarded-after p q x items out above sorted,
)

next_folder-ne-nil :
    (prev : Bytes) (x : ResultItem)
    → str_eq prev [] ≡ false
    → str_eq (next_folder prev x) [] ≡ false
next_folder-ne-nil prev x ne = elim (Bool-cases (is_folder x)) [
  | inl f ↦ rw f (top_path-ne-nil x f)
  | inr f ↦ rw f ne
]

-- A new item is not under the last folder, so it is not under what that folder guards.
not-under_of_new :
    (p prev : Bytes) (x : ResultItem)
    → str_eq prev [] ≡ false
    → is_new prev x ≡ true
    → (has_prefix p (top_path x) ≡ true → has_prefix prev (top_path x) ≡ true)
    → has_prefix p (top_path x) ≡ false
not-under_of_new p prev x ne new g = elim (Bool-cases (has_prefix p (top_path x))) [
  | inl h ↦ let h' = g h in absurd (ground arith)
  | inr h ↦ h
]

top_chain-NoneUnder :
    (p prev : Bytes) (items : List ResultItem)
    → str_eq prev [] ≡ false
    → NotBelow p items
    → SortedByTopPath items
    → Guarded p prev items
    → NoneUnder p (top_chain prev items)
top_chain-NoneUnder p prev [] ne above sorted g = unfold top_chain in tt
top_chain-NoneUnder p prev (x ∷ items) ne (a, above) (s, sorted) (g, gs) = elim (turns prev x) [
  | inl d ↦ rw (top_chain-dot prev x items d) (top_chain-NoneUnder p prev items ne above sorted gs)
  | inr (inl (d, n)) ↦
      let out = not-under_of_new p prev x ne n g in
      rw (top_chain-new prev x items d n) (
        out,
        top_chain-NoneUnder p (next_folder prev x) items (next_folder-ne-nil prev x ne) above sorted
            (Guarded-after p (next_folder prev x) x items out a s),
      )
  | inr (inr (d, n)) ↦
      rw (top_chain-old prev x items d n) (top_chain-NoneUnder p prev items ne above sorted gs)
]

Guarded-refl : (p : Bytes) (items : List ResultItem) → Guarded p p items
Guarded-refl p [] = tt
Guarded-refl p (y ∷ items) = (λ h. h, Guarded-refl p items)

-- The rest of the result behind a folder.
behind-folder :
    (prev : Bytes) (x : ResultItem) (items : List ResultItem)
    → All (λ y. str_lt (top_path y) (top_path x) ≡ false) items
    → SortedByTopPath items
    → is_folder x ≡ true
    → NoneUnder (top_path x) (top_chain (next_folder prev x) items)
behind-folder prev x items s sorted f = rw f (
    top_chain-NoneUnder (top_path x) (top_path x) items (top_path-ne-nil x f) s sorted
      (Guarded-refl (top_path x) items))

-- From a result that is sorted by path, no entry is kept that lies under a folder kept before it.
pub top_chain-IsSeparate :
    (prev : Bytes) (items : List ResultItem)
    → SortedByTopPath items
    → IsSeparate (top_chain prev items)
top_chain-IsSeparate prev [] sorted = unfold top_chain in tt
top_chain-IsSeparate prev (x ∷ items) (s, sorted) = elim (turns prev x) [
  | inl d ↦ rw (top_chain-dot prev x items d) (top_chain-IsSeparate prev items sorted)
  | inr (inl (d, n)) ↦
      rw (top_chain-new prev x items d n) (
        behind-folder prev x items s sorted,
        top_chain-IsSeparate (next_folder prev x) items sorted,
      )
  | inr (inr (d, n)) ↦ rw (top_chain-old prev x items d n) (top_chain-IsSeparate prev items sorted)
]
