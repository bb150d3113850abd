-- ===== src/Props/Keys.antt =====
-- sort.Strings: the order of the result, and that it holds what was there.
use jfrog_client_go.Base.{◌≡◌, refl, ◌∙◌, false, List, [], ◌∷◌, All, arith, Bool-cases, inl, inr}
use jfrog_client_go.Base.Count.{SameItems}
use jfrog_client_go.Base.Text.{Bytes}
use jfrog_client_go.Base.Text.Order.{str_lt, str_lt_asymm, str_le_trans}
use jfrog_client_go.Props.{insert_sorted, sort_strings}

-- No text comes before one that stands ahead of it.
abbrev pub Alphabetical : List Bytes → Type 0
Alphabetical [] = Unit
Alphabetical (k ∷ ks) = All (λ j. str_lt j k ≡ false) ks × Alphabetical ks

-- The texts of `given`, as often, in the order of their bytes.
abbrev pub IsSortedFrom : List Bytes → List Bytes → Type 0
IsSortedFrom given texts = Alphabetical texts × SameItems texts given

All-insert_sorted :
    (P : Bytes → Type 0) (k : Bytes) (js : List Bytes) → P k → All P js → All P (insert_sorted k js)
unfolding insert_sorted
All-insert_sorted P k [] h hs = (h, tt)
All-insert_sorted P k (j ∷ js) h hs = elim (Bool-cases (str_lt j k)) [
  | inl e ↦ rw e (hs.0, All-insert_sorted P k js h hs.1)
  | inr e ↦ rw e (h, hs)
]

All-below :
    (k j : Bytes) (ks : List Bytes)
    → str_lt j k ≡ false
    → All (λ i. str_lt i j ≡ false) ks
    → All (λ i. str_lt i k ≡ false) ks
All-below k j [] h hs = tt
All-below k j (i ∷ ks) h hs = (str_le_trans k j i h hs.0, All-below k j ks h hs.1)

insert_sorted-Alphabetical :
    (k : Bytes) (js : List Bytes) → Alphabetical js → Alphabetical (insert_sorted k js)
unfolding insert_sorted
insert_sorted-Alphabetical k [] h = (tt, tt)
insert_sorted-Alphabetical k (j ∷ js) (h, hs) = elim (Bool-cases (str_lt j k)) [
  | inl e ↦
      rw e (All-insert_sorted _ k js (str_lt_asymm j k e) h, insert_sorted-Alphabetical k js hs)
  | inr e ↦ rw e ((e, All-below k j js e h), (h, hs))
]

sort_strings-Alphabetical : (ks : List Bytes) → Alphabetical (sort_strings ks)
unfolding sort_strings
sort_strings-Alphabetical [] = tt
sort_strings-Alphabetical (k ∷ ks) =
    insert_sorted-Alphabetical k (sort_strings ks) (sort_strings-Alphabetical ks)

insert_sorted_items : (k : Bytes) (js : List Bytes) → SameItems (insert_sorted k js) (k ∷ js)
unfolding insert_sorted
insert_sorted_items k [] p = refl
insert_sorted_items k (j ∷ js) p = elim (Bool-cases (str_lt j k)) [
  | inl e ↦ rw e (omega (arith, insert_sorted_items k js p))
  | inr e ↦ rw e refl
]

sort_strings_items : (ks : List Bytes) → SameItems (sort_strings ks) ks
unfolding sort_strings
sort_strings_items [] p = refl
sort_strings_items (k ∷ ks) p =
    insert_sorted_items k (sort_strings ks) p ∙ omega (arith, sort_strings_items ks p)

pub sort_strings_lem : (ks : List Bytes) → IsSortedFrom ks (sort_strings ks)
sort_strings_lem ks = (sort_strings-Alphabetical ks, sort_strings_items ks)
