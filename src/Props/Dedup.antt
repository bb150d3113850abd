-- ===== src/Props/Dedup.antt =====
-- removeDuplicates: each value once, and a list whose values are distinct as it is.
use jfrog_client_go.Base.{
  ◌≡◌, refl, true, false, List, [], ◌∷◌, ◌↔◌, any, All, Elem, Distinct, arith,
}
use jfrog_client_go.Base.Text.{Bytes, str_eq, str_eq_iff}
use jfrog_client_go.Props.{remove_seen, remove_duplicates, remove_duplicate_values, Dict}

-- The test of the map `keys` is membership.
pub any-str_eq : (a : Bytes) (keys : List Bytes) → (any keys (str_eq a) ≡ true) ↔ Elem a keys
any-str_eq a [] = (λ h. cc, λ h. absurd h)
any-str_eq a (k ∷ keys) = ground (arith, str_eq_iff a k, any-str_eq a keys)

Elem-remove_seen :
    (a : Bytes) (keys items : List Bytes)
    → Elem a (remove_seen keys items) ↔ (Elem a items × (any keys (str_eq a) ≡ false))
unfolding remove_seen
Elem-remove_seen a keys [] = (λ h. absurd h, λ h. absurd h.0)
Elem-remove_seen a keys (item ∷ items) = ground (
  arith,
  str_eq_iff a item,
  Elem-remove_seen a keys items,
  Elem-remove_seen a (item ∷ keys) items,
)

remove_seen-Distinct : (keys items : List Bytes) → Distinct (remove_seen keys items)
unfolding remove_seen
remove_seen-Distinct keys [] = tt
remove_seen-Distinct keys (item ∷ items) = ground (
  arith,
  str_eq_iff item item,
  remove_seen-Distinct keys items,
  remove_seen-Distinct (item ∷ keys) items,
  Elem-remove_seen item (item ∷ keys) items,
)

-- No value that is left is a key.
abbrev Unseen : List Bytes → List Bytes → Type 0
Unseen keys = All (λ a. any keys (str_eq a) ≡ false)

Unseen-cons :
    (k : Bytes) (keys items : List Bytes)
    → ¬ Elem k items
    → Unseen keys items
    → Unseen (k ∷ keys) items
Unseen-cons k keys [] h u = tt
Unseen-cons k keys (item ∷ items) h u = ground (arith, str_eq_iff item k, Unseen-cons k keys items)

remove_seen-id :
    (keys items : List Bytes) → Distinct items → Unseen keys items → remove_seen keys items ≡ items
unfolding remove_seen
remove_seen-id keys [] d u = refl
remove_seen-id keys (item ∷ items) d u =
    ground (arith, remove_seen-id (item ∷ keys) items, Unseen-cons item keys items)

Unseen-nil : (items : List Bytes) → Unseen [] items
Unseen-nil [] = tt
Unseen-nil (item ∷ items) = (refl, Unseen-nil items)

-- The result has no value twice, has the values of the input and no others, and a list with no
-- duplicates is left as it is.
pub remove_duplicates_lem :
    (items : List Bytes)
    → Distinct (remove_duplicates items)
      × ((a : Bytes) → Elem a (remove_duplicates items) ↔ Elem a items)
      × (Distinct items → remove_duplicates items ≡ items)
unfolding remove_duplicates
remove_duplicates_lem items = (
  remove_seen-Distinct [] items,
  λ a. (λ h. ((Elem-remove_seen a [] items).0 h).0, λ h. (Elem-remove_seen a [] items).1 (h, refl)),
  λ d. remove_seen-id [] items d (Unseen-nil items),
)

pub remove_duplicate_values-id :
    (d : Dict) → All (λ e. Distinct (e.1)) d → remove_duplicate_values d ≡ d
unfolding remove_duplicate_values
remove_duplicate_values-id [] h = refl
remove_duplicate_values-id ((k, vs) ∷ d) (h, hs) =
    rw ((remove_duplicates_lem vs).2 h, remove_duplicate_values-id d hs)
