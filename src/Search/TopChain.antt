-- ===== src/Search/TopChain.antt =====
-- FilterTopChainResults keeps the topmost entry of each chain of folders.
use mathlib.Core.Bool.{false≢true}
use jfrog_client_go.Base.{
  ◌≡◌, refl, sym, ◌∙◌, Bool, true, false, not, ◌||◌, List, [], ◌∷◌, ◌⊎◌, inl, inr, Elem,
  if◌then◌else◌, arith, Bool-cases,
}
use jfrog_client_go.Base.Text.{Bytes, str_eq, str_eq_refl, has_prefix}
use jfrog_client_go.Search.{ResultItem, is_dot, is_folder, top_path, top_chain}

-- The item stands in the result, or under a folder of it.
abbrev pub IsCovered : List ResultItem → ResultItem → Type 0
IsCovered result item =
    Elem item result
    ⊎ ((folder : ResultItem) × Elem folder result
        × (is_folder folder ≡ true)
        × (has_prefix (top_path folder) (top_path item) ≡ true))

-- The last folder that was written covers the item.
abbrev UnderPrev : Bytes → ResultItem → Type 0
UnderPrev prev item = (str_eq prev [] ≡ false) × (has_prefix prev (top_path item) ≡ true)

IsCovered-cons :
    (x : ResultItem) (result : List ResultItem) (item : ResultItem)
    → IsCovered result item
    → IsCovered (x ∷ result) item
IsCovered-cons x result item (inl e) = inl (inr e)
IsCovered-cons x result item (inr (f, e, h, k)) = inr (f, inr e, h, k)

-- The test that the loop makes.
abbrev pub is_new : Bytes → ResultItem → Bool
is_new prev item = str_eq prev [] || not (has_prefix prev (top_path item))

abbrev pub next_folder : Bytes → ResultItem → Bytes
next_folder prev item = if is_folder item then top_path item else prev

pub top_chain-dot :
    (prev : Bytes) (x : ResultItem) (items : List ResultItem)
    → is_dot x ≡ true
    → top_chain prev (x ∷ items) ≡ top_chain prev items
unfolding top_chain
top_chain-dot prev x items h = rw (h, top_chain)

pub top_chain-new :
    (prev : Bytes) (x : ResultItem) (items : List ResultItem)
    → is_dot x ≡ false
    → is_new prev x ≡ true
    → top_chain prev (x ∷ items) ≡ x ∷ top_chain (next_folder prev x) items
unfolding top_chain
top_chain-new prev x items h k = rw (h, k, top_chain)

pub top_chain-old :
    (prev : Bytes) (x : ResultItem) (items : List ResultItem)
    → is_dot x ≡ false
    → is_new prev x ≡ false
    → top_chain prev (x ∷ items) ≡ top_chain prev items
unfolding top_chain
top_chain-old prev x items h k = rw (h, k, top_chain)

-- The three ways of the loop on an item.
abbrev pub Turns : Bytes → ResultItem → Type 0
Turns prev x =
    (is_dot x ≡ true)
    ⊎ (((is_dot x ≡ false) × (is_new prev x ≡ true))
        ⊎ ((is_dot x ≡ false) × (is_new prev x ≡ false)))

pub turns : (prev : Bytes) (x : ResultItem) → Turns prev x
turns prev x = elim (Bool-cases (is_dot x)) [
  | inl d ↦ inl d
  | inr d ↦ elim (Bool-cases (is_new prev x)) [
    | inl n ↦ inr (inl (d, n))
    | inr n ↦ inr (inr (d, n))
  ]
]

-- Where an item of the input is after the loop.
abbrev Place : Bytes → List ResultItem → ResultItem → Type 0
Place prev result item = (is_dot item ≡ true) ⊎ (IsCovered result item ⊎ UnderPrev prev item)

Place-cons :
    (prev : Bytes) (x item : ResultItem) (result : List ResultItem)
    → Place (next_folder prev x) result item
    → Place prev (x ∷ result) item
Place-cons prev x item result (inl d) = inl d
Place-cons prev x item result (inr (inl c)) = inr (inl (IsCovered-cons x result item c))
Place-cons prev x item result (inr (inr (ne, h))) = elim (Bool-cases (is_folder x)) [
  | inl f ↦ inr (inl (inr (x, inl refl, f, ground arith)))
  | inr f ↦ inr (inr (ground arith))
]

top_chain-Place :
    (prev : Bytes) (items : List ResultItem) (item : ResultItem)
    → Elem item items
    → Place prev (top_chain prev items) item
top_chain-Place prev [] item e = absurd e
top_chain-Place prev (x ∷ items) item (inl e) = elim (turns prev x) [
  | inl d ↦ inl (rw e d)
  | inr (inl (d, n)) ↦ rw (top_chain-new prev x items d n) (inr (inl (inl (inl e))))
  | inr (inr (d, n)) ↦ inr (inr (rw e (ground arith)))
]
top_chain-Place prev (x ∷ items) item (inr e) = elim (turns prev x) [
  | inl d ↦ rw (top_chain-dot prev x items d) (top_chain-Place prev items item e)
  | inr (inl (d, n)) ↦
      rw (top_chain-new prev x items d n)
        (Place-cons prev x item _ (top_chain-Place (next_folder prev x) items item e))
  | inr (inr (d, n)) ↦ rw (top_chain-old prev x items d n) (top_chain-Place prev items item e)
]

-- Every item of the input but the root stands in the result or lies under a folder of the result.
pub top_chain-IsKept :
    (items : List ResultItem) (item : ResultItem)
    → Elem item items
    → is_dot item ≡ false
    → IsCovered (top_chain [] items) item
top_chain-IsKept items item e d = elim (top_chain-Place [] items item e) [
  | inl d' ↦ absurd (false≢true (sym d ∙ d'))
  | inr (inl c) ↦ c
  | inr (inr (ne, h)) ↦ absurd (false≢true (sym ne ∙ str_eq_refl []))
]
