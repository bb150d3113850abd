-- ===== src/Builds/Loaded.antt =====
-- loadMissingProperties gives each item its properties, whatever the size of the buffer.
use mathlib.Core.Bool.{false≢true}
use jfrog_client_go.Base.{
  ℕ, ◌≡◌, refl, sym, ap, ◌∙◌, false, ◌||◌, List, [], ◌∷◌, ◌++◌, ◌==◌, map, arith, if◌then◌else◌,
  inl, inr, Bool-cases, append_assoc, append-nil,
}
use jfrog_client_go.Base.Text.{Bytes, str_eq, str_eq_iff}
use jfrog_client_go.Props.{Property}
use jfrog_client_go.Search.{ResultItem, get_item_relative_path}
use jfrog_client_go.Builds.Missing.{
  has_path, set_properties, load_properties, update_props, buffer_len, load_from,
  load_missing_properties,
}

-- No two items have the same path.
abbrev pub DistinctPaths : List ResultItem → Type 0
DistinctPaths [] = Unit
DistinctPaths (x ∷ xs) = (has_path xs (get_item_relative_path x) ≡ false) × DistinctPaths xs

abbrev assign : Bytes → List Property → ResultItem → ResultItem
assign path properties x =
    if str_eq (get_item_relative_path x) path then record x { properties = properties } else x

-- The item with the properties of the last of the records with its path; unchanged without one.
abbrev pub with_properties : List ResultItem → ResultItem → ResultItem
with_properties [] x = x
with_properties (r ∷ records) x =
    with_properties records (assign (get_item_relative_path r) r.properties x)

path-assign :
    (path : Bytes) (properties : List Property) (x : ResultItem)
    → get_item_relative_path (assign path properties x) ≡ get_item_relative_path x
unfolding get_item_relative_path
path-assign path properties x = elim (Bool-cases (str_eq (get_item_relative_path x) path)) [
  | inl e ↦
      ap (λ b. get_item_relative_path (if b then record x { properties = properties } else x)) e
  | inr e ↦
      ap (λ b. get_item_relative_path (if b then record x { properties = properties } else x)) e
]

has_path-map :
    (path : Bytes) (properties : List Property) (xs : List ResultItem) (k : Bytes)
    → has_path (map (assign path properties) xs) k ≡ has_path xs k
has_path-map path properties [] k = refl
has_path-map path properties (x ∷ xs) k =
    ap (λ p. str_eq p k || has_path (map (assign path properties) xs) k)
      (path-assign path properties x)
    ∙ ap (λ b. str_eq (get_item_relative_path x) k || b) (has_path-map path properties xs k)

DistinctPaths-map :
    (path : Bytes) (properties : List Property) (xs : List ResultItem)
    → DistinctPaths xs
    → DistinctPaths (map (assign path properties) xs)
DistinctPaths-map path properties [] d = tt
DistinctPaths-map path properties (x ∷ xs) (d, ds) = (
  has_path-map path properties xs (get_item_relative_path (assign path properties x))
      ∙ ap (has_path xs) (path-assign path properties x)
      ∙ d,
  DistinctPaths-map path properties xs ds,
)

assign-none :
    (path : Bytes) (properties : List Property) (xs : List ResultItem)
    → has_path xs path ≡ false
    → map (assign path properties) xs ≡ xs
assign-none path properties [] h = refl
assign-none path properties (x ∷ xs) h =
    let other : str_eq (get_item_relative_path x) path ≡ false = ground arith in
    let rest : has_path xs path ≡ false = ground arith in
    ap
      (λ b.
        (if b then record x { properties = properties } else x) ∷ map (assign path properties) xs)
      other
    ∙ ap (λ ys. x ∷ ys) (assign-none path properties xs rest)

set_properties-map :
    (path : Bytes) (properties : List Property) (xs : List ResultItem)
    → DistinctPaths xs
    → set_properties path properties xs ≡ map (assign path properties) xs
unfolding set_properties
set_properties-map path properties [] d = refl
set_properties-map path properties (x ∷ xs) (d, ds) = elim (Bool-cases (has_path xs path)) [
  | inl e ↦
      let other : str_eq (get_item_relative_path x) path ≡ false =
        elim (Bool-cases (str_eq (get_item_relative_path x) path)) [
          | inl h ↦
              let same = ap (has_path xs) ((str_eq_iff (get_item_relative_path x) path).0 h) in
              absurd (false≢true (sym d ∙ same ∙ e))
          | inr h ↦ h
        ] in
      ap
        (λ b.
          if b
          then x ∷ set_properties path properties xs
          else if str_eq (get_item_relative_path x) path
          then record x { properties = properties } ∷ xs
          else x ∷ xs)
        e
      ∙ ap (λ ys. x ∷ ys) (set_properties-map path properties xs ds)
      ∙ ap
          (λ b.
            (if b then record x { properties = properties } else x)
            ∷ map (assign path properties) xs)
          (sym other)
  | inr e ↦
      ap
        (λ b.
          if b
          then x ∷ set_properties path properties xs
          else if str_eq (get_item_relative_path x) path
          then record x { properties = properties } ∷ xs
          else x ∷ xs)
        e
      ∙ elim (Bool-cases (str_eq (get_item_relative_path x) path)) [
        | inl h ↦
            ap (λ b. if b then record x { properties = properties } ∷ xs else x ∷ xs) h
            ∙ ap (λ ys. record x { properties = properties } ∷ ys)
                (sym (assign-none path properties xs e))
            ∙ ap
                (λ b.
                  (if b then record x { properties = properties } else x)
                  ∷ map (assign path properties) xs)
                (sym h)
        | inr h ↦
            ap (λ b. if b then record x { properties = properties } ∷ xs else x ∷ xs) h
            ∙ ap (λ ys. x ∷ ys) (sym (assign-none path properties xs e))
            ∙ ap
                (λ b.
                  (if b then record x { properties = properties } else x)
                  ∷ map (assign path properties) xs)
                (sym h)
      ]
]

map-with :
    (r : ResultItem) (records xs : List ResultItem)
    → map (with_properties records) (map (assign (get_item_relative_path r) r.properties) xs)
      ≡ map (with_properties (r ∷ records)) xs
map-with r records [] = refl
map-with r records (x ∷ xs) =
    ap (λ ys. with_properties (r ∷ records) x ∷ ys) (map-with r records xs)

map-same : (xs : List ResultItem) → map (with_properties []) xs ≡ xs
map-same [] = refl
map-same (x ∷ xs) = ap (λ ys. x ∷ ys) (map-same xs)

load_properties-map :
    (records xs : List ResultItem)
    → DistinctPaths xs
    → load_properties records xs ≡ map (with_properties records) xs
unfolding load_properties
load_properties-map [] xs d = sym (map-same xs)
load_properties-map (r ∷ records) xs d =
    let path = get_item_relative_path r in
    ap (load_properties records) (set_properties-map path r.properties xs d)
    ∙ load_properties-map records (map (assign path r.properties) xs)
        (DistinctPaths-map path r.properties xs d)
    ∙ map-with r records xs

update_props-map :
    (records xs : List ResultItem)
    → DistinctPaths xs
    → update_props records xs ≡ map (with_properties records) xs
unfolding update_props
update_props-map records [] d = refl
update_props-map records (x ∷ xs) d = load_properties-map records (x ∷ xs) d

has_path-append :
    (xs ys : List ResultItem) (k : Bytes) → has_path (xs ++ ys) k ≡ false → has_path xs k ≡ false
has_path-append [] ys k h = refl
has_path-append (x ∷ xs) ys k h = let rest = has_path-append xs ys k in ground arith

DistinctPaths-left : (xs ys : List ResultItem) → DistinctPaths (xs ++ ys) → DistinctPaths xs
DistinctPaths-left [] ys d = tt
DistinctPaths-left (x ∷ xs) ys (d, ds) =
    (has_path-append xs ys (get_item_relative_path x) d, DistinctPaths-left xs ys ds)

DistinctPaths-right : (xs ys : List ResultItem) → DistinctPaths (xs ++ ys) → DistinctPaths ys
DistinctPaths-right [] ys d = d
DistinctPaths-right (x ∷ xs) ys (d, ds) = DistinctPaths-right xs ys ds

map-append :
    (f : ResultItem → ResultItem) (xs ys : List ResultItem)
    → map f (xs ++ ys) ≡ map f xs ++ map f ys
map-append f [] ys = refl
map-append f (x ∷ xs) ys = ap (λ zs. f x ∷ zs) (map-append f xs ys)

load_from-map :
    (size : ℕ) (records buffer items : List ResultItem)
    → DistinctPaths (buffer ++ items)
    → load_from size records buffer items ≡ map (with_properties records) (buffer ++ items)
unfolding load_from
load_from-map size records buffer [] d =
    update_props-map records buffer (DistinctPaths-left buffer [] d)
    ∙ ap (map (with_properties records)) (sym (append-nil buffer))
load_from-map size records buffer (x ∷ items) d =
    let moved = append_assoc buffer (x ∷ []) items in
    let d' : DistinctPaths ((buffer ++ x ∷ []) ++ items) = rw moved d in
    let f = with_properties records in
    elim (Bool-cases (buffer_len (buffer ++ x ∷ []) == size)) [
      | inl e ↦
          rw (e, load_from)
            (ap (λ ys. ys ++ load_from size records [] items)
                (update_props-map records (buffer ++ x ∷ [])
                  (DistinctPaths-left (buffer ++ x ∷ []) items d'))
              ∙ ap (λ ys. map f (buffer ++ x ∷ []) ++ ys)
                  (load_from-map size records [] items
                    (DistinctPaths-right (buffer ++ x ∷ []) items d'))
              ∙ sym (map-append f (buffer ++ x ∷ []) items)
              ∙ ap (map f) moved)
      | inr e ↦
          rw (e, load_from)
            (load_from-map size records (buffer ++ x ∷ []) items d' ∙ ap (map f) moved)
    ]

-- When no two items have the same path, each item gets, in its place, the properties of the last of the
-- records with its path, and keeps its own where there is none, whatever the size of the buffer.
pub load_missing_properties_lem :
    (max_buffer_size : ℕ) (items records : List ResultItem)
    → DistinctPaths items
    → load_missing_properties max_buffer_size items records ≡ map (with_properties records) items
unfolding load_missing_properties
load_missing_properties_lem size items records d = load_from-map size records [] items d
