-- ===== src/Props/Merge.antt =====
-- AddProperty and MergeProperties: which values a dictionary holds, and that none stands twice.
use jfrog_client_go.Base.{
  ◌≡◌, false, Option, none, some, List, [], ◌∷◌, ◌++◌, ◌↔◌, ◌⊎◌, inl, inr, All, Elem, Distinct,
  arith, Elem-append, Elem-append_left, Elem-append_right,
}
use jfrog_client_go.Base.Text.{Bytes, str_eq, str_eq_iff}
use jfrog_client_go.Props.{
  Dict, Properties, append_values, merge_entries, merge_each, merge_properties, remove_duplicates,
  remove_duplicate_values,
}
use jfrog_client_go.Props.Dedup.{remove_duplicates_lem}

-- The dictionary holds the value under the key.
abbrev pub Holds : Bytes → Bytes → Dict → Type 0
Holds k v [] = ⊥
Holds k v ((j, vs) ∷ d) = ((k ≡ j) × Elem v vs) ⊎ Holds k v d

-- Some dictionary of the list that is not nil holds the value under the key.
abbrev pub SomeHolds : Bytes → Bytes → List (Option Properties) → Type 0
SomeHolds k v [] = ⊥
SomeHolds k v (none ∷ ps) = SomeHolds k v ps
SomeHolds k v (some p ∷ ps) = Holds k v p.properties ⊎ SomeHolds k v ps

-- A dictionary is a map whose slices have no value twice.
abbrev pub KeyIsNew : Bytes → Dict → Type 0
KeyIsNew k = All (λ e. str_eq e.0 k ≡ false)

abbrev pub IsMap : Dict → Type 0
IsMap [] = Unit
IsMap ((k, vs) ∷ d) = KeyIsNew k d × IsMap d

abbrev pub ValuesDistinct : Dict → Type 0
ValuesDistinct = All (λ e. Distinct (e.1))

pub Elem-append_iff : (v : Bytes) (xs ys : List Bytes) → Elem v (xs ++ ys) ↔ (Elem v xs ⊎ Elem v ys)
Elem-append_iff v xs ys = (
  Elem-append v xs ys,
  λ h. elim h [ inl l ↦ Elem-append_left v xs ys l | inr r ↦ Elem-append_right v xs ys r ],
)

pub Holds-append_values :
    (k v j : Bytes) (ws : List Bytes) (d : Dict)
    → Holds k v (append_values j ws d) ↔ (Holds k v d ⊎ ((k ≡ j) × Elem v ws))
unfolding append_values
Holds-append_values k v j ws [] = ground arith
Holds-append_values k v j ws ((i, vs) ∷ d) =
    ground (arith, str_eq_iff i j, Holds-append_values k v j ws d, Elem-append_iff v vs ws)

KeyIsNew-append_values :
    (k j : Bytes) (ws : List Bytes) (d : Dict)
    → str_eq j k ≡ false
    → KeyIsNew k d
    → KeyIsNew k (append_values j ws d)
unfolding append_values
KeyIsNew-append_values k j ws [] ne h = (ne, tt)
KeyIsNew-append_values k j ws ((i, vs) ∷ d) ne h = ground (arith, KeyIsNew-append_values k j ws d)

pub IsMap-append_values :
    (j : Bytes) (ws : List Bytes) (d : Dict) → IsMap d → IsMap (append_values j ws d)
unfolding append_values
IsMap-append_values j ws [] h = (tt, tt)
IsMap-append_values j ws ((i, vs) ∷ d) h = ground (
  arith,
  IsMap-append_values j ws d,
  str_eq_iff i j,
  str_eq_iff j i,
  KeyIsNew-append_values i j ws d,
)

Holds-merge_entries :
    (k v : Bytes) (m d : Dict) → Holds k v (merge_entries m d) ↔ (Holds k v m ⊎ Holds k v d)
unfolding merge_entries
Holds-merge_entries k v m [] = ground arith
Holds-merge_entries k v m ((j, vs) ∷ d) =
    ground (arith, Holds-merge_entries k v (append_values j vs m) d, Holds-append_values k v j vs m)

Holds-merge_each :
    (k v : Bytes) (m : Dict) (ps : List (Option Properties))
    → Holds k v (merge_each m ps) ↔ (Holds k v m ⊎ SomeHolds k v ps)
unfolding merge_each
Holds-merge_each k v m [] = ground arith
Holds-merge_each k v m (none ∷ ps) = Holds-merge_each k v m ps
Holds-merge_each k v m (some p ∷ ps) = ground (
  arith,
  Holds-merge_each k v (merge_entries m p.properties) ps,
  Holds-merge_entries k v m p.properties,
)

IsMap-merge_entries : (m d : Dict) → IsMap m → IsMap (merge_entries m d)
unfolding merge_entries
IsMap-merge_entries m [] h = h
IsMap-merge_entries m ((j, vs) ∷ d) h =
    IsMap-merge_entries (append_values j vs m) d (IsMap-append_values j vs m h)

IsMap-merge_each : (m : Dict) (ps : List (Option Properties)) → IsMap m → IsMap (merge_each m ps)
unfolding merge_each
IsMap-merge_each m [] h = h
IsMap-merge_each m (none ∷ ps) h = IsMap-merge_each m ps h
IsMap-merge_each m (some p ∷ ps) h =
    IsMap-merge_each (merge_entries m p.properties) ps (IsMap-merge_entries m p.properties h)

Holds-remove_duplicate_values :
    (k v : Bytes) (d : Dict) → Holds k v (remove_duplicate_values d) ↔ Holds k v d
unfolding remove_duplicate_values
Holds-remove_duplicate_values k v [] = (λ h. h, λ h. h)
Holds-remove_duplicate_values k v ((j, vs) ∷ d) =
    let same : Elem v (remove_duplicates vs) ↔ Elem v vs = (remove_duplicates_lem vs).1 v in
    let ih = Holds-remove_duplicate_values k v d in ground (arith, same, ih)

KeyIsNew-remove_duplicate_values :
    (k : Bytes) (d : Dict) → KeyIsNew k d → KeyIsNew k (remove_duplicate_values d)
unfolding remove_duplicate_values
KeyIsNew-remove_duplicate_values k [] h = tt
KeyIsNew-remove_duplicate_values k ((j, vs) ∷ d) (h, hs) =
    (h, KeyIsNew-remove_duplicate_values k d hs)

IsMap-remove_duplicate_values : (d : Dict) → IsMap d → IsMap (remove_duplicate_values d)
unfolding remove_duplicate_values
IsMap-remove_duplicate_values [] h = tt
IsMap-remove_duplicate_values ((j, vs) ∷ d) (h, hs) =
    (KeyIsNew-remove_duplicate_values j d h, IsMap-remove_duplicate_values d hs)

ValuesDistinct-remove_duplicate_values : (d : Dict) → ValuesDistinct (remove_duplicate_values d)
unfolding remove_duplicate_values
ValuesDistinct-remove_duplicate_values [] = tt
ValuesDistinct-remove_duplicate_values ((j, vs) ∷ d) =
    ((remove_duplicates_lem vs).0, ValuesDistinct-remove_duplicate_values d)

-- The merged dictionary holds a value under a key exactly if one of the given ones that is not nil
-- does; no key stands twice in it, and no value twice under one key.
pub merge_properties_lem :
    (ps : List (Option Properties))
    → ((k v : Bytes) → Holds k v (merge_properties ps).properties ↔ SomeHolds k v ps)
      × IsMap (merge_properties ps).properties
      × ValuesDistinct (merge_properties ps).properties
unfolding merge_properties
merge_properties_lem ps = (
  λ k v.
      let all = Holds-merge_each k v [] ps in
      let kept = Holds-remove_duplicate_values k v (merge_each [] ps) in ground (arith, all, kept),
  IsMap-remove_duplicate_values (merge_each [] ps) (IsMap-merge_each [] ps tt),
  ValuesDistinct-remove_duplicate_values (merge_each [] ps),
)
