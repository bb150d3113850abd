-- ===== src/Props/Add.antt =====
-- AddProperty: a value is added once under its key.
use mathlib.Core.Bool.{false≢true}
use jfrog_client_go.Base.{
  ◌≡◌, sym, ◌∙◌, Bool, true, ◌&&◌, [], ◌∷◌, ◌↔◌, ◌⊎◌, inl, inr, any, Elem, Bool-cases, arith,
  Distinct-snoc,
}
use jfrog_client_go.Base.Text.{Bytes, str_eq, str_eq_iff}
use jfrog_client_go.Props.{Dict, Properties, get, has_key, append_values, add_property}
use jfrog_client_go.Props.Merge.{
  Holds, KeyIsNew, IsMap, ValuesDistinct, Holds-append_values, IsMap-append_values,
}
use jfrog_client_go.Props.Dedup.{any-str_eq}

not-Holds_of_KeyIsNew : (k v : Bytes) (d : Dict) → KeyIsNew k d → ¬ Holds k v d
not-Holds_of_KeyIsNew k v [] h x = x
not-Holds_of_KeyIsNew k v ((j, vs) ∷ d) (h, hs) x =
    ground (arith, x, str_eq_iff j k, not-Holds_of_KeyIsNew k v d hs)

-- In a map, the slice under a key has the values that the map holds under it.
Elem-get : (k v : Bytes) (d : Dict) → IsMap d → Elem v (get k d) ↔ Holds k v d
unfolding get
Elem-get k v [] h = (λ x. x, λ x. x)
Elem-get k v ((j, vs) ∷ d) h =
    ground (arith, str_eq_iff j k, Elem-get k v d, not-Holds_of_KeyIsNew k v d)

ValuesDistinct-append_values :
    (k v : Bytes) (d : Dict)
    → ¬ Elem v (get k d)
    → ValuesDistinct d
    → ValuesDistinct (append_values k (v ∷ []) d)
unfolding append_values get
ValuesDistinct-append_values k v [] n h = ((λ x. x, tt), tt)
ValuesDistinct-append_values k v ((j, vs) ∷ d) n (h, hs) =
    ground (arith, Distinct-snoc v vs, ValuesDistinct-append_values k v d)

-- The test that AddProperty makes before it adds.
abbrev is_there : Bytes → Bytes → Dict → Bool
is_there k v d = has_key k d && any (get k d) (str_eq v)

has_key-get : (k v : Bytes) (d : Dict) → Elem v (get k d) → has_key k d ≡ true
unfolding has_key get
has_key-get k v [] h = absurd h
has_key-get k v ((j, vs) ∷ d) h = ground (arith, has_key-get k v d)

IsThere_iff : (k v : Bytes) (d : Dict) → (is_there k v d ≡ true) ↔ Elem v (get k d)
IsThere_iff k v d = ground (arith, any-str_eq v (get k d), has_key-get k v d)

-- After a value is added, the map holds what it held and that value under its key; it is still a map
-- with no value twice under one key.
pub add_property_lem :
    (p : Properties) (key value : Bytes)
    → IsMap p.properties
    → ValuesDistinct p.properties
    → ((k v : Bytes)
        → Holds k v (add_property p key value).properties
          ↔ (Holds k v p.properties ⊎ ((k ≡ key) × (v ≡ value))))
      × IsMap (add_property p key value).properties
      × ValuesDistinct (add_property p key value).properties
unfolding add_property
add_property_lem p key value m d = elim (Bool-cases (is_there key value p.properties)) [
  | inl e ↦
      let there : Holds key value p.properties =
        (Elem-get key value p.properties m).0 ((IsThere_iff key value p.properties).0 e) in
      rw e
        (λ k v. (λ h. inl h, λ h. elim h [ inl h' ↦ h' | inr (ek, ev) ↦ rw (ek, ev) there ]), m, d)
  | inr e ↦ rw e (
    λ k v. ground (arith, Holds-append_values k v key (value ∷ []) p.properties),
    IsMap-append_values key (value ∷ []) p.properties m,
    ValuesDistinct-append_values key value p.properties
        (λ h. false≢true (sym e ∙ (IsThere_iff key value p.properties).1 h)) d,
  )
]
