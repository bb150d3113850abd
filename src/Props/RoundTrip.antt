-- ===== src/Props/RoundTrip.antt =====
-- ParseProperties reads back what is written in the format key=val1,val2;…, separators escaped.
use jfrog_client_go.Base.{
  ℕ, ◌≡◌, ◌≢◌, refl, ◌∙◌, false, none, some, List, [], ◌∷◌, ◌++◌, map, append_assoc, append-nil,
  All, All-append, Distinct, arith,
}
use jfrog_client_go.Base.Text.{Bytes, str_eq, ends_with, ends_with-append, join, Lacks}
use jfrog_client_go.Base.Text.Replace.{replace_all-cons, replace_all-nil}
use jfrog_client_go.Props.{
  backslash, props_separator, key_values_separator, multi_values_separator, Dict, append_values,
  split_prop_to_key_and_value, add_parsed, parse_and_add_properties, parse_properties,
  remove_duplicate_values, split_while_ignoring_backslash_prefix_separators,
}
use jfrog_client_go.Props.Unescape.{escape, split_while_ignoring-join}
use jfrog_client_go.Props.Parse.{split_prop_complete}
use jfrog_client_go.Props.Dedup.{remove_duplicate_values-id}

-- The text of one property, its values' commas escaped.
abbrev pub format_entry : Bytes × List Bytes → Bytes
format_entry (key, values) =
    key
    ++ key_values_separator
      ∷ join (multi_values_separator ∷ []) (map (escape multi_values_separator) values)

-- The text of all the properties, their semicolons escaped.
abbrev pub format : Dict → Bytes
format d = join (props_separator ∷ []) (map (escape props_separator) (map format_entry d))

-- A value that the format can carry.
abbrev pub IsValue : Bytes → Type 0
IsValue v = (v ≢ []) × (ends_with backslash v ≡ false)

abbrev pub IsEntry : Bytes × List Bytes → Type 0
IsEntry (key, values) =
    (key ≢ [])
    × Lacks key_values_separator key
    × (values ≢ [])
    × Distinct values
    × All IsValue values

abbrev pub NoKey : Bytes → Dict → Type 0
NoKey key = All (λ e. str_eq e.0 key ≡ false)

-- No key stands twice.
abbrev pub DistinctKeys : Dict → Type 0
DistinctKeys [] = Unit
DistinctKeys (e ∷ d) = All (λ f. str_eq e.0 f.0 ≡ false) d × DistinctKeys d

append_values-fresh :
    (key : Bytes) (values : List Bytes) (d : Dict)
    → NoKey key d
    → append_values key values d ≡ d ++ (key, values) ∷ []
unfolding append_values
append_values-fresh key values [] h = refl
append_values-fresh key values ((j, ws) ∷ d) (h, hs) = rw (h, append_values-fresh key values d hs)

escape-ne-nil : (sep : ℕ) (v : Bytes) → v ≢ [] → escape sep v ≢ []
escape-ne-nil sep [] h = absurd (h refl)
escape-ne-nil sep (c ∷ v) h = rw replace_all-cons (ground arith)

ends_with-cons : (c a : ℕ) (s : Bytes) → s ≢ [] → ends_with c (a ∷ s) ≡ ends_with c s
unfolding ends_with
ends_with-cons c a [] h = absurd (h refl)
ends_with-cons c a (b ∷ s) h = refl

-- Escaping a separator leaves the last byte as it was.
ends_with-escape :
    (sep : ℕ) (v : Bytes)
    → sep ≢ backslash
    → ends_with backslash (escape sep v) ≡ ends_with backslash v
ends_with-escape sep [] ne = rw replace_all-nil
ends_with-escape sep (c ∷ []) ne =
    rw (replace_all-cons, replace_all-nil) (unfold ends_with in ground arith)
ends_with-escape sep (c ∷ d ∷ v) ne = rw replace_all-cons (
    ground (
      arith,
      ends_with-cons backslash c (d ∷ v),
      ends_with-cons backslash c (escape sep (d ∷ v)),
      ends_with-cons backslash sep (escape sep (d ∷ v)),
      ends_with-cons backslash backslash (sep ∷ escape sep (d ∷ v)),
      ends_with-escape sep (d ∷ v) ne,
      escape-ne-nil sep (d ∷ v),
    ))

ends_with-append_ne : (c : ℕ) (s t : Bytes) → t ≢ [] → ends_with c (s ++ t) ≡ ends_with c t
ends_with-append_ne c s [] h = absurd (h refl)
ends_with-append_ne c s (d ∷ t) h = ends_with-append c d s t

append-ne-nil : (s t : Bytes) → t ≢ [] → s ++ t ≢ []
append-ne-nil [] t h = h
append-ne-nil (c ∷ s) t h = cc

-- The joined values are not empty and do not end in a backslash.
IsValue-join :
    (values : List Bytes)
    → values ≢ []
    → All IsValue values
    → IsValue (join (multi_values_separator ∷ []) (map (escape multi_values_separator) values))
unfolding join
IsValue-join [] ne h = absurd (ne refl)
IsValue-join (v ∷ []) ne (h, hs) = (
  escape-ne-nil multi_values_separator v h.0,
  ends_with-escape multi_values_separator v (omega arith) ∙ h.1,
)
IsValue-join (v ∷ w ∷ vs) ne (h, hs) =
    let tail = join (multi_values_separator ∷ []) (map (escape multi_values_separator) (w ∷ vs)) in
    let (ne', e) = IsValue-join (w ∷ vs) (cc) hs in
    (
      append-ne-nil (escape multi_values_separator v) _ (cc),
      ends_with-append_ne backslash (escape multi_values_separator v)
            (multi_values_separator ∷ tail) (cc)
          ∙ ends_with-cons backslash multi_values_separator tail ne'
          ∙ e,
    )

-- What a well-formed dictionary's properties look like as text.
IsValue-format_entry : (e : Bytes × List Bytes) → IsEntry e → IsValue (format_entry e)
IsValue-format_entry (key, values) (hk, lacks, ne, distinct, hs) =
    let v = join (multi_values_separator ∷ []) (map (escape multi_values_separator) values) in
    let (hv, e) = IsValue-join values ne hs in
    (
      append-ne-nil key (key_values_separator ∷ v) (cc),
      ends_with-append_ne backslash key (key_values_separator ∷ v) (cc)
          ∙ ends_with-cons backslash key_values_separator v hv
          ∙ e,
    )

All-format_entry :
    (d : Dict) → All IsEntry d → All (λ v. ends_with backslash v ≡ false) (map format_entry d)
All-format_entry [] h = tt
All-format_entry (e ∷ d) (h, hs) = ((IsValue-format_entry e h).1, All-format_entry d hs)

IsValue-ends :
    (values : List Bytes) → All IsValue values → All (λ v. ends_with backslash v ≡ false) values
IsValue-ends [] h = tt
IsValue-ends (v ∷ vs) (h, hs) = (h.1, IsValue-ends vs hs)

-- One round of the loop on a property that is accepted.
add_parsed-step :
    (prop key value : Bytes) (acc : Dict) (props : List Bytes)
    → prop ≢ []
    → split_prop_to_key_and_value prop ≡ some (key, value)
    → add_parsed acc (prop ∷ props)
      ≡ add_parsed
          (append_values key
            (split_while_ignoring_backslash_prefix_separators value multi_values_separator)
            acc)
          props
unfolding add_parsed
add_parsed-step [] key value acc props ne e = absurd (ne refl)
add_parsed-step (c ∷ prop) key value acc props ne e = unfold str_eq in rw (e, add_parsed)

-- One round on the text of a property whose key is new.
add_parsed-entry :
    (key : Bytes) (values : List Bytes) (acc : Dict) (props : List Bytes)
    → IsEntry (key, values)
    → NoKey key acc
    → add_parsed acc (format_entry (key, values) ∷ props)
      ≡ add_parsed (acc ++ (key, values) ∷ []) props
add_parsed-entry key values acc props (hk, lacks, ne, distinct, hs) fresh =
    let text = join (multi_values_separator ∷ []) (map (escape multi_values_separator) values) in
    add_parsed-step (format_entry (key, values)) key text acc props
      (append-ne-nil key (key_values_separator ∷ text) (cc))
      (split_prop_complete key text hk (IsValue-join values ne hs).0 lacks)
    ∙ rw
        (split_while_ignoring-join multi_values_separator values (omega arith) ne
          (IsValue-ends values hs))
        (rw (append_values-fresh key values acc fresh))

-- The keys to come are new to what is collected.
abbrev Fresh : Dict → Dict → Type 0
Fresh acc d = All (λ e. NoKey e.0 acc) d

Fresh-snoc :
    (acc : Dict) (e : Bytes × List Bytes) (d : Dict)
    → Fresh acc d
    → All (λ f. str_eq e.0 f.0 ≡ false) d
    → Fresh (acc ++ e ∷ []) d
Fresh-snoc acc e [] h k = tt
Fresh-snoc acc e (f ∷ d) (h, hs) (k, ks) =
    (All-append (λ g. str_eq g.0 f.0 ≡ false) acc (e ∷ []) h (k, tt), Fresh-snoc acc e d hs ks)

add_parsed-format :
    (acc d : Dict)
    → All IsEntry d
    → DistinctKeys d
    → Fresh acc d
    → add_parsed acc (map format_entry d) ≡ (remove_duplicate_values (acc ++ d), none)
add_parsed-format acc [] h k f = unfold add_parsed in rw append-nil
add_parsed-format acc ((key, values) ∷ d) (h, hs) (k, ks) (f, fs) =
    add_parsed-entry key values acc (map format_entry d) h f
    ∙ add_parsed-format (acc ++ (key, values) ∷ []) d hs ks (Fresh-snoc acc (key, values) d fs k)
    ∙ rw append_assoc

Distinct-entries : (d : Dict) → All IsEntry d → All (λ e. Distinct (e.1)) d
Distinct-entries [] h = tt
Distinct-entries (e ∷ d) (h, hs) = (h.3, Distinct-entries d hs)

Fresh-nil : (d : Dict) → Fresh [] d
Fresh-nil [] = tt
Fresh-nil (e ∷ d) = (tt, Fresh-nil d)

map-ne-nil : (d : Dict) → d ≢ [] → map format_entry d ≢ []
map-ne-nil [] h = absurd (h refl)
map-ne-nil (e ∷ d) h = cc

-- Parsing the text of a dictionary, its commas and semicolons escaped, gives the dictionary back and
-- no error. Its keys are distinct, not empty and without "="; each has values, which are distinct,
-- not empty and do not end in a backslash.
pub parse_properties-format :
    (d : Dict)
    → d ≢ []
    → All IsEntry d
    → DistinctKeys d
    → parse_properties (format d) ≡ (record { properties = d }, none)
unfolding parse_properties parse_and_add_properties
parse_properties-format d ne h k = rw (
  split_while_ignoring-join props_separator (map format_entry d) (omega arith) (map-ne-nil d ne)
      (All-format_entry d h),
  add_parsed-format [] d h k (Fresh-nil d),
  remove_duplicate_values-id d (Distinct-entries d h),
)
