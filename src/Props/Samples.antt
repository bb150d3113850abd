-- ===== src/Props/Samples.antt =====
-- Runs of the properties' functions, and the theorems at inputs that meet their hypotheses.
use jfrog_client_go.Base.{
  ◌≡◌, refl, true, false, ◌↔◌, ◌⊎◌, none, some, List, [], ◌∷◌, map, Elem, Distinct, arith,
}
use jfrog_client_go.Base.Text.{Bytes, codes, str_eq, ends_with, join}
use jfrog_client_go.Props.{
  Dict, Properties, props_separator, multi_values_separator,
  split_while_ignoring_backslash_prefix_separators, split_prop_to_key_and_value, parse_properties,
  parse_and_add_properties, add_parsed, invalid_property, remove_duplicates, add_property,
  merge_properties, to_encoded_string,
}
use jfrog_client_go.Props.Unescape.{escape, split_while_ignoring-join}
use jfrog_client_go.Props.Dedup.{remove_duplicates_lem}
use jfrog_client_go.Props.Parse.{IsKeyAndValue, split_prop_to_key_and_value_iff}
use jfrog_client_go.Props.RoundTrip.{format, parse_properties-format}
use jfrog_client_go.Props.Merge.{Holds, SomeHolds, IsMap, ValuesDistinct, merge_properties_lem}
use jfrog_client_go.Props.Add.{add_property_lem}
use jfrog_client_go.Props.Keys.{IsSortedFrom}
use jfrog_client_go.Props.Encode.{encoded_entry, to_encoded_string-join}

abbrev values : List Bytes
values = codes "a,b" ∷ codes "c" ∷ []

abbrev dict : Dict
dict = (codes "k", values) ∷ (codes "os", codes "x;y" ∷ []) ∷ []

abbrev props : Properties
props = record { properties = dict }

escaped_comma :
    split_while_ignoring_backslash_prefix_separators (codes "a\\,b,c") multi_values_separator
    ≡ values
unfolding split_while_ignoring_backslash_prefix_separators
escaped_comma = refl

encoded : to_encoded_string props true ≡ codes "k=a%5C%2Cb%2Cc;os=x%3By"
unfolding to_encoded_string
encoded = refl

encoded_apart : to_encoded_string props false ≡ codes "k=a%2Cb;k=c;os=x%3By"
unfolding to_encoded_string
encoded_apart = refl

no_value :
    (parse_properties (codes "k=")).1
    ≡ some (codes "Invalid property format: k= - format should be key=val1,val2,...")
unfolding parse_properties parse_and_add_properties add_parsed
    split_while_ignoring_backslash_prefix_separators split_prop_to_key_and_value str_eq
    invalid_property
no_value = refl

split_while_ignoring-join_example :
    split_while_ignoring_backslash_prefix_separators
      (join (multi_values_separator ∷ []) (map (escape multi_values_separator) values))
      multi_values_separator
    ≡ values
unfolding ends_with
split_while_ignoring-join_example =
    split_while_ignoring-join multi_values_separator values (omega arith) (cc) (refl, (refl, tt))

remove_duplicates_lem_example :
    Distinct (remove_duplicates (codes "b" ∷ codes "a" ∷ codes "b" ∷ []))
    × ((a : Bytes)
        → Elem a (remove_duplicates (codes "b" ∷ codes "a" ∷ codes "b" ∷ []))
          ↔ Elem a (codes "b" ∷ codes "a" ∷ codes "b" ∷ []))
    × (Distinct (codes "b" ∷ codes "a" ∷ codes "b" ∷ [])
        → remove_duplicates (codes "b" ∷ codes "a" ∷ codes "b" ∷ [])
          ≡ codes "b" ∷ codes "a" ∷ codes "b" ∷ [])
remove_duplicates_lem_example = remove_duplicates_lem (codes "b" ∷ codes "a" ∷ codes "b" ∷ [])

split_prop_to_key_and_value_iff_example :
    (split_prop_to_key_and_value (codes "k=a=b") ≡ some (codes "k", codes "a=b"))
    ↔ IsKeyAndValue (codes "k=a=b") (codes "k") (codes "a=b")
split_prop_to_key_and_value_iff_example =
    split_prop_to_key_and_value_iff (codes "k=a=b") (codes "k") (codes "a=b")

parse_properties-format_example :
    parse_properties (format dict) ≡ (record { properties = dict }, none)
unfolding ends_with str_eq
parse_properties-format_example =
    parse_properties-format dict (cc) (ground arith) ((refl, tt), (tt, tt))

merge_properties_lem_example :
    ((k v : Bytes)
      → Holds k v (merge_properties (some props ∷ none ∷ some props ∷ [])).properties
        ↔ SomeHolds k v (some props ∷ none ∷ some props ∷ []))
    × IsMap (merge_properties (some props ∷ none ∷ some props ∷ [])).properties
    × ValuesDistinct (merge_properties (some props ∷ none ∷ some props ∷ [])).properties
merge_properties_lem_example = merge_properties_lem (some props ∷ none ∷ some props ∷ [])

add_property_lem_example :
    ((k v : Bytes)
      → Holds k v (add_property props (codes "k") (codes "c")).properties
        ↔ (Holds k v dict ⊎ ((k ≡ codes "k") × (v ≡ codes "c"))))
    × IsMap (add_property props (codes "k") (codes "c")).properties
    × ValuesDistinct (add_property props (codes "k") (codes "c")).properties
unfolding str_eq
add_property_lem_example =
    add_property_lem props (codes "k") (codes "c") ((refl, tt), (tt, tt)) (ground arith)

to_encoded_string-join_example :
    (keys : List Bytes) × IsSortedFrom (map (λ e. e.0) dict) keys
    × (to_encoded_string props true
        ≡ join (props_separator ∷ []) (map (encoded_entry true dict) keys))
to_encoded_string-join_example = to_encoded_string-join props true
