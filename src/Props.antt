-- ===== src/Props.antt =====
-- artifactory/services/utils/properties.go: properties of artifacts, parsed from key=val1,val2;…
-- A Go map is an association list whose order stands for the order of one iteration over it.
pub mod Unescape
pub mod Dedup
pub mod Parse
pub mod RoundTrip
pub mod Merge
pub mod Add
pub mod Keys
pub mod Encode
mod Samples
use jfrog_client_go.Base.{
  ℕ, zero, suc, ◌+◌, ◌-◌, ◌≡◌, refl, Bool, true, false, ◌||◌, ◌&&◌, not, Option, none, some, List,
  [], ◌∷◌, ◌++◌, map, ◌==◌, if◌then◌else◌, ltb, leb, length, take, drop, any,
}
use jfrog_client_go.Base.Text.{
  Bytes, codes, str_eq, ends_with, index_byte, join, trim_prefix, trim_suffix, contains_byte,
}
use jfrog_client_go.Base.Text.Split.{split_byte}
use jfrog_client_go.Base.Text.Replace.{replace_all}
use jfrog_client_go.Base.Text.Order.{str_lt}
use Prim.Native.Nat.{◌/◌, ◌%◌}

abbrev pub props_separator : ℕ
props_separator = b';'

abbrev pub key_values_separator : ℕ
key_values_separator = b'='

abbrev pub multi_values_separator : ℕ
multi_values_separator = b','

abbrev pub backslash : ℕ
backslash = 92

-- map[string][]string
abbrev pub Dict : Type 0
Dict = List (Bytes × List Bytes)

pub record Properties : Type 0 where
  pub properties : Dict

pub record Property : Type 0 where
  pub key : Bytes
  pub value : Bytes

-- properties[key], the empty slice where the key is missing
unfoldable pub get : Bytes → Dict → List Bytes
get k [] = []
get k ((j, vs) ∷ d) = if str_eq j k then vs else get k d

unfoldable pub has_key : Bytes → Dict → Bool
has_key k [] = false
has_key k ((j, vs) ∷ d) = str_eq j k || has_key k d

-- properties[key] = append(properties[key], vs...)
unfoldable pub append_values : Bytes → List Bytes → Dict → Dict
append_values k vs [] = (k, vs) ∷ []
append_values k vs ((j, ws) ∷ d) =
    if str_eq j k then (j, ws ++ vs) ∷ d else (j, ws) ∷ append_values k vs d

pub new_properties : Properties
new_properties = record { properties = [] }

-- val[:len(val)-1]
unfoldable pub drop_last : Bytes → Bytes
drop_last [] = []
drop_last (c ∷ []) = []
drop_last (c ∷ d ∷ s) = c ∷ drop_last (d ∷ s)

-- The loop over `values`: `v` is values[i], which may have grown by what stood before it.
unfoldable pub merge_escaped : ℕ → Bytes → List Bytes → List Bytes
unfolding ends_with drop_last
merge_escaped sep v [] = v ∷ []
merge_escaped sep v (w ∷ ws) = elim (ends_with backslash v) [
  | true ↦ merge_escaped sep (drop_last v ++ sep ∷ w) ws
  | false ↦ v ∷ merge_escaped sep w ws
]

abbrev pub merge_all : ℕ → List Bytes → List Bytes
merge_all sep [] = []
merge_all sep (v ∷ vs) = merge_escaped sep v vs

unfoldable pub split_while_ignoring_backslash_prefix_separators : Bytes → ℕ → List Bytes
unfolding merge_escaped split_byte
split_while_ignoring_backslash_prefix_separators str sep = merge_all sep (split_byte sep str)

-- The error's text for a property that is not key=val1,val2,...
pub invalid_property : Bytes → Bytes
invalid_property str =
    codes "Invalid property format: " ++ (str ++ codes " - format should be key=val1,val2,...")

-- `none` is the error. The index is at least 1, and a byte stands behind it.
unfoldable pub split_prop_to_key_and_value : Bytes → Option (Bytes × Bytes)
unfolding index_byte
split_prop_to_key_and_value str = elim (index_byte key_values_separator str) [
  | none ↦ none
  | some index ↦
      if ltb index 1 || leb (length str) (suc index)
      then none
      else some (take index str, drop (suc index) str)
]

unfoldable pub remove_seen : List Bytes → List Bytes → List Bytes
remove_seen keys [] = []
remove_seen keys (item ∷ items) = elim (any keys (str_eq item)) [
  | true ↦ remove_seen keys items
  | false ↦ item ∷ remove_seen (item ∷ keys) items
]

-- `keys` starts empty.
unfoldable pub remove_duplicates : List Bytes → List Bytes
unfolding remove_seen
remove_duplicates items = remove_seen [] items

unfoldable pub remove_duplicate_values : Dict → Dict
remove_duplicate_values [] = []
remove_duplicate_values ((k, vs) ∷ d) = (k, remove_duplicates vs) ∷ remove_duplicate_values d

-- The loop of ParseAndAddProperties; after an error the entries before it stay, with no clean-up.
unfoldable pub add_parsed : Dict → List Bytes → Dict × Option Bytes
add_parsed d [] = (remove_duplicate_values d, none)
add_parsed d (prop ∷ props) = elim (str_eq prop []) [
  | true ↦ add_parsed d props
  | false ↦ elim (split_prop_to_key_and_value prop) [
    | none ↦ (d, some (invalid_property prop))
    | some (key, value) ↦
        add_parsed
          (append_values key
            (split_while_ignoring_backslash_prefix_separators value multi_values_separator) d)
          props
  ]
]

unfoldable pub parse_and_add_properties : Properties → Bytes → Properties × Option Bytes
parse_and_add_properties props prop_str =
    let (d, e) =
      add_parsed props.properties
        (split_while_ignoring_backslash_prefix_separators prop_str props_separator) in
    (record { properties = d }, e)

unfoldable pub parse_properties : Bytes → Properties × Option Bytes
unfolding new_properties
parse_properties prop_str = parse_and_add_properties new_properties prop_str

unfoldable pub add_property : Properties → Bytes → Bytes → Properties
add_property props key value =
    if has_key key props.properties && any (get key props.properties) (str_eq value)
    then props
    else record { properties = append_values key (value ∷ []) props.properties }

-- One map's entries added to the result, in the order of the iteration.
unfoldable pub merge_entries : Dict → Dict → Dict
merge_entries merged [] = merged
merge_entries merged ((key, values) ∷ d) = merge_entries (append_values key values merged) d

-- `none` is a nil pointer.
unfoldable pub merge_each : Dict → List (Option Properties) → Dict
merge_each merged [] = merged
merge_each merged (none ∷ ps) = merge_each merged ps
merge_each merged (some p ∷ ps) = merge_each (merge_entries merged p.properties) ps

unfoldable pub merge_properties : List (Option Properties) → Properties
merge_properties ps = record { properties = remove_duplicate_values (merge_each [] ps) }

unfoldable pub keys_len : Properties → ℕ
keys_len props = length props.properties

-- sort.Strings
unfoldable pub insert_sorted : Bytes → List Bytes → List Bytes
unfolding str_lt
insert_sorted k [] = k ∷ []
insert_sorted k (j ∷ js) = if str_lt j k then j ∷ insert_sorted k js else k ∷ j ∷ js

unfoldable pub sort_strings : List Bytes → List Bytes
unfolding insert_sorted
sort_strings [] = []
sort_strings (k ∷ ks) = insert_sorted k (sort_strings ks)

abbrev entry_key : Bytes × List Bytes → Bytes
entry_key (k, vs) = k

unfoldable pub get_sorted_keys : Properties → List Bytes
unfolding sort_strings
get_sorted_keys props = sort_strings (map entry_key props.properties)

abbrev hex_digit : ℕ → ℕ
hex_digit n = if ltb n 10 then b'0' + n else b'A' + n - 10

-- url.QueryEscape of one byte
query_escape_byte : ℕ → Bytes
query_escape_byte c =
    if leb b'a' c && leb c b'z'
      || leb b'A' c && leb c b'Z'
      || leb b'0' c && leb c b'9'
      || c == b'-'
      || c == b'_'
      || c == b'.'
      || c == b'~'
    then c ∷ []
    else if c == b' '
    then b'+' ∷ []
    else b'%' ∷ hex_digit (c / 16) ∷ hex_digit (c % 16) ∷ []

-- url.QueryEscape
unfoldable pub query_escape : Bytes → Bytes
unfolding query_escape_byte
query_escape [] = []
query_escape (c ∷ s) = query_escape_byte c ++ query_escape s

-- The loop over one key's values.
unfoldable pub encode_values : Bool → Bytes → Bytes → List Bytes → Bytes
unfolding query_escape replace_all
encode_values concat key joint [] = joint
encode_values concat key joint (value ∷ values) =
    encode_values concat key
      (if concat
        then joint
          ++ (query_escape (
                replace_all (multi_values_separator ∷ []) (backslash ∷ multi_values_separator ∷ [])
                  value)
              ++ query_escape (multi_values_separator ∷ []))
        else joint
          ++ (query_escape key
              ++ (key_values_separator ∷ query_escape value)
              ++ (props_separator ∷ [])))
      values

-- jointProp, its last comma or semicolon trimmed
unfoldable pub joint_prop : Bool → Bytes → List Bytes → Bytes
unfolding encode_values trim_suffix
joint_prop concat key values =
    if concat
    then trim_suffix (query_escape (multi_values_separator ∷ []))
        (encode_values concat key (query_escape key ++ key_values_separator ∷ []) values)
    else trim_suffix (props_separator ∷ []) (encode_values concat key [] values)

unfoldable pub encode_keys : Bool → Dict → Bytes → List Bytes → Bytes
unfolding joint_prop
encode_keys concat d encoded [] = encoded
encode_keys concat d encoded (key ∷ keys) =
    encode_keys concat d (encoded ++ props_separator ∷ joint_prop concat key (get key d)) keys

unfoldable pub to_encoded_string : Properties → Bool → Bytes
unfolding encode_keys trim_prefix get_sorted_keys get
to_encoded_string props concat =
    trim_prefix (props_separator ∷ [])
      (encode_keys concat props.properties [] (get_sorted_keys props))
