-- ===== src/Props/Encode.antt =====
-- ToEncodedString: the keys in order, each with its values.
use jfrog_client_go.Base.{
  ℕ, ◌≡◌, ◌≢◌, refl, sym, ap, ◌∙◌, Bool, true, false, List, [], ◌∷◌, ◌++◌, map, append_assoc,
  append-nil, length, length-append, arith, Bool-cases, inl, inr,
}
use jfrog_client_go.Base.Text.{
  Bytes, str_eq, str_eq_iff, str_eq_refl, ends_with, ends_with-append, join, trim_prefix,
  trim_suffix,
}
use jfrog_client_go.Base.Text.Replace.{replace_all}
use jfrog_client_go.Props.Keys.{IsSortedFrom, sort_strings_lem}
use jfrog_client_go.Props.{
  backslash, props_separator, key_values_separator, multi_values_separator, Dict, Properties, get,
  get_sorted_keys, query_escape, encode_values, joint_prop, encode_keys, to_encoded_string,
}

-- key=value, or the value alone behind the common key
abbrev pub encoded_value : Bool → Bytes → Bytes → Bytes
encoded_value true key value =
    query_escape
      (replace_all (multi_values_separator ∷ []) (backslash ∷ multi_values_separator ∷ []) value)
encoded_value false key value = query_escape key ++ key_values_separator ∷ query_escape value

abbrev pub value_separator : Bool → Bytes
value_separator true = query_escape (multi_values_separator ∷ [])
value_separator false = props_separator ∷ []

abbrev pub common_key : Bool → Bytes → Bytes
common_key true key = query_escape key ++ key_values_separator ∷ []
common_key false key = []

-- One key with its values: key=v1%2Cv2, or key=v1;key=v2.
abbrev pub encoded_entry : Bool → Dict → Bytes → Bytes
encoded_entry concat d key =
    common_key concat key
    ++ join (value_separator concat) (map (encoded_value concat key) (get key d))

trim_suffix-append : (p s : Bytes) → p ≢ [] → trim_suffix p (s ++ p) ≡ s
unfolding trim_suffix
trim_suffix-append [] [] h = absurd (h refl)
trim_suffix-append (c ∷ p) [] h = rw (str_eq_refl (c ∷ p))
trim_suffix-append p (c ∷ s) h = elim (Bool-cases (str_eq p (c ∷ (s ++ p)))) [
  | inl e ↦ absurd (omega (arith, ap length ((str_eq_iff p (c ∷ (s ++ p))).0 e), length-append s p))
  | inr e ↦ rw e (ap (λ r. c ∷ r) (trim_suffix-append p s h))
]

-- each value with its separator behind
abbrev terminated : Bool → Bytes → List Bytes → Bytes
terminated concat key [] = []
terminated concat key (v ∷ vs) =
    encoded_value concat key v ++ (value_separator concat ++ terminated concat key vs)

encode_values-terminated :
    (concat : Bool) (key : Bytes) (vs : List Bytes) (joint : Bytes)
    → encode_values concat key joint vs ≡ joint ++ terminated concat key vs
unfolding encode_values
encode_values-terminated concat key [] joint = sym (append-nil joint)
encode_values-terminated true key (v ∷ vs) joint =
    rw (encode_values-terminated true key vs) (simp append_assoc)
encode_values-terminated false key (v ∷ vs) joint =
    rw (encode_values-terminated false key vs) (simp append_assoc)

terminated-join :
    (concat : Bool) (key v : Bytes) (vs : List Bytes)
    → terminated concat key (v ∷ vs)
      ≡ join (value_separator concat) (map (encoded_value concat key) (v ∷ vs))
        ++ value_separator concat
unfolding join
terminated-join concat key v [] = rw append-nil
terminated-join concat key v (w ∷ vs) = rw (terminated-join concat key w vs) (simp append_assoc)

value_separator-ne-nil : (concat : Bool) → value_separator concat ≢ []
unfolding query_escape
value_separator-ne-nil true = cc
value_separator-ne-nil false = cc

trim_suffix-other :
    (c : ℕ) (p s : Bytes) → ends_with c p ≡ true → ends_with c s ≡ false → trim_suffix p s ≡ s
unfolding trim_suffix ends_with
trim_suffix-other c p [] h k = refl
trim_suffix-other c p (a ∷ []) h k = ground (arith, str_eq_iff p (a ∷ []))
trim_suffix-other c p (a ∷ b ∷ s) h k =
    ground (arith, str_eq_iff p (a ∷ b ∷ s), trim_suffix-other c p (b ∷ s))

-- Nothing is trimmed from a key with no value.
trim-common_key :
    (concat : Bool) (key : Bytes)
    → trim_suffix (value_separator concat) (common_key concat key) ≡ common_key concat key
unfolding trim_suffix
trim-common_key true key =
    trim_suffix-other b'C' (value_separator true) (common_key true key)
      (unfold ends_with query_escape in refl)
      (ends_with-append b'C' key_values_separator (query_escape key) [] ∙ unfold ends_with in refl)
trim-common_key false key = refl

-- The last separator is trimmed.
trim-terminated :
    (concat : Bool) (key : Bytes) (vs : List Bytes)
    → trim_suffix (value_separator concat) (common_key concat key ++ terminated concat key vs)
      ≡ common_key concat key ++ join (value_separator concat) (map (encoded_value concat key) vs)
trim-terminated concat key [] = unfold join in rw append-nil (trim-common_key concat key)
trim-terminated concat key (v ∷ vs) =
    rw (terminated-join concat key v vs, ← append_assoc)
      (trim_suffix-append (value_separator concat) _ (value_separator-ne-nil concat))

joint_prop-encoded_entry :
    (concat : Bool) (d : Dict) (key : Bytes)
    → joint_prop concat key (get key d) ≡ encoded_entry concat d key
unfolding joint_prop
joint_prop-encoded_entry true d key =
    rw (encode_values-terminated true key (get key d)) (trim-terminated true key (get key d))
joint_prop-encoded_entry false d key =
    rw (encode_values-terminated false key (get key d)) (trim-terminated false key (get key d))

-- each entry with a separator in front
abbrev preceded : Bool → Dict → List Bytes → Bytes
preceded concat d [] = []
preceded concat d (k ∷ ks) = props_separator ∷ (encoded_entry concat d k ++ preceded concat d ks)

encode_keys-preceded :
    (concat : Bool) (d : Dict) (keys : List Bytes) (encoded : Bytes)
    → encode_keys concat d encoded keys ≡ encoded ++ preceded concat d keys
unfolding encode_keys
encode_keys-preceded concat d [] encoded = sym (append-nil encoded)
encode_keys-preceded concat d (k ∷ ks) encoded =
    rw (encode_keys-preceded concat d ks, joint_prop-encoded_entry concat d k) (simp append_assoc)

preceded-join :
    (concat : Bool) (d : Dict) (k : Bytes) (ks : List Bytes)
    → preceded concat d (k ∷ ks)
      ≡ props_separator ∷ join (props_separator ∷ []) (map (encoded_entry concat d) (k ∷ ks))
unfolding join
preceded-join concat d k [] = rw append-nil
preceded-join concat d k (l ∷ ks) = rw (preceded-join concat d l ks)

trim-preceded :
    (concat : Bool) (d : Dict) (keys : List Bytes)
    → trim_prefix (props_separator ∷ []) (preceded concat d keys)
      ≡ join (props_separator ∷ []) (map (encoded_entry concat d) keys)
unfolding trim_prefix
trim-preceded concat d [] = unfold join in refl
trim-preceded concat d (k ∷ ks) =
    ap (trim_prefix (props_separator ∷ [])) (preceded-join concat d k ks)

get_sorted_keys-IsSortedFrom :
    (props : Properties) → IsSortedFrom (map (λ e. e.0) props.properties) (get_sorted_keys props)
unfolding get_sorted_keys
get_sorted_keys-IsSortedFrom props = sort_strings_lem (map (λ e. e.0) props.properties)

-- The text for a URL is the entries of the keys, in the order of the keys' bytes and joined by
-- semicolons. With `concat` an entry is the key, an equals sign and its values, commas escaped, joined
-- by an encoded comma; without, each value has its own key.
pub to_encoded_string-join :
    (props : Properties) (concat : Bool)
    → (keys : List Bytes) × IsSortedFrom (map (λ e. e.0) props.properties) keys
      × (to_encoded_string props concat
          ≡ join (props_separator ∷ []) (map (encoded_entry concat props.properties) keys))
unfolding to_encoded_string
to_encoded_string-join props concat = (
  get_sorted_keys props,
  get_sorted_keys-IsSortedFrom props,
  rw (encode_keys-preceded concat props.properties (get_sorted_keys props) [])
      (trim-preceded concat props.properties (get_sorted_keys props)),
)
