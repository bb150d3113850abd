-- ===== src/Props/Parse.antt =====
-- splitPropToKeyAndValue accepts exactly the texts key=value.
use jfrog_client_go.Base.{
  ℕ, zero, suc, ◌+◌, ◌≡◌, ◌≢◌, refl, some, [], ◌∷◌, ◌++◌, length, take, drop, Option-cases, ◌↔◌,
  inl, inr, arith, length-append,
}
use jfrog_client_go.Base.Text.{Bytes, index_byte, Lacks}
use jfrog_client_go.Base.Text.Index.{index_byte-append, take-length, drop-length}
use jfrog_client_go.Props.{key_values_separator, split_prop_to_key_and_value}

-- A property's text is a key without "=", an "=" and a value, and neither is empty.
abbrev pub IsKeyAndValue : Bytes → Bytes → Bytes → Type 0
IsKeyAndValue str key value =
    (str ≡ key ++ key_values_separator ∷ value)
    × (key ≢ [])
    × (value ≢ [])
    × Lacks key_values_separator key

-- Where the byte stands at `index`, the text is what precedes it, the byte, and what follows.
index_byte-some :
    (c : ℕ) (s : Bytes) (i : ℕ)
    → index_byte c s ≡ some i
    → (s ≡ take i s ++ c ∷ drop (suc i) s)
      × Lacks c (take i s)
      × (i + 1 + length (drop (suc i) s) ≡ length s)
      × (length (take i s) ≡ i)
unfolding index_byte
index_byte-some c [] i h = cc
index_byte-some c (d ∷ s) zero h = ground arith
index_byte-some c (d ∷ s) (suc i) h = ground (arith, index_byte-some c s i)

split_prop_sound :
    (str key value : Bytes)
    → split_prop_to_key_and_value str ≡ some (key, value)
    → IsKeyAndValue str key value
unfolding split_prop_to_key_and_value
split_prop_sound str key value h = elim (Option-cases (index_byte key_values_separator str)) [
  | inl e ↦ ground arith
  | inr (i, e) ↦ ground (arith, index_byte-some key_values_separator str i e)
]

pub split_prop_complete :
    (key value : Bytes)
    → key ≢ []
    → value ≢ []
    → Lacks key_values_separator key
    → split_prop_to_key_and_value (key ++ key_values_separator ∷ value) ≡ some (key, value)
unfolding split_prop_to_key_and_value
split_prop_complete [] value hk hv lacks = absurd (hk refl)
split_prop_complete (c ∷ key) [] hk hv lacks = absurd (hv refl)
split_prop_complete (c ∷ key) (d ∷ value) hk hv lacks =
    rw
      (
        index_byte-append key_values_separator (c ∷ key) (d ∷ value) lacks,
        split_prop_to_key_and_value,
      )
      (ground (
        arith,
        length-append key (key_values_separator ∷ d ∷ value),
        take-length key (key_values_separator ∷ d ∷ value),
        drop-length key key_values_separator (d ∷ value),
      ))

-- An accepted property is its key, an "=" and its value; neither is empty, and the key has no "=".
-- Every property of that form is accepted.
pub split_prop_to_key_and_value_iff :
    (str key value : Bytes)
    → (split_prop_to_key_and_value str ≡ some (key, value)) ↔ IsKeyAndValue str key value
split_prop_to_key_and_value_iff str key value = (
  split_prop_sound str key value,
  λ (e, hk, hv, lacks). rw e (split_prop_complete key value hk hv lacks),
)
