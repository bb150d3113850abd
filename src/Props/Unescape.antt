-- ===== src/Props/Unescape.antt =====
-- splitWhileIgnoringBackslashPrefixSeparators reads back values whose separators are escaped.
use jfrog_client_go.Base.{
  ℕ, ◌≡◌, ◌≢◌, refl, sym, ap, ◌∙◌, true, false, List, [], ◌∷◌, ◌++◌, map, append_assoc, append-nil,
  All, arith,
}
use native.Mathlib.Decide.{ℕ_discrete}
use jfrog_client_go.Base.Text.{Bytes, ends_with, ends_with-append, join}
use jfrog_client_go.Base.Text.Split.{
  split_byte, on_head, split_byte-ne-nil, split_byte-cons, split_byte-sep,
}
use jfrog_client_go.Base.Text.Replace.{replace_all, replace_all-cons, replace_all-nil}
use jfrog_client_go.Props.{
  backslash, drop_last, merge_escaped, merge_all, split_while_ignoring_backslash_prefix_separators,
}

-- Each separator of the value with a backslash in front, as ToEncodedString writes the comma.
abbrev pub escape : ℕ → Bytes → Bytes
escape sep = replace_all (sep ∷ []) (backslash ∷ sep ∷ [])

-- A text in front of the first part.
abbrev pub on_front : Bytes → List Bytes → List Bytes
on_front acc [] = []
on_front acc (p ∷ ps) = (acc ++ p) ∷ ps

on_front-on_head :
    (acc : Bytes) (c : ℕ) (ps : List Bytes)
    → ps ≢ []
    → on_front acc (on_head c ps) ≡ on_front (acc ++ c ∷ []) ps
on_front-on_head acc c [] h = absurd (h refl)
on_front-on_head acc c (p ∷ ps) h = rw append_assoc

on_front-nil : (ps : List Bytes) → on_front [] ps ≡ ps
on_front-nil [] = refl
on_front-nil (p ∷ ps) = refl

drop_last-append : (acc : Bytes) (c : ℕ) → drop_last (acc ++ c ∷ []) ≡ acc
unfolding drop_last
drop_last-append [] c = refl
drop_last-append (a ∷ []) c = refl
drop_last-append (a ∷ b ∷ acc) c = ap (λ r. a ∷ r) (drop_last-append (b ∷ acc) c)

ends_with-last : (c : ℕ) (acc : Bytes) → ends_with c (acc ++ c ∷ []) ≡ true
ends_with-last c acc = ends_with-append c c acc [] ∙ unfold ends_with in ground arith

merge_all-ends :
    (sep : ℕ) (v w : Bytes) (ws : List Bytes)
    → ends_with backslash v ≡ true
    → merge_all sep (v ∷ w ∷ ws) ≡ merge_all sep ((drop_last v ++ sep ∷ w) ∷ ws)
unfolding merge_escaped
merge_all-ends sep v w ws h = rw (h, merge_escaped)

merge_all-keeps :
    (sep : ℕ) (v : Bytes) (ws : List Bytes)
    → ws ≢ []
    → ends_with backslash v ≡ false
    → merge_all sep (v ∷ ws) ≡ v ∷ merge_all sep ws
unfolding merge_escaped
merge_all-keeps sep v [] ne h = absurd (ne refl)
merge_all-keeps sep v (w ∷ ws) ne h = rw (h, merge_escaped)

-- An escaped separator joins what stands before it to what follows.
merge_all-escaped :
    (sep : ℕ) (acc : Bytes) (ps : List Bytes)
    → ps ≢ []
    → merge_all sep (on_front acc ((backslash ∷ []) ∷ ps))
      ≡ merge_all sep (on_front (acc ++ sep ∷ []) ps)
merge_all-escaped sep acc [] ne = absurd (ne refl)
merge_all-escaped sep acc (p ∷ ps) ne =
    merge_all-ends sep (acc ++ backslash ∷ []) p ps (ends_with-last backslash acc)
    ∙ rw (drop_last-append, append_assoc)

split_byte-escaped_sep :
    (sep : ℕ) (s : Bytes)
    → sep ≢ backslash
    → split_byte sep (backslash ∷ sep ∷ s) ≡ (backslash ∷ []) ∷ split_byte sep s
split_byte-escaped_sep sep s h = split_byte-cons sep backslash _ h ∙ rw split_byte-sep

escape-sep : (sep : ℕ) (s : Bytes) → escape sep (sep ∷ s) ≡ backslash ∷ sep ∷ escape sep s
escape-sep sep s = replace_all-cons sep _ sep s ∙ ground arith

escape-other : (sep c : ℕ) (s : Bytes) → sep ≢ c → escape sep (c ∷ s) ≡ c ∷ escape sep s
escape-other sep c s h = replace_all-cons sep _ c s ∙ ground arith

module _ (sep : ℕ) (ne : sep ≢ backslash) where
  -- `tail` is what follows the escaped value: nothing, or a separator and the other values.
  merge-escape :
      (v acc tail : Bytes)
      → merge_all sep (on_front acc (split_byte sep (escape sep v ++ tail)))
        ≡ merge_all sep (on_front (acc ++ v) (split_byte sep tail))
  merge-escape [] acc tail = rw (replace_all-nil, append-nil)
  merge-escape (c ∷ v) acc tail = elim (ℕ_discrete sep c) [
    | yes e ↦
        rw (← e, escape-sep sep v, split_byte-escaped_sep sep (escape sep v ++ tail) ne)
          (merge_all-escaped sep acc _ (split_byte-ne-nil sep (escape sep v ++ tail))
            ∙ merge-escape v (acc ++ sep ∷ []) tail
            ∙ rw append_assoc)
    | no d ↦
        rw (escape-other sep c v d, split_byte-cons sep c (escape sep v ++ tail) d)
          (rw (on_front-on_head acc c _ (split_byte-ne-nil sep (escape sep v ++ tail)))
            (merge-escape v (acc ++ c ∷ []) tail ∙ rw append_assoc))
  ]

  merge-value :
      (v tail : Bytes)
      → merge_all sep (split_byte sep (escape sep v ++ tail))
        ≡ merge_all sep (on_front v (split_byte sep tail))
  merge-value v tail =
      ap (merge_all sep) (sym (on_front-nil (split_byte sep (escape sep v ++ tail))))
      ∙ merge-escape v [] tail

  merge-last : (v : Bytes) → merge_all sep (split_byte sep (escape sep v)) ≡ v ∷ []
  merge-last v =
      ap (λ s. merge_all sep (split_byte sep s)) (sym (append-nil (escape sep v)))
      ∙ merge-value v []
      ∙ unfold split_byte merge_escaped in rw append-nil

  merge-next :
      (v s : Bytes)
      → ends_with backslash v ≡ false
      → merge_all sep (split_byte sep (escape sep v ++ sep ∷ s))
        ≡ v ∷ merge_all sep (split_byte sep s)
  merge-next v s h =
      merge-value v (sep ∷ s)
      ∙ rw (split_byte-sep, append-nil) (merge_all-keeps sep v _ (split_byte-ne-nil sep s) h)

  merge-join :
      (vs : List Bytes)
      → vs ≢ []
      → All (λ v. ends_with backslash v ≡ false) vs
      → merge_all sep (split_byte sep (join (sep ∷ []) (map (escape sep) vs))) ≡ vs
  unfolding join
  merge-join [] h _ = absurd (h refl)
  merge-join (v ∷ []) h _ = merge-last v
  merge-join (v ∷ w ∷ vs) h (hv, hvs) =
      merge-next v _ hv ∙ ap (λ r. v ∷ r) (merge-join (w ∷ vs) (cc) hvs)

-- Reading a list of values that was written with its separators escaped gives the values back, for
-- a list that is not empty, every separator that is not the backslash, and values that do not end in a
-- backslash.
pub split_while_ignoring-join :
    (sep : ℕ) (vs : List Bytes)
    → sep ≢ backslash
    → vs ≢ []
    → All (λ v. ends_with backslash v ≡ false) vs
    → split_while_ignoring_backslash_prefix_separators (join (sep ∷ []) (map (escape sep) vs)) sep
      ≡ vs
unfolding split_while_ignoring_backslash_prefix_separators
split_while_ignoring-join sep vs ne h hs = merge-join sep ne vs h hs
