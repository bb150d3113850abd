-- ===== src/Sort/Sorted.antt =====
-- SortContentReaderByCalculatedKey: the split into buffers, and the sort as a whole.
use jfrog_client_go.Base.{
  ℕ, ◌≡◌, refl, sym, ap, ◌∙◌, Bool, true, false, Option, none, some, List, [], ◌∷◌, ◌++◌, All, map,
  Bool-cases, Option-cases, inl, inr, length, ◌==◌, All-append, All-left, All-right, append_assoc,
}
use jfrog_client_go.Base.Text.{Bytes, str_eq}
use jfrog_client_go.Merge.Sorted.{concat}
use jfrog_client_go.Sort.{
  SortRecord, save_buffer, split_from, sort_content_reader_by_calculated_key,
}
use jfrog_client_go.Sort.Keyed.{
  find_key, find_key-append, find_key-drop, or_else, AllBehind, IsStrict,
}
use jfrog_client_go.Sort.Pass.{key_of}
use jfrog_client_go.Sort.Merged.{merge_sorted_readers_by_calculated_key-Sorts}
use jfrog_client_go.Sort.Buffer.{DistinctKeys, DistinctKeys-snoc, lookup-keyed, save_buffer-SortsTo}

module _ {A : Type 0} (asc : Bool) (get_key : A → Bytes) where
  abbrev pub record_of : A → SortRecord A
  record_of x = record { key = get_key x; item = x }

  -- The buffers are strictly sorted and hold, for each key, the first record; nothing else is in them.
  abbrev pub Splits : List (SortRecord A) → List (List (SortRecord A)) → Type 1
  Splits records buffers =
      All (IsStrict key_of asc) buffers
      × ((k : Bytes) → find_key key_of k (concat buffers) ≡ find_key key_of k records)
      × ((P : SortRecord A → Type 0) → All P records → All P (concat buffers))

  Splits-cons :
      (buffer records : List (SortRecord A)) (buffers : List (List (SortRecord A)))
      → DistinctKeys buffer
      → Splits records buffers
      → Splits (buffer ++ records) (save_buffer asc buffer ∷ buffers)
  Splits-cons buffer records buffers d (s, found, kept) =
      let (s', found', kept') = save_buffer-SortsTo asc buffer d in
      let saved = save_buffer asc buffer in
      (
        (s', s),
        (λ k.
            find_key-append key_of k saved (concat buffers)
            ∙ ap (λ o. or_else o (find_key key_of k (concat buffers))) (found' k)
            ∙ ap (λ o. or_else (find_key key_of k buffer) o) (found k)
            ∙ sym (find_key-append key_of k buffer records)),
        λ P h.
            All-append P saved (concat buffers) (kept' P (All-left P buffer records h))
              (kept P (All-right P buffer records h)),
      )

  split_from-Splits :
      (size : ℕ) (xs : List A) (buffer : List (SortRecord A))
      → DistinctKeys buffer
      → Splits (buffer ++ map record_of xs) (split_from asc get_key size xs buffer)
  unfolding split_from
  split_from-Splits size [] [] d = (tt, (λ k. refl), λ P h. h)
  split_from-Splits size [] (r ∷ buffer) d =
      Splits-cons (r ∷ buffer) [] [] d (tt, (λ k. refl), λ P h. tt)
  split_from-Splits size (x ∷ xs) buffer d =
      let there = lookup-keyed asc (get_key x) buffer in
      let rest = map record_of xs in
      let buffer' = buffer ++ record_of x ∷ [] in
      elim (Option-cases (find_key key_of (get_key x) buffer)) [
        | inr (r, e) ↦
            let (s, found, kept) = split_from-Splits size xs buffer d in
            rw (there, e, split_from)
              (
                s,
                (λ k. found k ∙ sym (find_key-drop key_of k buffer rest r (record_of x) e)),
                λ P h. kept P (
                    All-append P buffer rest (All-left P buffer (record_of x ∷ rest) h)
                      (All-right P buffer (record_of x ∷ rest) h).1),
              )
        | inl e ↦
            let d' = DistinctKeys-snoc buffer (record_of x) d e in
            let assoc = append_assoc buffer (record_of x ∷ []) rest in
            elim (Bool-cases (length buffer' == size)) [
              | inl full ↦
                  let more = split_from-Splits size xs [] tt in
                  rw (there, e, full, split_from) (rw assoc at (Splits-cons buffer' rest _ d' more))
              | inr room ↦
                  rw (there, e, room, split_from)
                    (rw assoc at (split_from-Splits size xs buffer' d'))
            ]
      ]

  -- The key of each record is the calculated one.
  abbrev Keyed : SortRecord A → Type 0
  Keyed r = r.key ≡ get_key r.item

  All-Keyed : (xs : List A) → All Keyed (map record_of xs)
  All-Keyed [] = tt
  All-Keyed (x ∷ xs) = (refl, All-Keyed xs)

  abbrev items : List (SortRecord A) → List A
  items = map (λ r. r.item)

  AllBehind-items :
      (k : Bytes) (rs : List (SortRecord A))
      → All Keyed rs
      → AllBehind key_of asc k rs
      → AllBehind get_key asc k (items rs)
  AllBehind-items k [] h hs = tt
  AllBehind-items k (r ∷ rs) (e, es) (h, hs) = (rw e at h, AllBehind-items k rs es hs)

  IsStrict-items :
      (rs : List (SortRecord A))
      → All Keyed rs
      → IsStrict key_of asc rs
      → IsStrict get_key asc (items rs)
  IsStrict-items [] h hs = tt
  IsStrict-items (r ∷ rs) (e, es) (h, hs) =
      (AllBehind-items (get_key r.item) rs es (rw e at h), IsStrict-items rs es hs)

  abbrev item_of : Option (SortRecord A) → Option A
  item_of none = none
  item_of (some r) = some r.item

  find_key-items :
      (k : Bytes) (rs : List (SortRecord A))
      → All Keyed rs
      → find_key get_key k (items rs) ≡ item_of (find_key key_of k rs)
  unfolding find_key
  find_key-items k [] h = refl
  find_key-items k (r ∷ rs) (e, es) =
      let same = ap (λ j. str_eq j k) e in
      elim (Bool-cases (str_eq (get_key r.item) k)) [
        | inl h ↦ let h' : str_eq r.key k ≡ true = same ∙ h in rw (h, h') refl
        | inr h ↦ let h' : str_eq r.key k ≡ false = same ∙ h in rw (h, h') (find_key-items k rs es)
      ]

  map-record_of : (xs : List A) → items (map record_of xs) ≡ xs
  map-record_of [] = refl
  map-record_of (x ∷ xs) = ap (λ ys. x ∷ ys) (map-record_of xs)

-- The sort of a reader by a calculated key ends within its fuel, whatever the size of the buffers. What it
-- writes is strictly sorted by the key, so no key stands twice, and for each key it holds the first
-- record of the reader with that key, and no record for a key that the reader does not have.
pub sort_content_reader_by_calculated_key_lem :
    {A : Type 0} (ascending : Bool) (get_key : A → Bytes) (max_buffer_size : ℕ) (records : List A)
    → (written : List A) × (sort_content_reader_by_calculated_key ascending get_key max_buffer_size
          records
        ≡ some written)
      × IsStrict get_key ascending written
      × ((k : Bytes) → find_key get_key k written ≡ find_key get_key k records)
unfolding sort_content_reader_by_calculated_key
sort_content_reader_by_calculated_key_lem asc get_key size records =
    let recs = map (record_of asc get_key) records in
    let (strict, found, kept) = split_from-Splits asc get_key size records [] tt in
    let buffers = split_from asc get_key size records [] in
    let (written, e, (strict', found', kept')) =
      merge_sorted_readers_by_calculated_key-Sorts asc buffers strict in
    let keyed_in = All-Keyed asc get_key records in
    let keyed_out = kept' (Keyed asc get_key) (kept (Keyed asc get_key) keyed_in) in
    (
      items asc get_key written,
      rw e refl,
      IsStrict-items asc get_key written keyed_out strict',
      λ k.
          find_key-items asc get_key k written keyed_out
          ∙ ap (item_of asc get_key) (found' k ∙ found k)
          ∙ sym (find_key-items asc get_key k recs keyed_in)
          ∙ ap (find_key get_key k) (map-record_of asc get_key records),
    )
