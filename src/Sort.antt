-- ===== src/Sort.antt =====
-- utils/io/content/contentreader.go: sorting a reader by a key that is calculated from each record,
-- through sorted buffers of bounded size and their merge, which drops records with a key that was there.
-- A reader is the list of the records that it yields, with the error of GetError beside it.
pub mod Keyed
pub mod Pass
pub mod Merged
pub mod Buffer
pub mod Sorted
mod Samples
use jfrog_client_go.Base.{
  ℕ, zero, suc, ◌+◌, Bool, true, false, Option, none, some, List, [], ◌∷◌, ◌++◌, length, map, ◌==◌,
  if◌then◌else◌,
}
use jfrog_client_go.Base.Text.{Bytes, str_eq}
use jfrog_client_go.Merge.{compare_strings, Slot, Best, refill, clear_at, start, total}

pub record SortRecord (A : Type 0) : Type 0 where
  pub key : Bytes
  pub item : A

-- keysToContentItems[key]
unfoldable pub lookup {ℓ} : {A : Type ℓ} → Bytes → List (Bytes × A) → Option A
unfolding str_eq
lookup k [] = none
lookup k ((j, a) ∷ d) = if str_eq j k then some a else lookup k d

module _ (ascending : Bool) where
  -- sort.Strings, or the sort of sort.Reverse
  unfoldable pub insert_key : Bytes → List Bytes → List Bytes
  unfolding compare_strings
  insert_key k [] = k ∷ []
  insert_key k (j ∷ js) =
      let rest = insert_key k js in if compare_strings k j ascending then j ∷ rest else k ∷ j ∷ js

  unfoldable pub sort_keys : List Bytes → List Bytes
  unfolding insert_key
  sort_keys [] = []
  sort_keys (k ∷ ks) = insert_key k (sort_keys ks)

-- The loop that writes keysToContentItems[v]; every key is in the map.
unfoldable pub gather {ℓ} : {A : Type ℓ} → List (Bytes × A) → List Bytes → List A
unfolding lookup
gather d [] = []
gather d (k ∷ ks) = elim (lookup k d) [ none ↦ gather d ks | some a ↦ a ∷ gather d ks ]

unfoldable pub sort_and_save_buffer_to_file {ℓ} :
    {A : Type ℓ} → List (Bytes × A) → List Bytes → Bool → List A
unfolding gather sort_keys
sort_and_save_buffer_to_file d all_keys increasing_order =
    gather d (sort_keys increasing_order all_keys)

module _ {A : Type 0} (ascending : Bool) where
  abbrev pub keyed : SortRecord A → Bytes × SortRecord A
  keyed r = (r.key, r)

  -- The buffer's records stand in the order of allKeys; the map has the same keys.
  unfoldable pub save_buffer : List (SortRecord A) → List (SortRecord A)
  unfolding sort_and_save_buffer_to_file
  save_buffer buffer =
      sort_and_save_buffer_to_file (map keyed buffer) (map (λ r. r.key) buffer) ascending

  -- The loop over the reader's records.
  unfoldable pub split_from :
      (A → Bytes) → ℕ → List A → List (SortRecord A) → List (List (SortRecord A))
  unfolding save_buffer
  split_from get_key max_buffer_size [] [] = []
  split_from get_key max_buffer_size [] (r ∷ buffer) = save_buffer (r ∷ buffer) ∷ []
  split_from get_key max_buffer_size (x ∷ xs) buffer =
      elim (lookup (get_key x) (map keyed buffer)) [
        | some r ↦ split_from get_key max_buffer_size xs buffer
        | none ↦
            let buffer' = buffer ++ record { key = get_key x; item = x } ∷ [] in
            elim (length buffer' == max_buffer_size) [
              | true ↦ save_buffer buffer' ∷ split_from get_key max_buffer_size xs []
              | false ↦ split_from get_key max_buffer_size xs buffer'
            ]
      ]

  -- The slot after its reader was asked, and the best so far, given by its two fields: an equal key
  -- removes the slot's record.
  unfoldable pub settle :
      ℕ
      → Option (SortRecord A)
      → Option (List (SortRecord A))
      → Option (SortRecord A)
      → ℕ
      → Slot (SortRecord A) × Best (SortRecord A)
  unfolding compare_strings str_eq
  settle i current rest none j =
      (record { current = current; rest = rest }, record { candidate = current; index = i })
  settle i none rest (some c) j =
      (record { current = none; rest = rest }, record { candidate = some c; index = j })
  settle i (some x) rest (some c) j =
      if str_eq c.key x.key
      then (record { current = none; rest = rest }, record { candidate = some c; index = j })
      else if compare_strings c.key x.key ascending
      then (record { current = some x; rest = rest }, record { candidate = some x; index = i })
      else (record { current = some x; rest = rest }, record { candidate = some c; index = j })

  -- The body of the inner loop; `continue` where the reader turns out to be at its end.
  unfoldable pub visit_by_key :
      ℕ
      → Option (SortRecord A)
      → Option (List (SortRecord A))
      → Best (SortRecord A)
      → Slot (SortRecord A) × Best (SortRecord A)
  unfolding settle
  visit_by_key i none (some []) best = (record { current = none; rest = none }, best)
  visit_by_key i none (some (x ∷ xs)) best = settle i (some x) (some xs) best.candidate best.index
  visit_by_key i none none best = settle i none none best.candidate best.index
  visit_by_key i (some x) rest best = settle i (some x) rest best.candidate best.index

  -- The inner loop from index `i` on.
  unfoldable pub scan_by_key :
      ℕ
      → List (Slot (SortRecord A))
      → Best (SortRecord A)
      → List (Slot (SortRecord A)) × Best (SortRecord A)
  unfolding visit_by_key
  scan_by_key i [] best = ([], best)
  scan_by_key i (slot ∷ slots) best =
      let (slot', best') = visit_by_key i slot.current slot.rest best in
      let (slots', last) = scan_by_key (suc i) slots best' in (slot' ∷ slots', last)

  -- The outer loop; the result is what is written. `none` is a loop out of fuel.
  unfoldable pub rounds_by_key : ℕ → List (Slot (SortRecord A)) → Option (List (SortRecord A))
  unfolding scan_by_key clear_at
  rounds_by_key zero slots = none
  rounds_by_key (suc f) slots =
      let (slots', best) = scan_by_key 0 slots (record { candidate = none; index = 0 }) in
      elim best.candidate [
        | none ↦ some []
        | some c ↦ elim (rounds_by_key f (clear_at best.index slots')) [
          | none ↦ none
          | some written ↦ some (c ∷ written)
        ]
      ]

  unfoldable pub merge_sorted_readers_by_calculated_key :
      List (List (SortRecord A)) → Option (List (SortRecord A))
  unfolding rounds_by_key start total
  merge_sorted_readers_by_calculated_key readers = rounds_by_key (total readers + 1) (start readers)

  -- What is written is the Record of each SortRecord.
  unfoldable pub written_records : Option (List (SortRecord A)) → Option (List A)
  written_records none = none
  written_records (some rs) = some (map (λ r. r.item) rs)

  -- The records in the order of their keys. `none` is a loop out of fuel.
  unfoldable pub sort_content_reader_by_calculated_key : (A → Bytes) → ℕ → List A → Option (List A)
  unfolding merge_sorted_readers_by_calculated_key split_from written_records
  sort_content_reader_by_calculated_key get_key max_buffer_size records =
      written_records
        (merge_sorted_readers_by_calculated_key (split_from get_key max_buffer_size records []))
