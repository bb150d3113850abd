-- ===== src/Merge.antt =====
-- utils/io/content/contentreader.go: the k-way merge of sorted readers.
-- A reader is the list of the records that it still yields; reading a record takes no fault.
pub mod Order
pub mod Pass
pub mod Sorted
mod Samples
use jfrog_client_go.Base.{
  ℕ, zero, suc, ◌+◌, Bool, true, false, Option, none, some, List, [], ◌∷◌, length, if◌then◌else◌,
}
use jfrog_client_go.Base.Text.{Bytes}
use jfrog_client_go.Base.Text.Order.{str_lt}

-- src > against, or src < against in descending order
unfoldable pub compare_strings : Bytes → Bytes → Bool → Bool
unfolding str_lt
compare_strings src against true = str_lt against src
compare_strings src against false = str_lt src against

-- currentContentItem[i] and sortedFilesClone[i], whose nil is `none`.
pub record Slot (A : Type 0) : Type 0 where
  pub current : Option A
  pub rest : Option (List A)

-- The round's best item so far, and its index.
pub record Best (A : Type 0) : Type 0 where
  pub candidate : Option A
  pub index : ℕ

module _ {A : Type 0} where
  -- The slot after the reader was asked for a record, if there was need.
  unfoldable pub refill : Option A → Option (List A) → Slot A
  refill none (some []) = record { current = none; rest = none }
  refill none (some (x ∷ xs)) = record { current = some x; rest = some xs }
  refill none none = record { current = none; rest = none }
  refill (some x) rest = record { current = some x; rest = rest }

module _ {A : Type 0} (get_sort_key : A → Bytes) (ascending : Bool) where
  -- The slot's item against the best so far, which is given by its two fields.
  unfoldable pub choose : ℕ → Option A → Option A → ℕ → Best A
  unfolding compare_strings
  choose i current none j = record { candidate = current; index = i }
  choose i none (some c) j = record { candidate = some c; index = j }
  choose i (some x) (some c) j =
      if compare_strings (get_sort_key c) (get_sort_key x) ascending
      then record { candidate = some x; index = i }
      else record { candidate = some c; index = j }

  -- The body of the inner loop; `continue` where the reader turns out to be at its end.
  unfoldable pub visit : ℕ → Option A → Option (List A) → Best A → Best A
  unfolding choose
  visit i none (some []) best = best
  visit i none (some (x ∷ xs)) best = choose i (some x) best.candidate best.index
  visit i none none best = choose i none best.candidate best.index
  visit i (some x) rest best = choose i (some x) best.candidate best.index

  -- The inner loop from index `i` on.
  unfoldable pub scan : ℕ → List (Slot A) → Best A → List (Slot A) × Best A
  unfolding visit refill
  scan i [] best = ([], best)
  scan i (slot ∷ slots) best =
      let (slots', best') = scan (suc i) slots (visit i slot.current slot.rest best) in
      (refill slot.current slot.rest ∷ slots', best')

-- currentContentItem[i] = nil
unfoldable pub clear_at : {A : Type 0} → ℕ → List (Slot A) → List (Slot A)
clear_at i [] = []
clear_at zero (slot ∷ slots) = record slot { current = none } ∷ slots
clear_at (suc i) (slot ∷ slots) = slot ∷ clear_at i slots

module _ {A : Type 0} where
  unfoldable pub start : List (List A) → List (Slot A)
  start [] = []
  start (reader ∷ readers) = record { current = none; rest = some reader } ∷ start readers

  unfoldable pub total : List (List A) → ℕ
  total [] = 0
  total (reader ∷ readers) = length reader + total readers

module _ {A : Type 0} (get_sort_key : A → Bytes) (ascending : Bool) where
  -- The outer loop; the result is what is written. `none` is a loop out of fuel.
  unfoldable pub rounds : ℕ → List (Slot A) → Option (List A)
  unfolding scan clear_at
  rounds zero slots = none
  rounds (suc f) slots =
      let (slots', best) =
        scan get_sort_key ascending 0 slots (record { candidate = none; index = 0 }) in
      elim best.candidate [
        | none ↦ some []
        | some c ↦ elim (rounds f (clear_at best.index slots')) [
          | none ↦ none
          | some written ↦ some (c ∷ written)
        ]
      ]

  unfoldable pub merge_sorted_readers : List (List A) → Option (List A)
  unfolding rounds start total
  merge_sorted_readers readers = rounds (total readers + 1) (start readers)
