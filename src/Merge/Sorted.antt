-- ===== src/Merge/Sorted.antt =====
-- MergeSortedReaders: the merge of sorted readers is sorted and holds every item as often as they.
use jfrog_client_go.Base.{
  ℕ, zero, suc, ◌+◌, ◌<◌, ◌≡◌, refl, sym, ap, ◌∙◌, Bool, true, Option, none, some, List, [], ◌∷◌,
  ◌++◌, inl, inr, All, length, arith, Option-cases,
}
use jfrog_client_go.Base.Text.{Bytes}
use jfrog_client_go.Base.Count.{count, SameItems, count-append, All-SameItems}
use jfrog_client_go.Merge.{
  compare_strings, Slot, Best, scan, clear_at, rounds, start, total, merge_sorted_readers,
}
use jfrog_client_go.Merge.Order.{
  slot_items, items_of, from_option, contents, refilled, refill_items, contents-refilled, Before,
  SortedByKey, current_at, scan-refilled,
}
use jfrog_client_go.Merge.Pass.{SlotsSorted, scan-Before, scan-none, scan_picks}

module _ {A : Type 0} where
  -- All the readers' items, one reader after the other.
  abbrev pub concat : List (List A) → List A
  concat [] = []
  concat (xs ∷ xss) = xs ++ concat xss

  count-clear_at :
      (p : A → Bool) (k : ℕ) (slots : List (Slot A)) (c : A)
      → current_at k slots ≡ some c
      → count p (contents slots) ≡ count p (c ∷ contents (clear_at k slots))
  unfolding clear_at
  count-clear_at p k [] c e = absurd (cc)
  count-clear_at p zero (slot ∷ slots) c e = rw e refl
  count-clear_at p (suc k) (slot ∷ slots) c e = omega (
    arith,
    count-clear_at p k slots c e,
    count-append p (slot_items slot) (contents slots),
    count-append p (slot_items slot) (contents (clear_at k slots)),
  )

module _ {A : Type 0} (key : A → Bytes) (asc : Bool) where
  slots-refilled :
      (slots : List (Slot A)) → SlotsSorted key asc slots → SlotsSorted key asc (refilled slots)
  slots-refilled [] h = tt
  slots-refilled (slot ∷ slots) (h, hs) =
      (rw (refill_items slot.current slot.rest) h, slots-refilled slots hs)

  slot-cleared :
      (current : Option A) (rest : Option (List A))
      → SortedByKey key asc (items_of current rest)
      → SortedByKey key asc (from_option rest)
  slot-cleared none rest h = h
  slot-cleared (some x) rest h = h.1

  slots-cleared :
      (k : ℕ) (slots : List (Slot A))
      → SlotsSorted key asc slots
      → SlotsSorted key asc (clear_at k slots)
  unfolding clear_at
  slots-cleared k [] h = tt
  slots-cleared zero (slot ∷ slots) (h, hs) = (slot-cleared slot.current slot.rest h, hs)
  slots-cleared (suc k) (slot ∷ slots) (h, hs) = (h, slots-cleared k slots hs)

  -- What the outer loop must give for the slots.
  abbrev Merges : Option (List A) → List A → Type 0
  Merges result items =
      (written : List A) × (result ≡ some written)
      × SortedByKey key asc written
      × SameItems written items

  abbrev nothing : Best A
  nothing = record { candidate = none; index = 0 }

  abbrev pass : List (Slot A) → List (Slot A) × Best A
  pass slots = scan key asc 0 slots nothing

  -- The slots after the item that the pass finds is taken out.
  abbrev left : List (Slot A) → List (Slot A)
  left slots = clear_at (pass slots).1.index (pass slots).0

  pass-current :
      (slots : List (Slot A)) (c : A)
      → (pass slots).1.candidate ≡ some c
      → current_at (pass slots).1.index (pass slots).0 ≡ some c
  pass-current slots c e = elim (scan_picks key asc 0 slots nothing) [
    | inl same ↦ absurd (ground arith)
    | inr (k, ei, at) ↦
        let ei' : (pass slots).1.index ≡ k = ei ∙ omega arith in
        rw (ei', scan-refilled key asc 0 slots nothing) (at ∙ e)
  ]

  left_items :
      (slots : List (Slot A)) (c : A)
      → (pass slots).1.candidate ≡ some c
      → SameItems (contents slots) (c ∷ contents (left slots))
  left_items slots c e p =
      ap (count p)
        (sym (contents-refilled slots) ∙ ap contents (sym (scan-refilled key asc 0 slots nothing)))
      ∙ count-clear_at p (pass slots).1.index (pass slots).0 c (pass-current slots c e)

  left-sorted :
      (slots : List (Slot A)) → SlotsSorted key asc slots → SlotsSorted key asc (left slots)
  left-sorted slots s =
      slots-cleared (pass slots).1.index (pass slots).0
        (rw (scan-refilled key asc 0 slots nothing) (slots-refilled slots s))

  written-Before :
      (slots : List (Slot A)) (c : A) (written : List A)
      → SlotsSorted key asc slots
      → (pass slots).1.candidate ≡ some c
      → SameItems written (contents (left slots))
      → All (Before key asc c) written
  written-Before slots c written s e items =
      let p : A → Bool = λ x. compare_strings (key c) (key x) asc in
      let all : All (Before key asc c) (c ∷ contents (left slots)) =
        All-SameItems p (c ∷ contents (left slots)) (contents slots)
          (λ q. sym (left_items slots c e q)) (scan-Before key asc 0 slots nothing c s e) in
      All-SameItems p written (contents (left slots)) items all.1

  round-none :
      (f : ℕ) (slots : List (Slot A))
      → (pass slots).1.candidate ≡ none
      → Merges (rounds key asc (suc f) slots) (contents slots)
  unfolding rounds
  round-none f slots e =
      ([], rw (e, rounds), tt, rw (scan-none key asc 0 slots nothing e) (λ p. refl))

  round-some :
      (f : ℕ) (slots : List (Slot A)) (c : A)
      → SlotsSorted key asc slots
      → (pass slots).1.candidate ≡ some c
      → Merges (rounds key asc f (left slots)) (contents (left slots))
      → Merges (rounds key asc (suc f) slots) (contents slots)
  unfolding rounds
  round-some f slots c s e (written, e', ws, items) =
      let same = left_items slots c e in
      (
        c ∷ written,
        rw (e, e', rounds),
        (written-Before slots c written s e items, ws),
        λ p. omega (arith, same p, items p),
      )

  rounds_lem :
      (f : ℕ) (slots : List (Slot A))
      → SlotsSorted key asc slots
      → count (λ _. true) (contents slots) < f
      → Merges (rounds key asc f slots) (contents slots)
  rounds_lem zero slots s w = absurd (omega arith)
  rounds_lem (suc f) slots s w = elim (Option-cases (pass slots).1.candidate) [
    | inl e ↦ round-none f slots e
    | inr (c, e) ↦ round-some f slots c s e (
        rounds_lem f (left slots) (left-sorted slots s)
          (omega (arith, left_items slots c e (λ _. true))))
  ]

  start-sorted :
      (readers : List (List A))
      → All (SortedByKey key asc) readers
      → SlotsSorted key asc (start readers)
  unfolding start
  start-sorted [] h = tt
  start-sorted (r ∷ rs) (h, hs) = (h, start-sorted rs hs)

module _ {A : Type 0} where
  contents-start : (readers : List (List A)) → contents (start readers) ≡ concat readers
  unfolding start
  contents-start [] = refl
  contents-start (r ∷ rs) = ap (λ xs. r ++ xs) (contents-start rs)

  count-length : (xs : List A) → count (λ _. true) xs ≡ length xs
  count-length [] = refl
  count-length (x ∷ xs) = omega (arith, count-length xs)

  count-total : (readers : List (List A)) → count (λ _. true) (concat readers) ≡ total readers
  unfolding total
  count-total [] = refl
  count-total (r ∷ rs) =
      omega (arith, count-append (λ _. true) r (concat rs), count-length r, count-total rs)

-- Merging sorted readers ends within its fuel and writes a sorted list that holds the readers' items,
-- each as often as they do, in ascending and in descending order alike.
pub merge_sorted_readers_lem :
    {A : Type 0} (key : A → Bytes) (ascending : Bool) (readers : List (List A))
    → All (SortedByKey key ascending) readers
    → (written : List A) × (merge_sorted_readers key ascending readers ≡ some written)
      × SortedByKey key ascending written
      × SameItems written (concat readers)
unfolding merge_sorted_readers
merge_sorted_readers_lem key asc readers h =
    let (written, e, s, items) =
      rounds_lem key asc (total readers + 1) (start readers) (start-sorted key asc readers h)
        (rw (contents-start readers) (omega (arith, count-total readers))) in
    (written, e, s, λ p. items p ∙ ap (count p) (contents-start readers))
