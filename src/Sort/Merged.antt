-- ===== src/Sort/Merged.antt =====
-- mergeSortedReadersByCalculatedKey: the merge of strictly sorted readers is strictly sorted, and holds for
-- each key the first record that the readers have.
use jfrog_client_go.Base.{
  ℕ, zero, suc, ◌+◌, ◌<◌, ◌≡◌, refl, sym, ap, ◌∙◌, Bool, Option, none, some, List, [], ◌∷◌, ◌++◌,
  All, length, length-append, arith, Option-cases, inl, inr, if◌then◌else◌, All-left, All-right,
  All-append,
}
use jfrog_client_go.Base.Text.{Bytes, str_eq}
use jfrog_client_go.Merge.{Slot, Best, clear_at, start, total}
use jfrog_client_go.Merge.Order.{slot_items, items_of, from_option, contents, current_at}
use jfrog_client_go.Merge.Sorted.{concat}
use jfrog_client_go.Sort.{
  SortRecord, scan_by_key, rounds_by_key, merge_sorted_readers_by_calculated_key,
}
use jfrog_client_go.Sort.Keyed.{IsBefore, find_key, find_key-clear_at, IsStrict, length-clear_at}
use jfrog_client_go.Sort.Pass.{key_of, IsBest, AllStrict, Passed, scan_by_key-Passed}

module _ {A : Type 0} where
  -- What holds of all is kept when one is taken out.
  All-cleared :
      (P : A → Type 0) (j : ℕ) (xs : List (Slot A))
      → All P (contents xs)
      → All P (contents (clear_at j xs))
  unfolding clear_at
  All-cleared P j [] h = tt
  All-cleared P zero (x ∷ xs) h =
      All-append P (from_option x.rest) (contents xs)
        (All-rest P x.current x.rest (All-left P (slot_items x) (contents xs) h))
        (All-right P (slot_items x) (contents xs) h)
    where
      All-rest :
          (Q : A → Type 0) (current : Option A) (rest : Option (List A))
          → All Q (items_of current rest)
          → All Q (from_option rest)
      All-rest Q none rest k = k
      All-rest Q (some y) rest k = k.1
  All-cleared P (suc j) (x ∷ xs) h =
      All-append P (slot_items x) (contents (clear_at j xs))
        (All-left P (slot_items x) (contents xs) h)
        (All-cleared P j xs (All-right P (slot_items x) (contents xs) h))

  All-current :
      (P : A → Type 0) (j : ℕ) (xs : List (Slot A)) (c : A)
      → current_at j xs ≡ some c
      → All P (contents xs)
      → P c
  All-current P j [] c e h = cc
  All-current P zero (x ∷ xs) c e h =
      let items : All P (items_of (some c) x.rest) =
        rw e at (All-left P (slot_items x) (contents xs) h) in
      items.0
  All-current P (suc j) (x ∷ xs) c e h =
      All-current P j xs c e (All-right P (slot_items x) (contents xs) h)

module _ {A : Type 0} (asc : Bool) where
  slot-cleared :
      (current : Option (SortRecord A)) (rest : Option (List (SortRecord A)))
      → IsStrict key_of asc (items_of current rest)
      → IsStrict key_of asc (from_option rest)
  slot-cleared none rest h = h
  slot-cleared (some x) rest h = h.1

  AllStrict-clear_at :
      (j : ℕ) (slots : List (Slot (SortRecord A)))
      → AllStrict asc slots
      → AllStrict asc (clear_at j slots)
  unfolding clear_at
  AllStrict-clear_at j [] h = tt
  AllStrict-clear_at zero (slot ∷ slots) (h, hs) = (slot-cleared slot.current slot.rest h, hs)
  AllStrict-clear_at (suc j) (slot ∷ slots) (h, hs) = (h, AllStrict-clear_at j slots hs)

  -- The result is strictly sorted, gives for each key what the items give, and holds nothing else.
  abbrev pub SortsTo : List (SortRecord A) → List (SortRecord A) → Type 1
  SortsTo items written =
      IsStrict key_of asc written
      × ((k : Bytes) → find_key key_of k written ≡ find_key key_of k items)
      × ((P : SortRecord A → Type 0) → All P items → All P written)

  abbrev pub Sorts : Option (List (SortRecord A)) → List (SortRecord A) → Type 1
  Sorts result items =
      (written : List (SortRecord A)) × (result ≡ some written) × SortsTo items written

  abbrev nothing : Best (SortRecord A)
  nothing = record { candidate = none; index = 0 }

  round-none :
      (f : ℕ) (slots : List (Slot (SortRecord A)))
      → Passed asc [] slots (scan_by_key asc 0 slots nothing)
      → (scan_by_key asc 0 slots nothing).1.candidate ≡ none
      → Sorts (rounds_by_key asc (suc f) slots) (contents slots)
  unfolding rounds_by_key
  round-none f slots (b, ss, found, shorter, kept) e =
      let empty : contents (scan_by_key asc 0 slots nothing).0 ≡ [] = rw e at b in
      (
        [],
        rw (e, rounds_by_key),
        (tt, (λ k. ap (find_key key_of k) (sym empty) ∙ found k), λ P h. tt),
      )

  round-some :
      (f : ℕ) (slots : List (Slot (SortRecord A))) (c : SortRecord A)
      → Passed asc [] slots (scan_by_key asc 0 slots nothing)
      → (scan_by_key asc 0 slots nothing).1.candidate ≡ some c
      → Sorts
          (rounds_by_key asc f (
            clear_at (scan_by_key asc 0 slots nothing).1.index (scan_by_key asc 0 slots nothing).0))
          (contents (
            clear_at (scan_by_key asc 0 slots nothing).1.index (scan_by_key asc 0 slots nothing).0))
      → Sorts (rounds_by_key asc (suc f) slots) (contents slots)
  unfolding rounds_by_key find_key
  round-some f slots c (b, ss, found, shorter, kept) e (written, we, (strict, wfound, wkept)) =
      let r = scan_by_key asc 0 slots nothing in
      let best : IsBest asc r.0 (some c) r.1.index = rw e at b in
      let left = clear_at r.1.index r.0 in
      (
        c ∷ written,
        rw (e, we, rounds_by_key),
        (
          (wkept (λ x. IsBefore asc c.key x.key) best.1, strict),
          (λ k.
              ap (λ o. if str_eq c.key k then some c else o) (wfound k)
              ∙ sym (find_key-clear_at key_of asc k r.1.index r.0 c best.0 best.1)
              ∙ found k),
          λ P h. (
            All-current P r.1.index r.0 c best.0 (kept P h),
            wkept P (All-cleared P r.1.index r.0 (kept P h)),
          ),
        ),
      )

  rounds_by_key-Sorts :
      (f : ℕ) (slots : List (Slot (SortRecord A)))
      → AllStrict asc slots
      → length (contents slots) < f
      → Sorts (rounds_by_key asc f slots) (contents slots)
  rounds_by_key-Sorts zero slots s w = absurd (omega arith)
  rounds_by_key-Sorts (suc f) slots s w =
      let passed = scan_by_key-Passed asc [] slots nothing refl s in
      let r = scan_by_key asc 0 slots nothing in
      elim (Option-cases r.1.candidate) [
        | inl e ↦ round-none f slots passed e
        | inr (c, e) ↦
            let best : IsBest asc r.0 (some c) r.1.index = rw e at passed.0 in
            let fewer = length-clear_at r.1.index r.0 c best.0 in
            let enough : length (contents (clear_at r.1.index r.0)) < f = omega (arith, passed.3) in
            round-some f slots c passed e (
              rounds_by_key-Sorts f (clear_at r.1.index r.0)
                (AllStrict-clear_at r.1.index r.0 passed.1) enough)
      ]

  contents-start :
      (readers : List (List (SortRecord A))) → contents (start readers) ≡ concat readers
  unfolding start
  contents-start [] = refl
  contents-start (r ∷ rs) = ap (λ xs. r ++ xs) (contents-start rs)

  start-AllStrict :
      (readers : List (List (SortRecord A)))
      → All (IsStrict key_of asc) readers
      → AllStrict asc (start readers)
  unfolding start
  start-AllStrict [] h = tt
  start-AllStrict (r ∷ rs) (h, hs) = (h, start-AllStrict rs hs)

  length-concat : (readers : List (List (SortRecord A))) → length (concat readers) ≡ total readers
  unfolding total
  length-concat [] = refl
  length-concat (r ∷ rs) = omega (arith, length-append r (concat rs), length-concat rs)

  pub merge_sorted_readers_by_calculated_key-Sorts :
      (readers : List (List (SortRecord A)))
      → All (IsStrict key_of asc) readers
      → Sorts (merge_sorted_readers_by_calculated_key asc readers) (concat readers)
  unfolding merge_sorted_readers_by_calculated_key
  merge_sorted_readers_by_calculated_key-Sorts readers h =
      let enough : length (contents (start readers)) < total readers + 1 =
        rw (contents-start readers) (omega (arith, length-concat readers)) in
      rw (contents-start readers) at
        (rounds_by_key-Sorts (total readers + 1) (start readers) (start-AllStrict readers h) enough)
