-- ===== src/Merge/Order.antt =====
-- The order of compareStrings, and what one pass over the slots finds.
use jfrog_client_go.Base.{
  ℕ, zero, suc, ◌≡◌, refl, ap, Bool, true, false, Option, none, some, List, [], ◌∷◌, ◌++◌, ◌⊎◌, inl,
  inr, All, arith, Bool-cases,
}
use jfrog_client_go.Base.Text.{Bytes}
use jfrog_client_go.Base.Text.Order.{str_lt_irrefl, str_lt_asymm, str_le_trans}
use jfrog_client_go.Merge.{compare_strings, Slot, Best, refill, choose, visit, scan}

pub compare_irrefl : (s : Bytes) (asc : Bool) → compare_strings s s asc ≡ false
unfolding compare_strings
compare_irrefl s true = str_lt_irrefl s
compare_irrefl s false = str_lt_irrefl s

pub compare_asymm :
    (s t : Bytes) (asc : Bool) → compare_strings s t asc ≡ true → compare_strings t s asc ≡ false
unfolding compare_strings
compare_asymm s t true h = str_lt_asymm t s h
compare_asymm s t false h = str_lt_asymm s t h

pub compare_trans :
    (r s t : Bytes) (asc : Bool)
    → compare_strings r s asc ≡ false
    → compare_strings s t asc ≡ false
    → compare_strings r t asc ≡ false
unfolding compare_strings
compare_trans r s t true h k = str_le_trans r s t h k
compare_trans r s t false h k = str_le_trans t s r k h

module _ {A : Type 0} where
  abbrev pub from_option : Option (List A) → List A
  from_option none = []
  from_option (some xs) = xs

  abbrev pub items_of : Option A → Option (List A) → List A
  items_of none rest = from_option rest
  items_of (some x) rest = x ∷ from_option rest

  abbrev pub slot_items : Slot A → List A
  slot_items slot = items_of slot.current slot.rest

  -- All that the slots still hold.
  abbrev pub contents : List (Slot A) → List A
  contents [] = []
  contents (slot ∷ slots) = slot_items slot ++ contents slots

  abbrev pub refilled : List (Slot A) → List (Slot A)
  refilled [] = []
  refilled (slot ∷ slots) = refill slot.current slot.rest ∷ refilled slots

  pub refill_items :
      (current : Option A) (rest : Option (List A))
      → slot_items (refill current rest) ≡ items_of current rest
  unfolding refill
  refill_items none none = refl
  refill_items none (some []) = refl
  refill_items none (some (x ∷ xs)) = refl
  refill_items (some x) rest = refl

  pub refill-none :
      (current : Option A) (rest : Option (List A))
      → (refill current rest).current ≡ none
      → items_of current rest ≡ []
  unfolding refill
  refill-none none none h = refl
  refill-none none (some []) h = refl
  refill-none none (some (x ∷ xs)) h = cc
  refill-none (some x) rest h = cc

  pub contents-refilled : (slots : List (Slot A)) → contents (refilled slots) ≡ contents slots
  contents-refilled [] = refl
  contents-refilled (slot ∷ slots) =
      rw (refill_items slot.current slot.rest, contents-refilled slots)

  -- The item that a slot offers.
  abbrev pub current_at : ℕ → List (Slot A) → Option A
  current_at k [] = none
  current_at zero (slot ∷ slots) = slot.current
  current_at (suc k) (slot ∷ slots) = current_at k slots

module _ {A : Type 0} (key : A → Bytes) (asc : Bool) where
  -- `x` does not come behind `y`.
  abbrev pub Before : A → A → Type 0
  Before x y = compare_strings (key x) (key y) asc ≡ false

  abbrev pub SortedByKey : List A → Type 0
  SortedByKey [] = Unit
  SortedByKey (x ∷ xs) = All (Before x) xs × SortedByKey xs

  pub scan-refilled :
      (i : ℕ) (slots : List (Slot A)) (best : Best A)
      → (scan key asc i slots best).0 ≡ refilled slots
  unfolding scan
  scan-refilled i [] best = refl
  scan-refilled i (slot ∷ slots) best =
      ap (λ r. refill slot.current slot.rest ∷ r)
        (scan-refilled (suc i) slots (visit key asc i slot.current slot.rest best))

  choose-best :
      (i j : ℕ) (current : Option A) (c : A)
      → (d : A) × ((choose key asc i current (some c) j).candidate ≡ some d) × Before d c
  choose-best i j none c = unfold choose in (c, refl, compare_irrefl (key c) asc)
  choose-best i j (some x) c = elim (Bool-cases (compare_strings (key c) (key x) asc)) [
    | inl h ↦ unfold choose in (x, rw (h, choose), compare_asymm (key c) (key x) asc h)
    | inr h ↦ unfold choose in (c, rw (h, choose), compare_irrefl (key c) asc)
  ]

  choose-current :
      (i j : ℕ) (x : A) (candidate : Option A)
      → (d : A) × ((choose key asc i (some x) candidate j).candidate ≡ some d) × Before d x
  choose-current i j x none = unfold choose in (x, refl, compare_irrefl (key x) asc)
  choose-current i j x (some c) = elim (Bool-cases (compare_strings (key c) (key x) asc)) [
    | inl h ↦ unfold choose in (x, rw (h, choose), compare_irrefl (key x) asc)
    | inr h ↦ unfold choose in (c, rw (h, choose), h)
  ]

  -- What a visit leaves is not behind what was best before.
  pub visit-best :
      (i : ℕ) (current : Option A) (rest : Option (List A)) (j : ℕ) (c : A)
      → (d : A) × ((visit key asc i current rest
            (record { candidate = some c; index = j })).candidate
          ≡ some d)
        × Before d c
  unfolding visit
  visit-best i none (some []) j c = (c, refl, compare_irrefl (key c) asc)
  visit-best i none (some (x ∷ xs)) j c = choose-best i j (some x) c
  visit-best i none none j c = choose-best i j none c
  visit-best i (some x) rest j c = choose-best i j (some x) c

  -- It is not behind the slot's item.
  pub visit-current :
      (i : ℕ) (current : Option A) (rest : Option (List A)) (best : Best A) (x : A)
      → (refill current rest).current ≡ some x
      → (d : A) × ((visit key asc i current rest best).candidate ≡ some d) × Before d x
  unfolding visit refill
  visit-current i none (some []) best x h = absurd (cc)
  visit-current i none (some (y ∷ ys)) best x h =
      let same : x ≡ y = ground arith in rw same (choose-current i best.index y best.candidate)
  visit-current i none none best x h = absurd (cc)
  visit-current i (some y) rest best x h =
      let same : x ≡ y = ground arith in rw same (choose-current i best.index y best.candidate)

  choose_picks :
      (i j : ℕ) (current candidate : Option A)
      → (choose key asc i current candidate j ≡ record { candidate = candidate; index = j })
        ⊎ (((choose key asc i current candidate j).index ≡ i)
            × ((choose key asc i current candidate j).candidate ≡ current))
  choose_picks i j current none = unfold choose in inr (refl, refl)
  choose_picks i j none (some c) = unfold choose in inl refl
  choose_picks i j (some x) (some c) = elim (Bool-cases (compare_strings (key c) (key x) asc)) [
    | inl h ↦ inr (unfold choose in rw (h, choose), unfold choose in rw (h, choose))
    | inr h ↦ inl (unfold choose in rw (h, choose))
  ]

  -- The best item is what it was, or the slot's item with the slot's index.
  pub visit_picks :
      (i : ℕ) (current : Option A) (rest : Option (List A)) (best : Best A)
      → (visit key asc i current rest best ≡ best)
        ⊎ (((visit key asc i current rest best).index ≡ i)
            × ((visit key asc i current rest best).candidate ≡ (refill current rest).current))
  unfolding visit refill
  visit_picks i none (some []) best = inl refl
  visit_picks i none (some (x ∷ xs)) best = choose_picks i best.index (some x) best.candidate
  visit_picks i none none best = choose_picks i best.index none best.candidate
  visit_picks i (some x) rest best = choose_picks i best.index (some x) best.candidate
