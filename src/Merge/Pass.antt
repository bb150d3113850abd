-- ===== src/Merge/Pass.antt =====
-- One pass over the slots finds an item that no other precedes, and its slot.
use jfrog_client_go.Base.{
  ℕ, suc, ◌+◌, ◌≡◌, refl, sym, ap, ◌∙◌, Bool, Option, none, some, List, [], ◌∷◌, ◌⊎◌, inl, inr, All,
  All-append, arith, Option-cases,
}
use jfrog_client_go.Base.Text.{Bytes}
use jfrog_client_go.Merge.{Slot, Best, refill, visit, scan}
use jfrog_client_go.Merge.Order.{
  compare_irrefl, compare_trans, slot_items, items_of, contents, refilled, refill-none, Before,
  SortedByKey, current_at, visit-best, visit-current, visit_picks,
}

module _ {A : Type 0} (key : A → Bytes) (asc : Bool) where
  abbrev pub SlotsSorted : List (Slot A) → Type 0
  SlotsSorted = All (λ s. SortedByKey key asc (slot_items s))

  Before-trans : (x y z : A) → Before key asc x y → Before key asc y z → Before key asc x z
  Before-trans x y z h k = compare_trans (key x) (key y) (key z) asc h k

  All-Before :
      (x y : A) (zs : List A)
      → Before key asc x y
      → All (Before key asc y) zs
      → All (Before key asc x) zs
  All-Before x y [] h hs = tt
  All-Before x y (z ∷ zs) h (k, ks) = (Before-trans x y z h k, All-Before x y zs h ks)

  -- The pass ends with an item that is not behind the best item that it began with.
  scan-best :
      (i : ℕ) (slots : List (Slot A)) (c : A) (j : ℕ)
      → (d : A) × ((scan key asc i slots (record { candidate = some c; index = j })).1.candidate
          ≡ some d)
        × Before key asc d c
  unfolding scan
  scan-best i [] c j = (c, refl, compare_irrefl (key c) asc)
  scan-best i (slot ∷ slots) c j =
      let best' =
        visit key asc i slot.current slot.rest (record { candidate = some c; index = j }) in
      let (d, e, h) = visit-best key asc i slot.current slot.rest j c in
      let (d', e', h') = scan-best (suc i) slots d best'.index in
      let same : best' ≡ record { candidate = some d; index = best'.index } = ground arith in
      (d', rw same e', Before-trans d' d c h' h)

  scan-best_of :
      (i : ℕ) (slots : List (Slot A)) (best : Best A) (c d : A)
      → best.candidate ≡ some c
      → (scan key asc i slots best).1.candidate ≡ some d
      → Before key asc d c
  scan-best_of i slots best c d h k =
      let (d', e, b) = scan-best i slots c best.index in
      let same : best ≡ record { candidate = some c; index = best.index } = ground arith in
      let k' : (scan key asc i slots
            (record { candidate = some c; index = best.index })).1.candidate
          ≡ some d =
        rw same at k in
      let equal : d ≡ d' = cc in rw equal b

  slot-Before :
      (d : A) (current : Option A) (rest : Option (List A))
      → SortedByKey key asc (items_of current rest)
      → ((x : A) → (refill current rest).current ≡ some x → Before key asc d x)
      → All (Before key asc d) (items_of current rest)
  unfolding refill
  slot-Before d none none s h = tt
  slot-Before d none (some []) s h = tt
  slot-Before d none (some (x ∷ xs)) s h = (h x refl, All-Before d x xs (h x refl) s.0)
  slot-Before d (some x) rest s h = (h x refl, All-Before d x _ (h x refl) s.0)

  -- No item that the slots hold comes before the one that the pass finds.
  pub scan-Before :
      (i : ℕ) (slots : List (Slot A)) (best : Best A) (d : A)
      → SlotsSorted slots
      → (scan key asc i slots best).1.candidate ≡ some d
      → All (Before key asc d) (contents slots)
  scan-Before i [] best d s e = tt
  scan-Before i (slot ∷ slots) best d (s, ss) e =
      let best' = visit key asc i slot.current slot.rest best in
      let e' : (scan key asc (suc i) slots best').1.candidate ≡ some d = unfold scan in e in
      All-append (Before key asc d) (slot_items slot) (contents slots)
        (slot-Before d slot.current slot.rest s (λ x h.
          let (c, ec, b) = visit-current key asc i slot.current slot.rest best x h in
          Before-trans d c x (scan-best_of (suc i) slots best' c d ec e') b))
        (scan-Before (suc i) slots best' d ss e')

  -- A pass that finds nothing went over empty slots.
  pub scan-none :
      (i : ℕ) (slots : List (Slot A)) (best : Best A)
      → (scan key asc i slots best).1.candidate ≡ none
      → contents slots ≡ []
  scan-none i [] best e = refl
  scan-none i (slot ∷ slots) best e =
      let best' = visit key asc i slot.current slot.rest best in
      let e' : (scan key asc (suc i) slots best').1.candidate ≡ none = unfold scan in e in
      elim (Option-cases (refill slot.current slot.rest).current) [
        | inl n ↦ rw (refill-none slot.current slot.rest n) (scan-none (suc i) slots best' e')
        | inr (x, h) ↦
            let (c, ec, b) = visit-current key asc i slot.current slot.rest best x h in
            let (d, ed, b') = scan-best (suc i) slots c best'.index in
            let same : best' ≡ record { candidate = some c; index = best'.index } = ground arith in
            let e'' : (scan key asc (suc i) slots
                  (record { candidate = some c; index = best'.index })).1.candidate
                ≡ none =
              rw same at e' in
            absurd (cc)
      ]

  -- What the pass finds is what it began with, or stands in the slot with the index that it returns.
  pub scan_picks :
      (i : ℕ) (slots : List (Slot A)) (best : Best A)
      → ((scan key asc i slots best).1 ≡ best)
        ⊎ ((k : ℕ) × ((scan key asc i slots best).1.index ≡ i + k)
            × (current_at k (refilled slots) ≡ (scan key asc i slots best).1.candidate))
  scan_picks i [] best = unfold scan in inl refl
  scan_picks i (slot ∷ slots) best =
      let best' = visit key asc i slot.current slot.rest best in
      elim (scan_picks (suc i) slots best') [
        | inr (k, e, at) ↦ unfold scan in inr (suc k, omega arith, at)
        | inl same ↦ elim (visit_picks key asc i slot.current slot.rest best) [
          | inl old ↦ unfold scan in inl (same ∙ old)
          | inr (e, at) ↦
              unfold scan in
              inr (
                0,
                ap (λ (b : Best A). b.index) same ∙ e ∙ omega arith,
                sym at ∙ ap (λ (b : Best A). b.candidate) (sym same),
              )
        ]
      ]
