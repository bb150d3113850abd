-- ===== src/Sort/Pass.antt =====
-- One pass of the merge by keys: the best record comes before all that is left, and only records whose
-- key was there are removed.
use jfrog_client_go.Base.{
  ℕ, suc, ◌≤◌, ◌≡◌, refl, sym, ap, ◌∙◌, Bool, Option, none, some, List, [], ◌∷◌, ◌++◌, All,
  All-append, All-left, All-right, length, length-append, arith, Bool-cases, inl, inr, append_assoc,
  append-nil,
}
use jfrog_client_go.Base.Text.{Bytes, str_eq, str_eq_iff}
use jfrog_client_go.Merge.{compare_strings, Slot, Best, clear_at}
use jfrog_client_go.Merge.Order.{slot_items, items_of, from_option, contents, current_at}
use jfrog_client_go.Sort.{SortRecord, settle, visit_by_key, scan_by_key}
use jfrog_client_go.Sort.Keyed.{
  IsBefore, IsBefore-total, find_key, find_key-drop, find_key-clear_at, AllBehind, AllBehind-trans,
  IsStrict, contents-append, current_at-append, clear_at-append, current_at-length, clear_at-length,
  All-clear_at,
}

abbrev pub key_of : {A : Type 0} → SortRecord A → Bytes
key_of r = r.key

module _ {A : Type 0} (asc : Bool) where
  -- The best record of the slots `pre` stands at its index, before all else that they hold.
  abbrev pub IsBest : List (Slot (SortRecord A)) → Option (SortRecord A) → ℕ → Type 0
  IsBest pre none j = contents pre ≡ []
  IsBest pre (some b) j =
      (current_at j pre ≡ some b) × AllBehind key_of asc b.key (contents (clear_at j pre))

  -- What a visit does to the items of one slot, behind `before` and in front of `after`.
  abbrev pub Keeps : List (SortRecord A) → List (SortRecord A) → List (SortRecord A) → Type 1
  Keeps before items left =
      IsStrict key_of asc left
      × ((k : Bytes) (after : List (SortRecord A))
          → find_key key_of k (before ++ (left ++ after))
            ≡ find_key key_of k (before ++ (items ++ after)))
      × (length left ≤ length items)
      × ((P : SortRecord A → Type 0) → All P items → All P left)

  Keeps-refl :
      (before items : List (SortRecord A)) → IsStrict key_of asc items → Keeps before items items
  Keeps-refl before items s = (s, (λ k after. refl), omega arith, λ P h. h)

  IsBest-empty :
      (pre : List (Slot (SortRecord A))) (cand : Option (SortRecord A)) (j : ℕ)
      → IsBest pre cand j
      → IsBest (pre ++ record { current = none; rest = none } ∷ []) cand j
  IsBest-empty pre none j h =
      contents-append pre (record { current = none; rest = none } ∷ []) ∙ ap (λ r. r ++ []) h
  IsBest-empty pre (some b) j (at, h) =
      let empty = record { current = none; rest = none } ∷ [] in
      (
        current_at-append j pre empty b at,
        rw
            (
              clear_at-append j pre empty b at,
              contents-append (clear_at j pre) empty,
              append-nil (contents (clear_at j pre)),
            )
            h,
      )

  -- A slot whose items all come behind the best record.
  IsBest-behind :
      (pre : List (Slot (SortRecord A))) (b : SortRecord A) (j : ℕ) (slot : Slot (SortRecord A))
      → IsBest pre (some b) j
      → AllBehind key_of asc b.key (slot_items slot)
      → IsBest (pre ++ slot ∷ []) (some b) j
  IsBest-behind pre b j slot (at, h) hs =
      let P = λ (r : SortRecord A). IsBefore asc b.key r.key in
      (
        current_at-append j pre (slot ∷ []) b at,
        rw (clear_at-append j pre (slot ∷ []) b at, contents-append (clear_at j pre) (slot ∷ []))
            (All-append P (contents (clear_at j pre)) (slot_items slot ++ []) h
              (rw (append-nil (slot_items slot)) hs)),
      )

  -- A slot whose record comes before all that was there.
  IsBest-first :
      (pre : List (Slot (SortRecord A))) (x : SortRecord A) (rest : Option (List (SortRecord A)))
      → AllBehind key_of asc x.key (contents pre)
      → AllBehind key_of asc x.key (from_option rest)
      → IsBest (pre ++ record { current = some x; rest = rest } ∷ []) (some x) (length pre)
  IsBest-first pre x rest h hs =
      let P = λ (r : SortRecord A). IsBefore asc x.key r.key in
      let slot : Slot (SortRecord A) = record { current = some x; rest = rest } in
      let cleared : Slot (SortRecord A) = record { current = none; rest = rest } in
      (
        current_at-length pre slot,
        rw (clear_at-length pre slot, contents-append pre (cleared ∷ []))
            (All-append P (contents pre) (from_option rest ++ []) h
              (rw (append-nil (from_option rest)) hs)),
      )

  settle-some :
      (pre : List (Slot (SortRecord A))) (x : SortRecord A) (rest : Option (List (SortRecord A)))
      (cand : Option (SortRecord A)) (j : ℕ)
      → IsBest pre cand j
      → IsStrict key_of asc (items_of (some x) rest)
      → IsBest
          (pre ++ (settle asc (length pre) (some x) rest cand j).0 ∷ [])
          (settle asc (length pre) (some x) rest cand j).1.candidate
          (settle asc (length pre) (some x) rest cand j).1.index
        × Keeps
            (contents pre)
            (items_of (some x) rest)
            (slot_items (settle asc (length pre) (some x) rest cand j).0)
  unfolding settle
  settle-some pre x rest none j h s =
      (IsBest-first pre x rest (rw h tt) s.0, Keeps-refl (contents pre) (items_of (some x) rest) s)
  settle-some pre x rest (some c) j h s = elim (Bool-cases (str_eq c.key x.key)) [
    | inl e ↦
        let at_x = find_key-clear_at key_of asc x.key j pre c h.0 h.1 in
        let there : find_key key_of x.key (contents pre) ≡ some c = at_x ∙ (rw e refl) in
        let same : c.key ≡ x.key = (str_eq_iff c.key x.key).0 e in
        rw e (
          IsBest-behind pre c j (record { current = none; rest = rest }) h (rw same s.0),
          (
            s.1,
            (λ k after.
                sym (find_key-drop key_of k (contents pre) (from_option rest ++ after) c x there)),
            omega arith,
            λ P hs. hs.1,
          ),
        )
    | inr e ↦ elim (Bool-cases (compare_strings c.key x.key asc)) [
      | inl b ↦
          let P = λ (r : SortRecord A). IsBefore asc x.key r.key in
          let behind = AllBehind-trans key_of asc x.key c.key (contents (clear_at j pre)) b h.1 in
          rw (e, b)
            (
              IsBest-first pre x rest (All-clear_at P j pre c h.0 b behind) s.0,
              Keeps-refl (contents pre) (items_of (some x) rest) s,
            )
      | inr b ↦
          let b' = IsBefore-total asc c.key x.key e b in
          rw (e, b)
            (
              IsBest-behind pre c j (record { current = some x; rest = rest }) h
                  (b', AllBehind-trans key_of asc c.key x.key (from_option rest) b' s.0),
              Keeps-refl (contents pre) (items_of (some x) rest) s,
            )
    ]
  ]

  -- What a visit must give for a slot.
  abbrev pub Visited :
      List (Slot (SortRecord A))
      → List (SortRecord A)
      → Slot (SortRecord A) × Best (SortRecord A)
      → Type 1
  Visited pre items r =
      IsBest (pre ++ r.0 ∷ []) r.1.candidate r.1.index × Keeps (contents pre) items (slot_items r.0)

  settle-none :
      (pre : List (Slot (SortRecord A))) (cand : Option (SortRecord A)) (j : ℕ)
      → IsBest pre cand j
      → Visited pre [] (settle asc (length pre) none none cand j)
  unfolding settle
  settle-none pre none j h = (IsBest-empty pre none j h, Keeps-refl (contents pre) [] tt)
  settle-none pre (some c) j h = (IsBest-empty pre (some c) j h, Keeps-refl (contents pre) [] tt)

  pub visit_by_key-Visited :
      (pre : List (Slot (SortRecord A))) (current : Option (SortRecord A))
      (rest : Option (List (SortRecord A))) (best : Best (SortRecord A))
      → IsBest pre best.candidate best.index
      → IsStrict key_of asc (items_of current rest)
      → Visited pre (items_of current rest) (visit_by_key asc (length pre) current rest best)
  unfolding visit_by_key
  visit_by_key-Visited pre none (some []) best h s =
      (IsBest-empty pre best.candidate best.index h, Keeps-refl (contents pre) [] tt)
  visit_by_key-Visited pre none (some (x ∷ xs)) best h s =
      settle-some pre x (some xs) best.candidate best.index h s
  visit_by_key-Visited pre none none best h s = settle-none pre best.candidate best.index h
  visit_by_key-Visited pre (some x) rest best h s =
      settle-some pre x rest best.candidate best.index h s

  abbrev pub AllStrict : List (Slot (SortRecord A)) → Type 0
  AllStrict = All (λ s. IsStrict key_of asc (slot_items s))

  -- What a pass leaves of the slots behind `pre`.
  abbrev pub Passed :
      List (Slot (SortRecord A))
      → List (Slot (SortRecord A))
      → List (Slot (SortRecord A)) × Best (SortRecord A)
      → Type 1
  Passed pre slots r =
      IsBest (pre ++ r.0) r.1.candidate r.1.index
      × AllStrict r.0
      × ((k : Bytes)
          → find_key key_of k (contents pre ++ contents r.0)
            ≡ find_key key_of k (contents pre ++ contents slots))
      × (length (contents r.0) ≤ length (contents slots))
      × ((P : SortRecord A → Type 0) → All P (contents slots) → All P (contents r.0))

  contents-snoc :
      (pre : List (Slot (SortRecord A))) (slot : Slot (SortRecord A)) (ys : List (SortRecord A))
      → contents (pre ++ slot ∷ []) ++ ys ≡ contents pre ++ (slot_items slot ++ ys)
  contents-snoc pre slot ys =
      ap (λ zs. zs ++ ys)
        (contents-append pre (slot ∷ [])
          ∙ ap (λ zs. contents pre ++ zs) (append-nil (slot_items slot)))
      ∙ append_assoc (contents pre) (slot_items slot) ys

  pub scan_by_key-Passed :
      (pre slots : List (Slot (SortRecord A))) (best : Best (SortRecord A))
      → IsBest pre best.candidate best.index
      → AllStrict slots
      → Passed pre slots (scan_by_key asc (length pre) slots best)
  unfolding scan_by_key
  scan_by_key-Passed pre [] best h s =
      ((rw (append-nil pre) h), tt, (λ k. refl), omega arith, (λ P a. a))
  scan_by_key-Passed pre (slot ∷ slots) best h (s, ss) =
      let r = visit_by_key asc (length pre) slot.current slot.rest best in
      let (b, (strict, found, shorter, kept)) =
        visit_by_key-Visited pre slot.current slot.rest best h s in
      let len : length (pre ++ r.0 ∷ []) ≡ suc (length pre) =
        omega (arith, length-append pre (r.0 ∷ [])) in
      let ih : Passed (pre ++ r.0 ∷ []) slots (scan_by_key asc (suc (length pre)) slots r.1) =
        rw len at (scan_by_key-Passed (pre ++ r.0 ∷ []) slots r.1 b ss) in
      let (b', ss', found', shorter', kept') = ih in
      let left = scan_by_key asc (suc (length pre)) slots r.1 in
      (
        rw (sym (append_assoc pre (r.0 ∷ []) left.0)) b',
        (strict, ss'),
        (λ k.
            ap (find_key key_of k) (sym (contents-snoc pre r.0 (contents left.0)))
            ∙ found' k
            ∙ ap (find_key key_of k) (contents-snoc pre r.0 (contents slots))
            ∙ found k (contents slots)),
        omega (
          arith,
          length-append (slot_items r.0) (contents left.0),
          length-append (slot_items slot) (contents slots),
        ),
        (λ P hs.
            All-append P (slot_items r.0) (contents left.0)
              (kept P (All-left P (slot_items slot) (contents slots) hs))
              (kept' P (All-right P (slot_items slot) (contents slots) hs))),
      )
