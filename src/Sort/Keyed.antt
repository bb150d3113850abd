-- ===== src/Sort/Keyed.antt =====
-- Records by their keys: the first with a key, and lists that are strictly sorted.
use jfrog_client_go.Base.{
  ℕ, zero, suc, ◌≡◌, refl, sym, ap, ◌∙◌, Bool, true, false, Option, none, some, List, [], ◌∷◌, ◌++◌,
  All, length, if◌then◌else◌, arith, Bool-cases, inl, inr, append_assoc, All-left, All-right,
  All-append, length-append,
}
use jfrog_client_go.Base.Text.{Bytes, str_eq, str_eq_iff}
use jfrog_client_go.Base.Text.Order.{str_lt_irrefl, str_lt_trans, str_lt_antisymm}
use jfrog_client_go.Merge.{compare_strings, Slot, clear_at}
use jfrog_client_go.Merge.Order.{slot_items, contents, current_at}

-- `s` comes strictly before `t`.
abbrev pub IsBefore : Bool → Bytes → Bytes → Type 0
IsBefore asc s t = compare_strings t s asc ≡ true

pub IsBefore-trans :
    (asc : Bool) (r s t : Bytes) → IsBefore asc r s → IsBefore asc s t → IsBefore asc r t
unfolding compare_strings
IsBefore-trans true r s t h k = str_lt_trans r s t h k
IsBefore-trans false r s t h k = str_lt_trans t s r k h

pub IsBefore-ne : (asc : Bool) (s t : Bytes) → IsBefore asc s t → str_eq s t ≡ false
unfolding compare_strings
IsBefore-ne true s t h = ground (arith, str_lt_irrefl s, str_eq_iff s t)
IsBefore-ne false s t h = ground (arith, str_lt_irrefl s, str_eq_iff s t)

-- Of two different keys, one comes before the other.
pub IsBefore-total :
    (asc : Bool) (s t : Bytes)
    → str_eq s t ≡ false
    → compare_strings s t asc ≡ false
    → IsBefore asc s t
unfolding compare_strings
IsBefore-total true s t ne h = ground (arith, str_lt_antisymm s t, str_eq_iff s t)
IsBefore-total false s t ne h = ground (arith, str_lt_antisymm s t, str_eq_iff s t)

pub str_eq_sym : (s t : Bytes) → str_eq s t ≡ str_eq t s
unfolding str_eq
str_eq_sym [] [] = refl
str_eq_sym [] (d ∷ t) = refl
str_eq_sym (c ∷ s) [] = refl
str_eq_sym (c ∷ s) (d ∷ t) = ground (arith, str_eq_sym s t)

unfoldable pub or_else {ℓ} : {A : Type ℓ} → Option A → Option A → Option A
or_else none o = o
or_else (some a) o = some a

module _ {A : Type 0} where
  -- The first item with the key `k`.
  unfoldable pub find_key : (A → Bytes) → Bytes → List A → Option A
  find_key key k [] = none
  find_key key k (x ∷ xs) = if str_eq (key x) k then some x else find_key key k xs

module _ {A : Type 0} (key : A → Bytes) where
  pub find_key-append :
      (k : Bytes) (xs ys : List A)
      → find_key key k (xs ++ ys) ≡ or_else (find_key key k xs) (find_key key k ys)
  unfolding find_key or_else
  find_key-append k [] ys = refl
  find_key-append k (x ∷ xs) ys = ground (arith, find_key-append k xs ys)

  -- Taking an item out of a place behind an item with the same key changes no search.
  pub find_key-drop :
      (k : Bytes) (xs ys : List A) (b x : A)
      → find_key key (key x) xs ≡ some b
      → find_key key k (xs ++ x ∷ ys) ≡ find_key key k (xs ++ ys)
  unfolding find_key or_else
  find_key-drop k xs ys b x h =
      let left = find_key-append k xs (x ∷ ys) in
      let right = find_key-append k xs ys in
      elim (Bool-cases (str_eq (key x) k)) [
        | inl e ↦
            let same : key x ≡ k = (str_eq_iff (key x) k).0 e in
            let h' : find_key key k xs ≡ some b = rw same at h in rw (left, right, h') refl
        | inr e ↦ rw (left, right, e) refl
      ]

module _ {A : Type 0} (key : A → Bytes) (asc : Bool) where
  abbrev pub AllBehind : Bytes → List A → Type 0
  AllBehind k = All (λ x. IsBefore asc k (key x))

  abbrev pub IsStrict : List A → Type 0
  IsStrict [] = Unit
  IsStrict (x ∷ xs) = AllBehind (key x) xs × IsStrict xs

  pub AllBehind-trans :
      (j k : Bytes) (xs : List A) → IsBefore asc j k → AllBehind k xs → AllBehind j xs
  AllBehind-trans j k [] h hs = tt
  AllBehind-trans j k (x ∷ xs) h (hx, hs) =
      (IsBefore-trans asc j k (key x) h hx, AllBehind-trans j k xs h hs)

  pub find_key-AllBehind : (k : Bytes) (xs : List A) → AllBehind k xs → find_key key k xs ≡ none
  unfolding find_key
  find_key-AllBehind k [] h = refl
  find_key-AllBehind k (x ∷ xs) (h, hs) =
      let ne : str_eq (key x) k ≡ false = str_eq_sym (key x) k ∙ IsBefore-ne asc k (key x) h in
      rw ne (find_key-AllBehind k xs hs)

module _ {A : Type 0} where
  pub contents-append : (xs ys : List (Slot A)) → contents (xs ++ ys) ≡ contents xs ++ contents ys
  contents-append [] ys = refl
  contents-append (x ∷ xs) ys =
      ap (λ r. slot_items x ++ r) (contents-append xs ys)
      ∙ sym (append_assoc (slot_items x) (contents xs) (contents ys))

  pub current_at-append :
      (j : ℕ) (xs ys : List (Slot A)) (c : A)
      → current_at j xs ≡ some c
      → current_at j (xs ++ ys) ≡ some c
  current_at-append j [] ys c h = cc
  current_at-append zero (x ∷ xs) ys c h = h
  current_at-append (suc j) (x ∷ xs) ys c h = current_at-append j xs ys c h

  pub clear_at-append :
      (j : ℕ) (xs ys : List (Slot A)) (c : A)
      → current_at j xs ≡ some c
      → clear_at j (xs ++ ys) ≡ clear_at j xs ++ ys
  unfolding clear_at
  clear_at-append j [] ys c h = cc
  clear_at-append zero (x ∷ xs) ys c h = refl
  clear_at-append (suc j) (x ∷ xs) ys c h = ap (λ r. x ∷ r) (clear_at-append j xs ys c h)

  pub current_at-length :
      (xs : List (Slot A)) (s : Slot A) → current_at (length xs) (xs ++ s ∷ []) ≡ s.current
  current_at-length [] s = refl
  current_at-length (x ∷ xs) s = current_at-length xs s

  pub clear_at-length :
      (xs : List (Slot A)) (s : Slot A)
      → clear_at (length xs) (xs ++ s ∷ []) ≡ xs ++ record s { current = none } ∷ []
  unfolding clear_at
  clear_at-length [] s = refl
  clear_at-length (x ∷ xs) s = ap (λ r. x ∷ r) (clear_at-length xs s)

  -- What holds of an item and of all that is left without it holds of all.
  pub All-clear_at :
      (P : A → Type 0) (j : ℕ) (xs : List (Slot A)) (c : A)
      → current_at j xs ≡ some c
      → P c
      → All P (contents (clear_at j xs))
      → All P (contents xs)
  unfolding clear_at
  All-clear_at P j [] c h p hs = tt
  All-clear_at P zero (x ∷ xs) c h p hs = rw h (p, hs)
  All-clear_at P (suc j) (x ∷ xs) c h p hs =
      let rest = contents (clear_at j xs) in
      All-append P (slot_items x) (contents xs) (All-left P (slot_items x) rest hs)
        (All-clear_at P j xs c h p (All-right P (slot_items x) rest hs))

module _ {A : Type 0} (key : A → Bytes) (asc : Bool) where
  -- An item that comes before all the others is found, and nothing else changes when it is taken out.
  pub find_key-clear_at :
      (k : Bytes) (j : ℕ) (xs : List (Slot A)) (c : A)
      → current_at j xs ≡ some c
      → AllBehind key asc (key c) (contents (clear_at j xs))
      → find_key key k (contents xs)
        ≡ (if str_eq (key c) k then some c else find_key key k (contents (clear_at j xs)))
  unfolding clear_at
  find_key-clear_at k j [] c h hs = cc
  find_key-clear_at k zero (x ∷ xs) c h hs = rw h (unfold find_key in refl)
  find_key-clear_at k (suc j) (x ∷ xs) c h hs =
      let items = slot_items x in
      let rest = contents (clear_at j xs) in
      let before = find_key-append key k items (contents xs) in
      let after = find_key-append key k items rest in
      let P = λ (y : A). IsBefore asc (key c) (key y) in
      let ih = find_key-clear_at k j xs c h (All-right P items rest hs) in
      let none_here = find_key-AllBehind key asc (key c) items (All-left P items rest hs) in
      elim (Bool-cases (str_eq (key c) k)) [
        | inl e ↦
            let same : key c ≡ k = (str_eq_iff (key c) k).0 e in
            let none_k : find_key key k items ≡ none = rw same at none_here in
            rw (before, ih, none_k, e) (unfold or_else in refl)
        | inr e ↦ rw (before, after, ih, e) refl
      ]

module _ {A : Type 0} where
  pub length-clear_at :
      (j : ℕ) (xs : List (Slot A)) (c : A)
      → current_at j xs ≡ some c
      → length (contents xs) ≡ suc (length (contents (clear_at j xs)))
  unfolding clear_at
  length-clear_at j [] c h = cc
  length-clear_at zero (x ∷ xs) c h = rw h refl
  length-clear_at (suc j) (x ∷ xs) c h = omega (
    arith,
    length-clear_at j xs c h,
    length-append (slot_items x) (contents xs),
    length-append (slot_items x) (contents (clear_at j xs)),
  )
