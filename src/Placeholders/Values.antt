-- ===== src/Placeholders/Values.antt =====
-- The placeholder values of a target: the integers between its braces, sorted, without duplicates.
use jfrog_client_go.Base.{
  ◌≡◌, refl, sym, ap, ◌∙◌, true, false, none, some, List, [], ◌∷◌, ◌↔◌, ◌⊎◌, inl, inr, All, Elem,
  arith, Bool-cases, Option-cases,
}
use jfrog_client_go.Base.Text.{Bytes}
use jfrog_client_go.Base.Int.{ℤ, ltb_ℤ, eq_ℤ}
use jfrog_client_go.Placeholders.Braces.{IsBetweenBraces, Elem-placeholder_texts}
use jfrog_client_go.Placeholders.{
  atoi, numbers, placeholder_texts, insert_int, sort_ints, skip_equal, drop_equal,
  sort_no_duplicates, get_place_holders_values,
}

eq_ℤ_iff : (a b : ℤ) → (eq_ℤ a b ≡ true) ↔ (a ≡ b)
unfolding eq_ℤ
eq_ℤ_iff a b = ground arith

Elem-insert_int : (a n : ℤ) (ms : List ℤ) → Elem a (insert_int n ms) ↔ ((a ≡ n) ⊎ Elem a ms)
unfolding insert_int
Elem-insert_int a n [] = ground arith
Elem-insert_int a n (m ∷ ms) = ground (arith, Elem-insert_int a n ms)

Elem-sort_ints : (a : ℤ) (ns : List ℤ) → Elem a (sort_ints ns) ↔ Elem a ns
unfolding sort_ints
Elem-sort_ints a [] = (λ h. h, λ h. h)
Elem-sort_ints a (n ∷ ns) = ground (arith, Elem-insert_int a n (sort_ints ns), Elem-sort_ints a ns)

Elem-skip_equal : (a m : ℤ) (ns : List ℤ) → Elem a (skip_equal m ns) ↔ ((a ≡ m) ⊎ Elem a ns)
unfolding skip_equal
Elem-skip_equal a m [] = ground arith
Elem-skip_equal a m (n ∷ ns) =
    ground (arith, eq_ℤ_iff m n, Elem-skip_equal a m ns, Elem-skip_equal a n ns)

Elem-drop_equal : (a : ℤ) (ns : List ℤ) → Elem a (drop_equal ns) ↔ Elem a ns
unfolding drop_equal
Elem-drop_equal a [] = (λ h. h, λ h. h)
Elem-drop_equal a (m ∷ ms) = Elem-skip_equal a m ms

Elem-sort_no_duplicates : (a : ℤ) (ns : List ℤ) → Elem a (sort_no_duplicates ns) ↔ Elem a ns
unfolding sort_no_duplicates
Elem-sort_no_duplicates a ns = ground (arith, Elem-drop_equal a (sort_ints ns), Elem-sort_ints a ns)

-- Each value is below all that follow it.
abbrev pub Ascending : List ℤ → Type 0
Ascending [] = Unit
Ascending (n ∷ ns) = All (λ m. ltb_ℤ n m ≡ true) ns × Ascending ns

-- Each value is at most all that follow it.
abbrev Weakly : List ℤ → Type 0
Weakly [] = Unit
Weakly (n ∷ ns) = All (λ m. ltb_ℤ m n ≡ false) ns × Weakly ns

All-insert_int : (P : ℤ → Type 0) (n : ℤ) (ms : List ℤ) → P n → All P ms → All P (insert_int n ms)
unfolding insert_int
All-insert_int P n [] h hs = (h, tt)
All-insert_int P n (m ∷ ms) h hs = elim (Bool-cases (ltb_ℤ m n)) [
  | inl e ↦ rw e (hs.0, All-insert_int P n ms h hs.1)
  | inr e ↦ rw e (h, hs)
]

ltb_ℤ_asymm : (a b : ℤ) → ltb_ℤ a b ≡ true → ltb_ℤ b a ≡ false
unfolding ltb_ℤ
ltb_ℤ_asymm a b h = ground arith

le_ℤ_trans : (a b c : ℤ) → ltb_ℤ b a ≡ false → ltb_ℤ c b ≡ false → ltb_ℤ c a ≡ false
unfolding ltb_ℤ
le_ℤ_trans a b c h k = ground arith

lt_ℤ_of_le_ne : (a b : ℤ) → ltb_ℤ b a ≡ false → eq_ℤ a b ≡ false → ltb_ℤ a b ≡ true
unfolding ltb_ℤ eq_ℤ
lt_ℤ_of_le_ne a b h k = ground arith

lt_ℤ_le_trans : (a b c : ℤ) → ltb_ℤ a b ≡ true → ltb_ℤ c b ≡ false → ltb_ℤ a c ≡ true
unfolding ltb_ℤ
lt_ℤ_le_trans a b c h k = ground arith

All-weaken : (P Q : ℤ → Type 0) (ns : List ℤ) → ((n : ℤ) → P n → Q n) → All P ns → All Q ns
All-weaken P Q [] f h = tt
All-weaken P Q (n ∷ ns) f (h, hs) = (f n h, All-weaken P Q ns f hs)

insert_int-Weakly : (n : ℤ) (ms : List ℤ) → Weakly ms → Weakly (insert_int n ms)
unfolding insert_int
insert_int-Weakly n [] h = (tt, tt)
insert_int-Weakly n (m ∷ ms) (h, hs) = elim (Bool-cases (ltb_ℤ m n)) [
  | inl e ↦ rw e (All-insert_int _ n ms (ltb_ℤ_asymm m n e) h, insert_int-Weakly n ms hs)
  | inr e ↦ rw e ((e, All-weaken _ _ ms (λ k. le_ℤ_trans n m k e) h), (h, hs))
]

sort_ints-Weakly : (ns : List ℤ) → Weakly (sort_ints ns)
unfolding sort_ints
sort_ints-Weakly [] = tt
sort_ints-Weakly (n ∷ ns) = insert_int-Weakly n (sort_ints ns) (sort_ints-Weakly ns)

-- What is left after skipping lies above every bound of what was there.
All-skip_equal : (P : ℤ → Type 0) (m : ℤ) (ns : List ℤ) → P m → All P ns → All P (skip_equal m ns)
unfolding skip_equal
All-skip_equal P m [] h hs = (h, tt)
All-skip_equal P m (n ∷ ns) h hs = elim (Bool-cases (eq_ℤ m n)) [
  | inl e ↦ rw e (All-skip_equal P m ns h hs.1)
  | inr e ↦ rw e (h, All-skip_equal P n ns hs.0 hs.1)
]

skip_equal-Ascending :
    (m : ℤ) (ns : List ℤ)
    → All (λ n. ltb_ℤ n m ≡ false) ns
    → Weakly ns
    → Ascending (skip_equal m ns)
unfolding skip_equal
skip_equal-Ascending m [] h w = (tt, tt)
skip_equal-Ascending m (n ∷ ns) (h, hs) (w, ws) = elim (Bool-cases (eq_ℤ m n)) [
  | inl e ↦ rw e (skip_equal-Ascending m ns hs ws)
  | inr e ↦
      let below : ltb_ℤ m n ≡ true = lt_ℤ_of_le_ne m n h e in
      rw e (
        All-skip_equal _ n ns below (All-weaken _ _ ns (λ k. lt_ℤ_le_trans m n k below) w),
        skip_equal-Ascending n ns w ws,
      )
]

drop_equal-Ascending : (ns : List ℤ) → Weakly ns → Ascending (drop_equal ns)
unfolding drop_equal
drop_equal-Ascending [] h = tt
drop_equal-Ascending (m ∷ ms) (h, hs) = skip_equal-Ascending m ms h hs

-- The number stands between braces in the target, as a text that strconv.Atoi reads.
abbrev pub IsNumberOf : Bytes → ℤ → Type 0
IsNumberOf target n = (t : Bytes) × IsBetweenBraces t target × (atoi t ≡ some n)

-- No text is passed over but those that are no integer.
Elem-numbers :
    (n : ℤ) (ts : List Bytes) → Elem n (numbers ts) ↔ ((t : Bytes) × Elem t ts × (atoi t ≡ some n))
unfolding numbers
Elem-numbers n [] = (λ h. absurd h, λ (t, e, h). absurd e)
Elem-numbers n (u ∷ ts) = elim (Option-cases (atoi u)) [
  | inl none_there ↦
      rw (none_there, numbers)
        (
          λ h. let (t, e, k) = (Elem-numbers n ts).0 h in (t, inr e, k),
          λ (t, e, k). elim e [
            | inl same ↦ absurd (let wrong = sym none_there ∙ ap atoi (sym same) ∙ k in cc)
            | inr there ↦ (Elem-numbers n ts).1 (t, there, k)
          ],
        )
  | inr (m, found) ↦
      rw (found, numbers)
        (
          λ h. elim h [
            | inl same ↦ (u, inl refl, found ∙ ap some (sym same))
            | inr there ↦ let (t, e, k) = (Elem-numbers n ts).0 there in (t, inr e, k)
          ],
          λ (t, e, k). elim e [
            | inl same ↦
                let both : some n ≡ some m = sym k ∙ ap atoi same ∙ found in inl (ground arith)
            | inr there ↦ inr ((Elem-numbers n ts).1 (t, there, k))
          ],
        )
]

-- The values are the integers of 64 bits that stand between braces in the target, in ascending order
-- and each once; a text between braces that is no such integer is passed over.
pub get_place_holders_values_lem :
    (target : Bytes)
    → Ascending (get_place_holders_values target)
      × ((n : ℤ) → Elem n (get_place_holders_values target) ↔ IsNumberOf target n)
unfolding get_place_holders_values sort_no_duplicates
get_place_holders_values_lem target = (
  drop_equal-Ascending _ (sort_ints-Weakly (numbers (placeholder_texts none target))),
  λ n.
      let once = Elem-sort_no_duplicates n (numbers (placeholder_texts none target)) in
      let number = Elem-numbers n (placeholder_texts none target) in
      (
        λ h. let (t, e, k) = number.0 (once.0 h) in (t, (Elem-placeholder_texts t target).0 e, k),
        λ (t, b, k). once.1 (number.1 (t, (Elem-placeholder_texts t target).1 b, k)),
      ),
)
