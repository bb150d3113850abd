-- ===== src/Placeholders.antt =====
-- utils/parenthesesutils.go: which parentheses of a file-spec pattern stand for placeholders {1},
-- {2}, … of the target, and the pattern with them removed or the others escaped.
pub mod Pairs
pub mod Braces
pub mod Values
pub mod Select
pub mod Rewrite
mod Samples
use jfrog_client_go.Base.{
  ℕ, zero, suc, ◌+◌, ◌-◌, ◌*◌, Bool, true, false, ◌&&◌, ◌||◌, not, Option, none, some, List, [],
  ◌∷◌, ◌++◌, ◌==◌, if◌then◌else◌, ltb, leb, length, get_elem?, keep,
}
use jfrog_client_go.Base.Outcome.{Outcome, ok, panic, ◌>>=◌}
use jfrog_client_go.Base.Int.{ℤ, pos, negsuc, ltb_ℤ, eq_ℤ}
use jfrog_client_go.Base.Text.{Bytes, str_eq}

abbrev pub open_paren : ℕ
open_paren = b'('

abbrev pub close_paren : ℕ
close_paren = b')'

pub record Parentheses : Type 0 where
  pub open_index : ℕ
  pub close_index : ℕ

-- `p.IsPresent(index)`
unfoldable pub is_present : List Parentheses → ℕ → Bool
is_present [] index = false
is_present (v ∷ vs) index = v.open_index == index || v.close_index == index || is_present vs index

-- The inner loop, from the last entry down: the last pair that is still open (its close index is 0)
-- is closed at `i`. `none` is a loop that found no open pair.
unfoldable pub close_last : ℕ → List Parentheses → Option (List Parentheses)
close_last i [] = none
close_last i (v ∷ vs) = elim (close_last i vs) [
  | some vs' ↦ some (v ∷ vs')
  | none ↦ if v.close_index == 0 then some (record v { close_index = i } ∷ vs) else none
]

unfoldable pub close_at : ℕ → List Parentheses → List Parentheses
unfolding close_last
close_at i vs = elim (close_last i vs) [ some vs' ↦ vs' | none ↦ vs ]

-- One round of the loop over the pattern: `i` is the index of the byte.
unfoldable pub scan_step : ℕ → ℕ → List Parentheses → List Parentheses
unfolding close_at
scan_step i c found =
    if c == open_paren
    then found ++ record { open_index = i; close_index = 0 } ∷ []
    else if c == close_paren
    then close_at i found
    else found

unfoldable pub scan : ℕ → Bytes → List Parentheses → List Parentheses
unfolding scan_step
scan i [] found = found
scan i (c ∷ s) found = scan (suc i) s (scan_step i c found)

-- Open parentheses without a closing one are dropped.
unfoldable pub get_all_parentheses : Bytes → List Parentheses
unfolding scan
get_all_parentheses pattern = keep (λ v. not (v.close_index == 0)) (scan 0 pattern [])

-- What the regular expression {([^}]*)} captures: from a brace to the next closing brace. `inside` is
-- the text since the open brace, if one is open.
unfoldable pub placeholder_texts : Option Bytes → Bytes → List Bytes
placeholder_texts inside [] = []
placeholder_texts none (c ∷ s) = placeholder_texts (if c == b'{' then some [] else none) s
placeholder_texts (some t) (c ∷ s) = elim (c == b'}') [
  | true ↦ t ∷ placeholder_texts none s
  | false ↦ placeholder_texts (some (t ++ c ∷ [])) s
]

-- The digits of strconv.Atoi, without a bound. `none` is a byte that is no digit.
unfoldable pub digits_value : ℕ → Bytes → Option ℕ
digits_value n [] = some n
digits_value n (c ∷ s) =
    if leb b'0' c && leb c b'9' then digits_value (n * 10 + (c - b'0')) s else none

abbrev pub max_int : ℕ
max_int = 9223372036854775807

-- The magnitude with its sign, within 64 bits.
unfoldable pub signed_value : Bool → Bytes → Option ℤ
unfolding digits_value
signed_value negative [] = none
signed_value negative (c ∷ s) = elim (digits_value 0 (c ∷ s)) [
  | none ↦ none
  | some zero ↦ some (pos 0)
  | some (suc n) ↦
      if negative
      then if leb n max_int then some (negsuc n) else none
      else if leb (suc n) max_int
      then some (pos (suc n))
      else none
]

-- strconv.Atoi: `none` is an error.
unfoldable pub atoi : Bytes → Option ℤ
unfolding signed_value
atoi [] = none
atoi (c ∷ s) =
    if c == b'-'
    then signed_value true s
    else if c == b'+'
    then signed_value false s
    else signed_value false (c ∷ s)

unfoldable pub numbers : List Bytes → List ℤ
unfolding atoi
numbers [] = []
numbers (t ∷ ts) = elim (atoi t) [ some n ↦ n ∷ numbers ts | none ↦ numbers ts ]

-- sort.Ints
unfoldable pub insert_int : ℤ → List ℤ → List ℤ
unfolding ltb_ℤ
insert_int n [] = n ∷ []
insert_int n (m ∷ ms) = if ltb_ℤ m n then m ∷ insert_int n ms else n ∷ m ∷ ms

unfoldable pub sort_ints : List ℤ → List ℤ
unfolding insert_int
sort_ints [] = []
sort_ints (n ∷ ns) = insert_int n (sort_ints ns)

-- The loop of sortNoDuplicates: `last` is the item at `j`.
unfoldable pub skip_equal : ℤ → List ℤ → List ℤ
unfolding eq_ℤ
skip_equal last [] = last ∷ []
skip_equal last (n ∷ ns) = if eq_ℤ last n then skip_equal last ns else last ∷ skip_equal n ns

-- A slice that is sorted, its equal neighbours dropped.
unfoldable pub drop_equal : List ℤ → List ℤ
unfolding skip_equal
drop_equal [] = []
drop_equal (m ∷ ms) = skip_equal m ms

-- Called with a slice that is not empty.
unfoldable pub sort_no_duplicates : List ℤ → List ℤ
unfolding sort_ints drop_equal
sort_no_duplicates ns = drop_equal (sort_ints ns)

unfoldable pub get_place_holders_values : Bytes → List ℤ
unfolding placeholder_texts numbers sort_no_duplicates
get_place_holders_values target = sort_no_duplicates (numbers (placeholder_texts none target))

-- `parentheses[value-1]` under the guard `len(parentheses) > value-1`; an index below 0 panics. At the
-- least int, `value-1` wraps around to the greatest, which the guard passes over.
unfoldable pub select_parentheses : List Parentheses → List ℤ → Outcome (List Parentheses)
select_parentheses ps [] = ok []
select_parentheses ps (negsuc n ∷ values) =
    let rest = select_parentheses ps values in if n == max_int then rest else panic
select_parentheses ps (pos zero ∷ values) = panic
select_parentheses ps (pos (suc n) ∷ values) = elim (get_elem? ps n) [
  | none ↦ select_parentheses ps values
  | some v ↦ do rest ← select_parentheses ps values; ok (v ∷ rest)
]

unfoldable pub find_parentheses : Bytes → Bytes → Outcome (List Parentheses)
unfolding get_all_parentheses get_place_holders_values select_parentheses
find_parentheses pattern target =
    select_parentheses (get_all_parentheses pattern) (get_place_holders_values target)

abbrev pub is_paren : ℕ → Bool
is_paren c = c == open_paren || c == close_paren

-- The loop of RemovePlaceholderParentheses from index `i` on.
unfoldable pub drop_present : List Parentheses → ℕ → Bytes → Bytes
unfolding is_present
drop_present ps i [] = []
drop_present ps i (c ∷ s) =
    let rest = drop_present ps (suc i) s in if is_paren c && is_present ps i then rest else c ∷ rest

unfoldable pub remove_placeholder_parentheses : Bytes → Bytes → Outcome Bytes
unfolding find_parentheses drop_present
remove_placeholder_parentheses pattern target = do
  ps ← find_parentheses pattern target
  ok (drop_present ps 0 pattern)

unfoldable pub is_placeholders_used : Bytes → Bytes → Outcome Bool
unfolding remove_placeholder_parentheses str_eq
is_placeholders_used pattern target = do
  removed ← remove_placeholder_parentheses pattern target
  ok (not (str_eq removed target))

-- The loop of AddEscapingParentheses from index `i` on.
unfoldable pub escape_absent : List Parentheses → List Parentheses → ℕ → Bytes → Bytes
unfolding is_present
escape_absent ps qs i [] = []
escape_absent ps qs i (c ∷ s) =
    let rest = escape_absent ps qs (suc i) s in
    if is_paren c && not (is_present ps i) && not (is_present qs i) then 92 ∷ c ∷ rest else c ∷ rest

unfoldable pub add_escaping_parentheses : Bytes → Bytes → Bytes → Outcome Bytes
unfolding find_parentheses escape_absent
add_escaping_parentheses pattern target target_path_in_archive = do
  ps ← find_parentheses pattern target
  qs ← find_parentheses pattern target_path_in_archive
  ok (escape_absent ps qs 0 pattern)
