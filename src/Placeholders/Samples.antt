-- ===== src/Placeholders/Samples.antt =====
-- Runs of the placeholders' functions, and the theorems at inputs that meet their hypotheses.
use jfrog_client_go.Base.{◌≡◌, refl, not, false, ◌↔◌, [], ◌∷◌, All, Elem, arith}
use jfrog_client_go.Base.Text.{Bytes, codes, str_eq}
use jfrog_client_go.Base.Int.{ℤ}
use jfrog_client_go.Base.Outcome.{ok, panic}
use jfrog_client_go.Placeholders.{
  Parentheses, get_all_parentheses, get_place_holders_values, find_parentheses,
  remove_placeholder_parentheses, add_escaping_parentheses, is_placeholders_used,
}
use jfrog_client_go.Placeholders.Pairs.{IsPair, get_all_parentheses-IsPair}
use jfrog_client_go.Placeholders.Values.{Ascending, IsNumberOf, get_place_holders_values_lem}
use jfrog_client_go.Placeholders.Select.{
  IsBelowOne, IsNamed, find_parentheses-panic, find_parentheses-IsNamed,
}
use jfrog_client_go.Placeholders.Rewrite.{
  IsErased, IsPlaceholderParen, without_backslashes, remove_placeholder_parentheses_lem,
  add_escaping_parentheses_lem, is_placeholders_used_unused, strip, strip-add_escaping_parentheses,
}

abbrev pattern_text : Bytes
pattern_text = codes "(a)/(b)/c)"

removes_first : remove_placeholder_parentheses pattern_text (codes "t/{1}") ≡ ok (codes "a/(b)/c)")
unfolding remove_placeholder_parentheses
removes_first = refl

escapes_others :
    add_escaping_parentheses pattern_text (codes "t/{1}") [] ≡ ok (codes "(a)/\\(b\\)/c\\)")
unfolding add_escaping_parentheses
escapes_others = refl

zero_panics : find_parentheses pattern_text (codes "t/{0}") ≡ panic
unfolding find_parentheses
zero_panics = refl

get_all_parentheses-IsPair_example : All (IsPair pattern_text) (get_all_parentheses pattern_text)
get_all_parentheses-IsPair_example = get_all_parentheses-IsPair pattern_text

get_place_holders_values_lem_example :
    Ascending (get_place_holders_values (codes "{3}/{1}/{3}"))
    × ((n : ℤ)
        → Elem n (get_place_holders_values (codes "{3}/{1}/{3}"))
          ↔ IsNumberOf (codes "{3}/{1}/{3}") n)
get_place_holders_values_lem_example = get_place_holders_values_lem (codes "{3}/{1}/{3}")

find_parentheses-panic_example :
    (find_parentheses pattern_text (codes "t/{0}") ≡ panic)
    ↔ ((n : ℤ) × IsNumberOf (codes "t/{0}") n × IsBelowOne n)
find_parentheses-panic_example = find_parentheses-panic pattern_text (codes "t/{0}")

least_int : find_parentheses pattern_text (codes "t/{-9223372036854775808}") ≡ ok []
unfolding find_parentheses
least_int = refl

abbrev first_pair : Parentheses
first_pair = record { open_index = 0; close_index = 2 }

find_parentheses-IsNamed_example :
    (Elem first_pair (first_pair ∷ []) ↔ IsNamed pattern_text (codes "t/{1}") first_pair)
    × (Elem first_pair (first_pair ∷ []) → IsPair pattern_text first_pair)
unfolding find_parentheses
find_parentheses-IsNamed_example =
    find_parentheses-IsNamed pattern_text (codes "t/{1}") (first_pair ∷ []) refl first_pair

remove_placeholder_parentheses_lem_example :
    IsErased (IsPlaceholderParen pattern_text (codes "t/{1}")) 0 pattern_text (codes "a/(b)/c)")
remove_placeholder_parentheses_lem_example =
    remove_placeholder_parentheses_lem pattern_text (codes "t/{1}") (codes "a/(b)/c)") removes_first

add_escaping_parentheses_lem_example : without_backslashes (codes "(a)/\\(b\\)/c\\)") ≡ pattern_text
add_escaping_parentheses_lem_example =
    add_escaping_parentheses_lem pattern_text (codes "t/{1}") [] (codes "(a)/\\(b\\)/c\\)")
      (omega arith) escapes_others

first_found :
    find_parentheses pattern_text (codes "t/{1}")
    ≡ ok (record { open_index = 0; close_index = 2 } ∷ [])
unfolding find_parentheses
first_found = refl

strip-add_escaping_parentheses_example :
    (escaped : Bytes) × ((removed : Bytes) × ((add_escaping_parentheses pattern_text
            (codes "t/{1}")
            []
          ≡ ok escaped)
        × (remove_placeholder_parentheses pattern_text (codes "t/{1}") ≡ ok removed)
        × (strip false escaped ≡ removed)))
strip-add_escaping_parentheses_example =
    strip-add_escaping_parentheses pattern_text (codes "t/{1}")
      (record { open_index = 0; close_index = 2 } ∷ []) (omega arith) first_found

is_placeholders_used_unused_example :
    is_placeholders_used (codes "a/b") (codes "c") ≡ ok (not (str_eq (codes "a/b") (codes "c")))
unfolding find_parentheses
is_placeholders_used_unused_example = is_placeholders_used_unused (codes "a/b") (codes "c") refl
