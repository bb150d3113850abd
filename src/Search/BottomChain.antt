-- ===== src/Search/BottomChain.antt =====
-- FilterBottomChainResults drops only folders that lead to an entry that it keeps.
use jfrog_client_go.Base.{◌≡◌, Bool, true, false, not, ◌||◌, List, [], ◌⊎◌, Elem}
use jfrog_client_go.Base.Text.{Bytes, str_eq, has_prefix}
use jfrog_client_go.Search.{ResultItem, is_dot, bottom_path}

-- The item stands in the result, or its path leads to an entry of the result.
abbrev pub LeadsTo : List ResultItem → ResultItem → Type 0
LeadsTo result item =
    Elem item result
    ⊎ ((entry : ResultItem) × Elem entry result
        × (has_prefix (bottom_path item) (bottom_path entry) ≡ true))

abbrev LeadsToLast : Bytes → ResultItem → Type 0
LeadsToLast temp item = (str_eq temp [] ≡ false) × (has_prefix (bottom_path item) temp ≡ true)

abbrev is_kept : Bytes → ResultItem → Bool
is_kept temp item = str_eq temp [] || not (has_prefix (bottom_path item) temp)

abbrev Place : Bytes → List ResultItem → ResultItem → Type 0
Place temp result item = (is_dot item ≡ true) ⊎ (LeadsTo result item ⊎ LeadsToLast temp item)
