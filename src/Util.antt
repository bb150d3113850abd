-- ===== src/Util.antt =====
-- utils/utils.go, with the small helpers of artifactory/services/utils/artifactoryutils.go: splitting with
-- escapes, the root of a local pattern, and functions on paths, properties and maps.
pub mod Escape
mod Samples
use jfrog_client_go.Base.{
  ℕ, zero, suc, Bool, true, false, ◌&&◌, ◌||◌, not, Option, none, some, List, [], ◌∷◌, ◌++◌, ◌==◌,
  ltb, any, length, take, drop, get_elem?, if◌then◌else◌,
}
use jfrog_client_go.Base.Outcome.{Outcome, panic, ok}
use jfrog_client_go.Base.Text.{
  Bytes, codes, str_eq, has_prefix, has_suffix, ends_with, contains_byte, contains_text, index_byte,
}
use jfrog_client_go.Base.Text.Split.{split_byte, split}
use jfrog_client_go.Base.Text.Replace.{replace_all}
use jfrog_client_go.Placeholders.{Parentheses, is_present}

abbrev slash : ℕ
slash = b'/'

abbrev pub backslash : ℕ
backslash = 92

-- The loop of SplitWithEscape, with the part so far.
unfoldable pub split_escaped : ℕ → Bytes → Bool → Bytes → List Bytes
split_escaped separator current escaped [] = current ∷ []
split_escaped separator current escaped (char ∷ str) = elim (char == backslash) [
  | true ↦ split_escaped separator (if escaped then current ++ char ∷ [] else current) true str
  | false ↦ elim (char == separator && not escaped) [
    | true ↦ current ∷ split_escaped separator [] escaped str
    | false ↦ split_escaped separator (current ++ char ∷ []) false str
  ]
]

unfoldable pub split_with_escape : Bytes → ℕ → List Bytes
unfolding split_escaped
split_with_escape str separator = split_escaped separator [] false str

unfoldable pub add_props : Bytes → Bytes → Bytes
unfolding ends_with
add_props old_props additional_props =
    (if ltb 0 (length old_props)
        && (not (ends_with b';' old_props) && ltb 0 (length additional_props))
      then old_props ++ codes ";"
      else old_props)
    ++ additional_props

unfoldable pub add_trailing_slash_if_needed : Bytes → Bytes
unfolding ends_with str_eq
add_trailing_slash_if_needed url =
    if not (str_eq url []) && not (ends_with slash url) then url ++ codes "/" else url

unfoldable pub remove_repo_from_path : Bytes → Bytes
unfolding index_byte
remove_repo_from_path path = elim (index_byte slash path) [ none ↦ path | some i ↦ drop i path ]

-- An index that strings.Index does not find is `none`.
unfoldable pub should_remove_repo : Bool → Option ℕ → Option ℕ → Bool
should_remove_repo ignore_repo asterisk_index none = false
should_remove_repo ignore_repo none (some slash_index) = ignore_repo
should_remove_repo ignore_repo (some asterisk_index) (some slash_index) =
    ignore_repo && ltb slash_index asterisk_index

unfoldable pub trim_path : Bytes → Bytes
unfolding replace_all
trim_path path = replace_all (codes "./") [] (
    replace_all (codes "../") []
      (replace_all (codes "//") (codes "/") (replace_all (backslash ∷ []) (codes "/") path)))

pub data PatternType : Type 0 where
  wild_card_pattern : PatternType
  reg_exp : PatternType
  ant_pattern : PatternType

pub record PatternTypes : Type 0 where
  pub reg_exp_type : Bool
  pub ant : Bool

unfoldable pub get_pattern_type : PatternTypes → PatternType
get_pattern_type pattern_types =
    if pattern_types.reg_exp_type
    then reg_exp
    else if pattern_types.ant
    then ant_pattern
    else wild_card_pattern

-- `index` counts from behind the last '(', as strings.Index does in the rest of the text.
unfoldable pub wildcard_parentheses_from : List Parentheses → ℕ → Bytes → Bool
unfolding is_present
wildcard_parentheses_from parentheses index [] = false
wildcard_parentheses_from parentheses index (c ∷ str) = elim (c == b'(') [
  | true ↦ is_present parentheses index || wildcard_parentheses_from parentheses 0 str
  | false ↦ wildcard_parentheses_from parentheses (suc index) str
]

unfoldable pub is_wildcard_parentheses : Bytes → List Parentheses → Bool
unfolding wildcard_parentheses_from
is_wildcard_parentheses str parentheses = wildcard_parentheses_from parentheses 0 str

-- The section ends the root path.
unfoldable pub ends_root : PatternType → List Parentheses → Bytes → Bytes → Bool
unfolding contains_byte is_wildcard_parentheses
ends_root reg_exp parentheses root_path section = contains_byte b'(' section
ends_root wild_card_pattern parentheses root_path section =
    contains_byte b'*' section
    || (contains_byte b'(' section && is_wildcard_parentheses (root_path ++ section) parentheses)
ends_root ant_pattern parentheses root_path section =
    contains_byte b'*' section
    || ((contains_byte b'(' section && is_wildcard_parentheses (root_path ++ section) parentheses)
        || contains_byte b'?' section)

-- `home` is what GetUserHomeDir reads from the environment.
module _ (home : Bytes) (pattern_type : PatternType) (parentheses : List Parentheses)
    (separator : Bytes) where
  abbrev pub with_section : Bytes → Bytes → Bytes
  with_section root_path section =
      (if not (str_eq root_path []) then root_path ++ separator else root_path)
      ++ (if str_eq section (codes "~") then home else section)

  unfoldable pub root_from : Bytes → List Bytes → Bytes
  unfolding ends_root str_eq
  root_from root_path [] = root_path
  root_from root_path (section ∷ sections) = elim (str_eq section []) [
    | true ↦ root_from root_path sections
    | false ↦ elim (ends_root pattern_type parentheses root_path section) [
      | true ↦ root_path
      | false ↦ root_from (with_section root_path section) sections
    ]
  ]

-- A path that starts with the separator.
abbrev pub starts_empty : List Bytes → Bool
starts_empty [] = false
starts_empty (section ∷ sections) = str_eq section []

-- The separator and the sections.
unfoldable pub root_sections : Bytes → Bytes × List Bytes
unfolding split_byte split contains_text
root_sections path =
    let sections = split_byte slash path in
    if length sections == 1
    then (
      backslash ∷ [],
      if contains_text (backslash ∷ backslash ∷ []) path
          then split (backslash ∷ backslash ∷ []) path
          else split_byte backslash path,
    )
    else (slash ∷ [], sections)

unfoldable pub get_root_path : Bytes → Bytes → PatternType → List Parentheses → Bytes
unfolding root_from root_sections
get_root_path home path pattern_type parentheses =
    let (separator, sections) = root_sections path in
    let found = root_from home pattern_type parentheses separator [] sections in
    let root_path = if starts_empty sections then separator ++ found else found in
    if str_eq root_path [] then codes "." else root_path

unfoldable pub replace_tilde_with_user_home : Bytes → Bytes → Bytes
replace_tilde_with_user_home home [] = []
replace_tilde_with_user_home home (c ∷ []) = c ∷ []
replace_tilde_with_user_home home (c ∷ d ∷ path) =
    if c == b'~' then home ++ d ∷ path else c ∷ d ∷ path

-- A Go map from strings is a function, whose `none` is a missing key.
abbrev pub StringMap : Type 0
StringMap = Bytes → Option Bytes

unfoldable pub merge_maps : StringMap → StringMap → StringMap
merge_maps src dst key = elim (src key) [ some value ↦ some value | none ↦ dst key ]

unfoldable pub copy_map : StringMap → StringMap
unfolding merge_maps
copy_map src = merge_maps src (λ key. none)

-- artifactoryutils.go

unfoldable pub add_header : Bytes → Bytes → StringMap → StringMap
unfolding str_eq
add_header header_name header_value headers key =
    if str_eq header_name key then some header_value else headers key

pub record Checksum : Type 0 where
  pub sha1 : Bytes
  pub md5 : Bytes
  pub sha256 : Bytes

unfoldable pub add_checksum_headers : StringMap → Checksum → StringMap
unfolding add_header
add_checksum_headers headers checksum =
    let both =
      add_header (codes "X-Checksum-Md5") checksum.md5
        (add_header (codes "X-Checksum-Sha1") checksum.sha1 headers) in
    if ltb 0 (length checksum.sha256)
    then add_header (codes "X-Checksum") checksum.sha256 both
    else both

unfoldable pub is_wildcard_pattern : Bytes → Bool
unfolding contains_byte ends_with
is_wildcard_pattern pattern =
    contains_byte b'*' pattern || (ends_with slash pattern || not (contains_byte slash pattern))

unfoldable pub get_project_query_param : Bytes → Bytes
unfolding str_eq
get_project_query_param project_key =
    if str_eq project_key [] then [] else codes "?project=" ++ project_key

unfoldable pub is_sub_path : List Bytes → ℕ → Bytes → Outcome Bool
unfolding has_suffix has_prefix
is_sub_path paths index separator = elim (get_elem? paths index) [
  | none ↦ panic
  | some path ↦
      let current_path = if not (has_suffix separator path) then path ++ separator else path in
      ok (any (take index paths) (λ p. has_prefix current_path p))
]

unfoldable pub has_prefix_in : List Bytes → Bytes → Bool
unfolding has_prefix
has_prefix_in paths prefix = any paths (λ p. has_prefix prefix p)
