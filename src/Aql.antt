-- ===== src/Aql.antt =====
-- artifactory/services/utils/repopathfile.go: the triples of repository, path and name that a search
-- pattern is broken into for an AQL query.
pub mod Triples
pub mod Plain
pub mod Query
pub mod Fields
pub mod Body
pub mod Builds
mod Samples
use jfrog_client_go.Base.{
  ℕ, zero, suc, ◌+◌, Bool, true, false, ◌&&◌, ◌||◌, not, Option, none, some, List, [], ◌∷◌, ◌++◌,
  if◌then◌else◌, ltb, ◌==◌, take, drop, length, get_elem?,
}
use jfrog_client_go.Base.Outcome.{Outcome, ok, err, panic, ◌>>=◌}
use jfrog_client_go.Base.Text.{
  Bytes, codes, str_eq, has_prefix, ends_with, index_byte, last_index_byte, count_byte, trim_prefix,
}
use jfrog_client_go.Base.Text.Split.{split_byte}

abbrev pub slash : ℕ
slash = b'/'

abbrev pub asterisk : ℕ
asterisk = b'*'

pub record RepoPathFile : Type 0 where
  pub repo : Bytes
  pub path : Bytes
  pub file : Bytes

unfoldable pub get_default_path : Bool → Bytes
get_default_path recursive = if recursive then codes "*" else codes "."

-- (path, name, triples), by the index of the last slash
unfoldable pub cut_at_slash : Bytes → Bytes → Bool → Option ℕ → Bytes × Bytes × List RepoPathFile
cut_at_slash repo pattern recursive none = (
  [],
  pattern,
  if recursive && has_prefix (codes "*") pattern
      then []
      else record { repo = repo; path = codes "."; file = pattern } ∷ [],
)
cut_at_slash repo pattern recursive (some slash_index) =
    let path = take slash_index pattern in
    let name = drop (suc slash_index) pattern in
    (path, name, record { repo = repo; path = path; file = name } ∷ [])

unfoldable pub handle_non_recursive_triples :
    Bytes → Bytes → Bool → Bytes × Bytes × List RepoPathFile
unfolding cut_at_slash last_index_byte
handle_non_recursive_triples repo pattern recursive =
    cut_at_slash repo pattern recursive (last_index_byte slash pattern)

-- The inner loop: the parts joined by "*", with "*/" after part `i`; `j` is the next part's number.
unfoldable pub cut_after : ℕ → ℕ → List Bytes → Bytes
cut_after i j [] = []
cut_after i j (name_part ∷ rest) =
    (if ltb 0 j then codes "*" else [])
    ++ ((if j == i then name_part ++ codes "*/" else name_part) ++ cut_after i (suc j) rest)

-- path += "/" where it is not empty and has none at its end
unfoldable pub with_slash : Bytes → Bytes
unfolding str_eq ends_with
with_slash path =
    if not (str_eq path []) && not (ends_with slash path) then path ++ codes "/" else path

-- slashSplit[0] and slashSplit[1] as a triple
unfoldable pub split_triple : Bytes → Bytes → List Bytes → Outcome RepoPathFile
unfolding str_eq
split_triple repo path (file_path ∷ file_name ∷ rest) = ok (record {
  repo = repo;
  path = path ++ file_path;
  file = if str_eq file_name [] then codes "*" else file_name;
})
split_triple repo path (file_path ∷ []) = panic
split_triple repo path [] = panic

-- The outer loop with `left` rounds to come, from part `i` on.
unfoldable pub cut_pairs : Bytes → Bytes → List Bytes → ℕ → ℕ → Outcome (List RepoPathFile)
unfolding with_slash split_triple cut_after split_byte
cut_pairs repo path name_split zero i = ok []
cut_pairs repo path name_split (suc left) i = do
  triple ← split_triple repo (with_slash path) (split_byte slash (cut_after i 0 name_split))
  rest ← cut_pairs repo (with_slash path) name_split left (suc i)
  ok (triple ∷ rest)

-- len(s)-1 rounds, none where that is negative
unfoldable pub rounds : List Bytes → ℕ
rounds [] = 0
rounds (part ∷ parts) = length parts

-- What follows handleNonRecursiveTriples.
unfoldable pub recursive_pairs :
    Bytes → Bool → Bytes × Bytes × List RepoPathFile → Outcome (List RepoPathFile)
unfolding cut_pairs rounds
recursive_pairs repo recursive (path, name, triples) =
    let name_split = split_byte asterisk name in
    if not recursive
    then ok triples
    else if str_eq name (codes "*")
    then ok (triples ++ record { repo = repo; path = path ++ codes "/*"; file = codes "*" } ∷ [])
    else (cut_pairs repo path name_split (rounds name_split) 0 >>= λ more. ok (triples ++ more))

unfoldable pub create_path_file_pairs : Bytes → Bytes → Bool → Outcome (List RepoPathFile)
unfolding get_default_path handle_non_recursive_triples recursive_pairs
create_path_file_pairs repo pattern recursive =
    if str_eq pattern (codes "*")
    then ok (record { repo = repo; path = get_default_path recursive; file = codes "*" } ∷ [])
    else recursive_pairs repo recursive (handle_non_recursive_triples repo pattern recursive)

-- asteriskRegexp.FindAllStringIndex: the offsets of the asterisks, from `at` on.
unfoldable pub asterisk_indices : ℕ → Bytes → List ℕ
asterisk_indices at [] = []
asterisk_indices at (c ∷ s) =
    if c == asterisk then at ∷ asterisk_indices (suc at) s else asterisk_indices (suc at) s

-- IsSlashPrecedeAsterisk; `none` is the index -1.
unfoldable pub is_slash_precede_asterisk : ℕ → Option ℕ → Bool
is_slash_precede_asterisk asterisk_index none = false
is_slash_precede_asterisk asterisk_index (some slash_index) = ltb slash_index asterisk_index

-- '*<pattern>' without the '*/' that would force one more folder.
unfoldable pub repo_wildcard_pattern : Bytes → Bytes
unfolding count_byte trim_prefix has_prefix
repo_wildcard_pattern new_pattern =
    let trimmed = trim_prefix (codes "*/") new_pattern in
    if ltb 1 (count_byte slash new_pattern) || ltb 1 (count_byte asterisk new_pattern)
    then (if has_prefix (codes "*") trimmed then trimmed else asterisk ∷ trimmed)
    else new_pattern

-- The loop over the asterisks before the first slash: the triples, and lastRepoAsteriskIndex.
unfoldable pub repo_wildcards :
    Bytes → Option ℕ → Bool → List ℕ → ℕ → Outcome (List RepoPathFile × ℕ)
unfolding is_slash_precede_asterisk create_path_file_pairs repo_wildcard_pattern
repo_wildcards pattern first_slash recursive [] last = ok ([], last)
repo_wildcards pattern first_slash recursive (at ∷ more) last =
    let rest = repo_wildcards pattern first_slash recursive more (suc at) in
    let pairs =
      create_path_file_pairs (take (suc at) pattern) (repo_wildcard_pattern (drop at pattern))
        recursive in
    if is_slash_precede_asterisk at first_slash
    then ok ([], last)
    else (pairs >>= λ these. rest >>= λ r. ok (these ++ r.0, r.1))

-- The characters between the last asterisk and the first slash, or the end.
unfoldable pub last_repo_part : Bytes → Option ℕ → Bool → ℕ → Outcome (List RepoPathFile)
unfolding create_path_file_pairs ends_with
last_repo_part pattern (some slash_index) recursive last =
    if ltb last slash_index
    then create_path_file_pairs (take slash_index pattern) (drop (suc slash_index) pattern)
        recursive
    else ok []
last_repo_part pattern none recursive last =
    if not (ends_with asterisk pattern)
    then create_path_file_pairs pattern (codes "*") recursive
    else ok []

abbrev pub pattern_error : Bytes
pattern_error =
    codes "a pattern of a path in Artifactory must start with a repository name or an asterisk (*)"

-- The repository is one name: it has no wildcard.
unfoldable pub is_single_repo : List ℕ → Option ℕ → Bool
unfolding is_slash_precede_asterisk
is_single_repo [] first_slash = true
is_single_repo (at ∷ more) first_slash = is_slash_precede_asterisk at first_slash

-- The index is 0.
unfoldable pub at_zero : Option ℕ → Bool
at_zero none = false
at_zero (some i) = i == 0

unfoldable pub many_repos : Bytes → Option ℕ → Bool → Outcome (List RepoPathFile)
unfolding repo_wildcards last_repo_part asterisk_indices
many_repos pattern first_slash recursive = do
  found ← repo_wildcards pattern first_slash recursive (asterisk_indices 0 pattern) 0
  last ← last_repo_part pattern first_slash recursive found.1
  ok (found.0 ++ last)

unfoldable pub one_repo : Bytes → Option ℕ → Bool → Outcome (List RepoPathFile)
unfolding create_path_file_pairs
one_repo pattern none recursive = create_path_file_pairs pattern (codes "*") recursive
one_repo pattern (some slash_index) recursive =
    create_path_file_pairs (take slash_index pattern) (drop (suc slash_index) pattern) recursive

unfoldable pub create_repo_path_file_triples : Bytes → Bool → Outcome (List RepoPathFile × Bool)
unfolding many_repos one_repo is_single_repo index_byte at_zero
create_repo_path_file_triples pattern recursive =
    let first_slash = index_byte slash pattern in
    let single_repo = is_single_repo (asterisk_indices 0 pattern) first_slash in
    if at_zero first_slash
    then err pattern_error
    else if single_repo
    then (one_repo pattern first_slash recursive >>= λ triples. ok (triples, single_repo))
    else (many_repos pattern first_slash recursive >>= λ triples. ok (triples, single_repo))
