-- ===== src/Aql/Plain.antt =====
-- artifactory/services/utils/repopathfile.go: the one triple of a pattern with a plain repository.
use jfrog_client_go.Base.{
  ℕ, suc, ◌+◌, ◌<◌, true, false, none, some, [], ◌∷◌, ◌++◌, ◌≡◌, refl, ap, ◌∙◌, arith, length, drop,
  ◌==◌,
}
use jfrog_client_go.Base.Outcome.{ok}
use jfrog_client_go.Base.Text.{Bytes, codes, str_eq, Lacks, last_index_byte}
use jfrog_client_go.Base.Text.Index.{index_byte-append, take-length}
use jfrog_client_go.Aql.{
  slash, asterisk, asterisk_indices, is_single_repo, is_slash_precede_asterisk, at_zero,
  create_repo_path_file_triples, one_repo, create_path_file_pairs, handle_non_recursive_triples,
  cut_at_slash, recursive_pairs,
}

last_index_byte-none : (c : ℕ) (s : Bytes) → Lacks c s → last_index_byte c s ≡ none
unfolding last_index_byte
last_index_byte-none c [] h = refl
last_index_byte-none c (d ∷ s) h = ground (arith, last_index_byte-none c s)

last_index_byte-append :
    (c : ℕ) (s t : Bytes) → Lacks c t → last_index_byte c (s ++ c ∷ t) ≡ some (length s)
unfolding last_index_byte
last_index_byte-append c [] t h = ground (arith, last_index_byte-none c t)
last_index_byte-append c (d ∷ s) t h = ground (arith, last_index_byte-append c s t)

drop-length : (c : ℕ) (s t : Bytes) → drop (suc (length s)) (s ++ c ∷ t) ≡ t
drop-length c [] t = refl
drop-length c (d ∷ s) t = drop-length c s t

asterisk_indices-Lacks :
    (at : ℕ) (s t : Bytes)
    → Lacks asterisk s
    → asterisk_indices at (s ++ t) ≡ asterisk_indices (at + length s) t
unfolding asterisk_indices
asterisk_indices-Lacks at [] t h = ap (λ n. asterisk_indices n t) (omega arith)
asterisk_indices-Lacks at (c ∷ s) t h =
    let none_here : (c == asterisk) ≡ false = ground arith in
    rw none_here
      (asterisk_indices-Lacks (suc at) s t h.1 ∙ ap (λ n. asterisk_indices n t) (omega arith))

-- Behind the first slash there is no asterisk in front of it.
is_single_repo-behind :
    (m at : ℕ) (s : Bytes) → m < at → is_single_repo (asterisk_indices at s) (some m) ≡ true
unfolding asterisk_indices is_single_repo is_slash_precede_asterisk
is_single_repo-behind m at [] h = refl
is_single_repo-behind m at (c ∷ s) h = ground (arith, is_single_repo-behind m (suc at) s)

str_eq-slash : (s t : Bytes) → str_eq (s ++ slash ∷ t) (codes "*") ≡ false
unfolding str_eq
str_eq-slash [] t = refl
str_eq-slash (c ∷ []) t = ground arith
str_eq-slash (c ∷ d ∷ s) t = ground arith

is_single_repo-plain :
    (s t : Bytes)
    → Lacks asterisk s
    → is_single_repo (asterisk_indices 0 (s ++ slash ∷ t)) (some (length s)) ≡ true
is_single_repo-plain s t h = rw (asterisk_indices-Lacks 0 s (slash ∷ t) h) (
    unfold asterisk_indices in
    is_single_repo-behind (length s) (suc (0 + length s)) t (omega arith))

create_path_file_pairs-plain :
    (repo path file : Bytes)
    → Lacks slash file
    → create_path_file_pairs repo (path ++ slash ∷ file) false
      ≡ ok (record { repo = repo; path = path; file = file } ∷ [])
unfolding create_path_file_pairs handle_non_recursive_triples cut_at_slash recursive_pairs
create_path_file_pairs-plain repo path file h =
    rw (str_eq-slash path file, last_index_byte-append slash path file h)
      (rw (take-length path (slash ∷ file), drop-length slash path file) refl)

-- A pattern repo/path/file, whose repository is a name with no slash and no asterisk and whose file has
-- no slash, searched without recursion, gives the one triple of these parts, in a single repository.
pub create_repo_path_file_triples-plain :
    (c : ℕ) (repo path file : Bytes)
    → Lacks slash (c ∷ repo)
    → Lacks asterisk (c ∷ repo)
    → Lacks slash file
    → create_repo_path_file_triples ((c ∷ repo) ++ slash ∷ (path ++ slash ∷ file)) false
      ≡ ok (record { repo = c ∷ repo; path = path; file = file } ∷ [], true)
unfolding create_repo_path_file_triples one_repo at_zero
create_repo_path_file_triples-plain c repo path file hs ha hf =
    let rest = path ++ slash ∷ file in
    let first = index_byte-append slash (c ∷ repo) rest hs in
    let single = is_single_repo-plain (c ∷ repo) rest ha in
    let taken = take-length (c ∷ repo) (slash ∷ rest) in
    let dropped = drop-length slash (c ∷ repo) rest in
    let pairs = create_path_file_pairs-plain (c ∷ repo) path file hf in
    let behind : (suc (length repo) == 0) ≡ false = ground arith in
    rw (first, single, taken, dropped, pairs) (rw behind refl)
