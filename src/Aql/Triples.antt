-- ===== src/Aql/Triples.antt =====
-- artifactory/services/utils/repopathfile.go: createRepoPathFileTriples answers every pattern, without
-- an index out of range.
use jfrog_client_go.Base.{
  ℕ, zero, suc, ◌+◌, ◌≤◌, ◌<◌, Bool, true, false, Option, none, some, List, [], ◌∷◌, ◌++◌, ◌≡◌,
  refl, ◌⊎◌, ◌≢◌, ◌↔◌, inl, inr, arith, Bool-cases, length, All, All-append, ltb, ◌==◌,
  if◌then◌else◌, ◌&&◌, take, drop,
}
use jfrog_client_go.Base.Outcome.{Outcome, ok, err}
use jfrog_client_go.Base.Text.{
  has_prefix, ends_with, Bytes, codes, contains_byte, index_byte, last_index_byte, str_eq,
}
use jfrog_client_go.Base.Text.Split.{split_byte, on_head}
use jfrog_client_go.Aql.{
  cut_at_slash, recursive_pairs, RepoPathFile, slash, asterisk, cut_after, split_triple, cut_pairs,
  create_path_file_pairs, with_slash, rounds, handle_non_recursive_triples, repo_wildcards,
  last_repo_part, many_repos, one_repo, create_repo_path_file_triples, at_zero, asterisk_indices,
  is_single_repo, pattern_error, repo_wildcard_pattern, is_slash_precede_asterisk,
}

contains_byte-append :
    (c : ℕ) (s t : Bytes) → contains_byte c t ≡ true → contains_byte c (s ++ t) ≡ true
unfolding contains_byte
contains_byte-append c [] t h = h
contains_byte-append c (d ∷ s) t h = ground (arith, contains_byte-append c s t h)

contains_byte-append_left :
    (c : ℕ) (s t : Bytes) → contains_byte c s ≡ true → contains_byte c (s ++ t) ≡ true
unfolding contains_byte
contains_byte-append_left c [] t h = cc
contains_byte-append_left c (d ∷ s) t h = ground (arith, contains_byte-append_left c s t)

cut_after-slash :
    (i j : ℕ) (parts : List Bytes)
    → j ≤ i
    → i < j + length parts
    → contains_byte slash (cut_after i j parts) ≡ true
unfolding cut_after
cut_after-slash i j [] h k = absurd (omega arith)
cut_after-slash i j (part ∷ parts) h k =
    let mark : contains_byte slash (codes "*/") ≡ true = (unfold contains_byte in refl) in
    elim (Bool-cases (j == i)) [
      | inl e ↦ rw e (
          contains_byte-append slash (if ltb 0 j then codes "*" else []) _ (
            contains_byte-append_left slash (part ++ codes "*/") (cut_after i (suc j) parts)
              (contains_byte-append slash part (codes "*/") mark)))
      | inr e ↦
          let below : suc j ≤ i = ground arith in
          rw e (
            contains_byte-append slash (if ltb 0 j then codes "*" else []) _ (
              contains_byte-append slash part (cut_after i (suc j) parts)
                (cut_after-slash i (suc j) parts below (omega arith))))
    ]

length-on_head : (c : ℕ) (ps : List Bytes) → length ps ≤ length (on_head c ps)
length-on_head c [] = omega arith
length-on_head c (p ∷ ps) = omega arith

length-split_byte : (c : ℕ) (s : Bytes) → 1 ≤ length (split_byte c s)
unfolding split_byte
length-split_byte c [] = omega arith
length-split_byte c (d ∷ s) =
    ground (arith, length-split_byte c s, length-on_head d (split_byte c s))

split_byte-two : (c : ℕ) (s : Bytes) → contains_byte c s ≡ true → 2 ≤ length (split_byte c s)
unfolding contains_byte split_byte
split_byte-two c [] h = cc
split_byte-two c (d ∷ s) h =
    ground (arith, length-split_byte c s, split_byte-two c s, length-on_head d (split_byte c s))

split_triple-ok :
    (repo path : Bytes) (parts : List Bytes)
    → 2 ≤ length parts
    → (t : RepoPathFile) × (split_triple repo path parts ≡ ok t) × (t.repo ≡ repo)
unfolding split_triple
split_triple-ok repo path [] h = absurd (omega arith)
split_triple-ok repo path (a ∷ []) h = absurd (omega arith)
split_triple-ok repo path (a ∷ b ∷ rest) h = (_, refl, refl)

abbrev pub In : Bytes → List RepoPathFile → Type 0
In repo = All (λ t. t.repo ≡ repo)

cut_pairs-ok :
    (repo path : Bytes) (names : List Bytes) (left i : ℕ)
    → left + i < length names ⊎ (left ≡ 0)
    → (ts : List RepoPathFile) × (cut_pairs repo path names left i ≡ ok ts)
      × In repo ts
      × (length ts ≡ left)
unfolding cut_pairs
cut_pairs-ok repo path names zero i h = ([], refl, tt, refl)
cut_pairs-ok repo path names (suc left) i h =
    let enough : i < 0 + length names = ground arith in
    let (t, e, r) =
      split_triple-ok repo (with_slash path) (split_byte slash (cut_after i 0 names))
        (split_byte-two slash _ (cut_after-slash i 0 names (omega arith) enough)) in
    let (ts, es, rs, n) = cut_pairs-ok repo (with_slash path) names left (suc i) (ground arith) in
    (t ∷ ts, rw (e, es) refl, (r, rs), omega arith)

cut_at_slash-In :
    (repo pattern : Bytes) (recursive : Bool) (at : Option ℕ)
    → In repo (cut_at_slash repo pattern recursive at).2
unfolding cut_at_slash
cut_at_slash-In repo pattern recursive none =
    elim (recursive && has_prefix (codes "*") pattern)
      as (λ b.
        In repo (if b then [] else record { repo = repo; path = codes "."; file = pattern } ∷ [])) [
          | true ↦ tt
          | false ↦ (refl, tt)
        ]
cut_at_slash-In repo pattern recursive (some i) = (refl, tt)

rounds-lt : (parts : List Bytes) → rounds parts + 0 < length parts ⊎ (rounds parts ≡ 0)
unfolding rounds
rounds-lt [] = inr refl
rounds-lt (p ∷ ps) = inl (omega arith)

-- The triples of a call, all of them in `repo`.
abbrev pub Answers : Bytes → Outcome (List RepoPathFile) → Type 0
Answers repo m = (ts : List RepoPathFile) × (m ≡ ok ts) × In repo ts

recursive_pairs-Answers :
    (repo : Bytes) (recursive : Bool) (path name : Bytes) (triples : List RepoPathFile)
    → In repo triples
    → Answers repo (recursive_pairs repo recursive (path, name, triples))
unfolding recursive_pairs
recursive_pairs-Answers repo false path name triples h = (triples, refl, h)
recursive_pairs-Answers repo true path name triples h =
    elim (Bool-cases (str_eq name (codes "*"))) [
      | inl e ↦ rw e (
        _,
        refl,
        All-append (λ t. t.repo ≡ repo) triples
            (record { repo = repo; path = path ++ codes "/*"; file = codes "*" } ∷ []) h (refl, tt),
      )
      | inr e ↦
          let names = split_byte asterisk name in
          let (more, hm, hin, _) =
            cut_pairs-ok repo path names (rounds names) 0 (rounds-lt names) in
          rw (e, hm) (_, refl, All-append (λ t. t.repo ≡ repo) triples more h hin)
    ]

-- createPathFilePairs never indexes the parts of a split name out of range: for every pattern it
-- gives triples, and all of them are in the repository that it was called with.
pub create_path_file_pairs-Answers :
    (repo pattern : Bytes) (recursive : Bool)
    → Answers repo (create_path_file_pairs repo pattern recursive)
unfolding create_path_file_pairs handle_non_recursive_triples
create_path_file_pairs-Answers repo pattern recursive =
    elim (Bool-cases (str_eq pattern (codes "*"))) [
      | inl e ↦ rw e (_, refl, (refl, tt))
      | inr e ↦
          let at = last_index_byte slash pattern in
          let cut = cut_at_slash repo pattern recursive at in
          rw e (
            recursive_pairs-Answers repo recursive cut.0 cut.1 cut.2
              (cut_at_slash-In repo pattern recursive at))
    ]

-- A call that gives some value.
abbrev pub Succeeds : {A : Type 0} → Outcome A → Type 0
Succeeds {A} m = (a : A) × (m ≡ ok a)

repo_wildcards-Succeeds :
    (pattern : Bytes) (first_slash : Option ℕ) (recursive : Bool) (more : List ℕ) (last : ℕ)
    → Succeeds (repo_wildcards pattern first_slash recursive more last)
unfolding repo_wildcards
repo_wildcards-Succeeds pattern first_slash recursive [] last = (_, refl)
repo_wildcards-Succeeds pattern first_slash recursive (at ∷ more) last =
    elim (Bool-cases (is_slash_precede_asterisk at first_slash)) [
      | inl e ↦ rw e (_, refl)
      | inr e ↦
          let (ts, h, _) =
            create_path_file_pairs-Answers (take (suc at) pattern)
              (repo_wildcard_pattern (drop at pattern)) recursive in
          let (r, k) = repo_wildcards-Succeeds pattern first_slash recursive more (suc at) in
          rw (e, h, k) (_, refl)
    ]

last_repo_part-Succeeds :
    (pattern : Bytes) (first_slash : Option ℕ) (recursive : Bool) (last : ℕ)
    → Succeeds (last_repo_part pattern first_slash recursive last)
unfolding last_repo_part
last_repo_part-Succeeds pattern none recursive last =
    let (ts, h, _) = create_path_file_pairs-Answers pattern (codes "*") recursive in
    elim (Bool-cases (ends_with asterisk pattern)) [
      | inl e ↦ rw e (_, refl)
      | inr e ↦ rw (e, h) (_, refl)
    ]
last_repo_part-Succeeds pattern (some i) recursive last =
    let (ts, h, _) =
      create_path_file_pairs-Answers (take i pattern) (drop (suc i) pattern) recursive in
    elim (Bool-cases (ltb last i)) [ inl e ↦ rw (e, h) (_, refl) | inr e ↦ rw e (_, refl) ]

one_repo-Succeeds :
    (pattern : Bytes) (first_slash : Option ℕ) (recursive : Bool)
    → Succeeds (one_repo pattern first_slash recursive)
unfolding one_repo
one_repo-Succeeds pattern none recursive =
    let (ts, h, _) = create_path_file_pairs-Answers pattern (codes "*") recursive in (ts, h)
one_repo-Succeeds pattern (some i) recursive =
    let (ts, h, _) =
      create_path_file_pairs-Answers (take i pattern) (drop (suc i) pattern) recursive in
    (ts, h)

many_repos-Succeeds :
    (pattern : Bytes) (first_slash : Option ℕ) (recursive : Bool)
    → Succeeds (many_repos pattern first_slash recursive)
unfolding many_repos
many_repos-Succeeds pattern first_slash recursive =
    let indices = asterisk_indices 0 pattern in
    let (found, h) = repo_wildcards-Succeeds pattern first_slash recursive indices 0 in
    let (last, k) = last_repo_part-Succeeds pattern first_slash recursive found.1 in
    rw (h, k) (_, refl)

at_zero_iff : (i : Option ℕ) → (at_zero i ≡ true) ↔ (i ≡ some 0)
unfolding at_zero
at_zero_iff none = ground arith
at_zero_iff (some i) = ground arith

-- createRepoPathFileTriples answers every pattern, and never indexes the parts of a split name out of
-- range: it reports the error exactly for a pattern that starts with a slash, and gives triples for any
-- other.
pub create_repo_path_file_triples_lem :
    (pattern : Bytes) (recursive : Bool)
    → ((index_byte slash pattern ≡ some 0)
        × (create_repo_path_file_triples pattern recursive ≡ err pattern_error))
      ⊎ ((index_byte slash pattern ≢ some 0)
          × Succeeds (create_repo_path_file_triples pattern recursive))
unfolding create_repo_path_file_triples
create_repo_path_file_triples_lem pattern recursive =
    let first_slash = index_byte slash pattern in
    let single = is_single_repo (asterisk_indices 0 pattern) first_slash in
    elim (Bool-cases (at_zero first_slash)) [
      | inl e ↦ inl ((at_zero_iff first_slash).0 e, rw e refl)
      | inr e ↦ inr (
        ground (arith, at_zero_iff first_slash),
        elim (Bool-cases single) [
          | inl s ↦
              let (ts, h) = one_repo-Succeeds pattern first_slash recursive in
              rw (e, s, h) (_, refl)
          | inr s ↦
              let (ts, h) = many_repos-Succeeds pattern first_slash recursive in
              rw (e, s, h) (_, refl)
        ],
      )
    ]
