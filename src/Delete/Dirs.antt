-- ===== src/Delete/Dirs.antt =====
-- The pass over the merged candidates and the artifacts, by an invariant of its loop.
use jfrog_client_go.Base.{
  ℕ, zero, suc, ◌+◌, ◌*◌, ◌<◌, ◌≡◌, refl, sym, ap, ◌∙◌, true, false, Option, none, some, List, [],
  ◌∷◌, ◌++◌, append_assoc, append-nil, inl, inr, length, All, arith, Bool-cases,
}
use jfrog_client_go.Base.Text.{Bytes, has_prefix}
use jfrog_client_go.Base.Text.Order.{str_lt, str_lt_irrefl}
use jfrog_client_go.Search.{ResultItem, get_item_relative_path, get_item_relative_location}
use jfrog_client_go.Delete.Sorted.{
  contains_artifact, without_artifacts, SortedByPath, IsLocated, IsNamed, no_later, drop-artifact,
  without_artifacts-nil,
}
use jfrog_client_go.Delete.{Round, judge, with_artifact, candidates_loop, write_candidates}

-- The item that is fetched, if any, with those to come.
abbrev with_head : Option ResultItem → List ResultItem → List ResultItem
with_head none items = items
with_head (some c) items = c ∷ items

abbrev held : Option ResultItem → ℕ
held none = 0
held (some c) = 1

-- It falls in every round.
abbrev weight : Option ResultItem → List ResultItem → Option ResultItem → List ResultItem → ℕ
weight candidate dirs artifact files =
    2 * length dirs + held candidate + (length files + held artifact)

abbrev PathIs : (ResultItem → Bytes) → Option ResultItem → Bytes → Type 0
PathIs key none path = Unit
PathIs key (some c) path = path ≡ key c

-- The invariant of the loop.
record Ready (candidate : Option ResultItem) (path : Bytes) (dirs : List ResultItem)
    (artifact : Option ResultItem) (location : Bytes) (files : List ResultItem) : Type 0 where
  path_is : PathIs get_item_relative_path candidate path
  location_is : PathIs get_item_relative_location artifact location
  named : All IsNamed dirs
  sorted_dirs : SortedByPath (with_head candidate dirs)
  sorted_files : SortedByPath (with_head artifact files)
  located : All IsLocated (with_head artifact files)

-- What the loop still has to do gives the specification's result.
abbrev Finishes : Round → ℕ → Type 0
Finishes next f =
    (candidate : Option ResultItem) (path : Bytes) (dirs : List ResultItem)
    → (artifact : Option ResultItem) (location : Bytes) (files written : List ResultItem)
    → Ready candidate path dirs artifact location files
    → weight candidate dirs artifact files < f
    → next candidate path dirs artifact location files written
      ≡ some (written ++ without_artifacts (with_head artifact files) (with_head candidate dirs))

module _ (next : Round) (f : ℕ) (finishes : Finishes next f) where
  judge_lem :
      (c : ResultItem) (path : Bytes) (dirs : List ResultItem) (a : ResultItem) (location : Bytes)
      → (files written : List ResultItem) → Ready (some c) path dirs (some a) location files
      → weight (some c) dirs (some a) files < suc f
      → judge next c path dirs a location files written
        ≡ some (written ++ without_artifacts (a ∷ files) (c ∷ dirs))
  unfolding judge
  judge_lem c path dirs a location files written r w =
      elim (Bool-cases (has_prefix path location)) [
        | inl h ↦
            let inside : contains_artifact c a ≡ true = rw (← r.path_is, ← r.location_is) h in
            rw (h, judge)
              (finishes none path dirs (some a) location files written
                  (record {
                    path_is = tt;
                    location_is = r.location_is;
                    named = r.named;
                    sorted_dirs = r.sorted_dirs.1;
                    sorted_files = r.sorted_files;
                    located = r.located;
                  })
                  (omega arith)
                ∙ rw inside)
        | inr h ↦
            let outside : contains_artifact c a ≡ false = rw (← r.path_is, ← r.location_is) h in
            elim (Bool-cases (str_lt path location)) [
              | inl lt ↦
                  let above : str_lt (get_item_relative_path c) (get_item_relative_location a)
                      ≡ true =
                    rw (← r.path_is, ← r.location_is) lt in
                  let none_later =
                    no_later c a files above outside r.located.0 r.sorted_files.0 r.located.1 in
                  rw (h, lt, judge)
                    (finishes none path dirs (some a) location files (written ++ c ∷ [])
                        (record {
                          path_is = tt;
                          location_is = r.location_is;
                          named = r.named;
                          sorted_dirs = r.sorted_dirs.1;
                          sorted_files = r.sorted_files;
                          located = r.located;
                        })
                        (omega arith)
                      ∙ rw (outside, none_later, append_assoc))
              | inr le ↦
                  let not_above : str_lt (get_item_relative_path c) (get_item_relative_location a)
                      ≡ false =
                    rw (← r.path_is, ← r.location_is) le in
                  rw (h, le, judge)
                    (finishes (some c) path dirs none location files written
                        (record {
                          path_is = r.path_is;
                          location_is = tt;
                          named = r.named;
                          sorted_dirs = r.sorted_dirs;
                          sorted_files = r.sorted_files.1;
                          located = r.located.1;
                        })
                        (omega arith)
                      ∙ ap (λ ds. some (written ++ ds))
                          (sym (
                            drop-artifact c a files (c ∷ dirs) not_above outside
                              (str_lt_irrefl (get_item_relative_path c), r.sorted_dirs.0))))
            ]
      ]

  with_artifact_lem :
      (c : ResultItem) (path : Bytes) (dirs : List ResultItem) (artifact : Option ResultItem)
      → (location : Bytes) (files written : List ResultItem)
      → Ready (some c) path dirs artifact location files
      → weight (some c) dirs artifact files < suc f
      → with_artifact next c path dirs artifact location files written
        ≡ some (written ++ without_artifacts (with_head artifact files) (c ∷ dirs))
  unfolding with_artifact
  with_artifact_lem c path dirs none location [] written r w =
      ap (λ ds. some (written ++ ds)) (sym (without_artifacts-nil (c ∷ dirs)))
  with_artifact_lem c path dirs none location (a ∷ files) written r w =
      judge_lem c path dirs a (get_item_relative_location a) files written
        (record {
          path_is = r.path_is;
          location_is = refl;
          named = r.named;
          sorted_dirs = r.sorted_dirs;
          sorted_files = r.sorted_files;
          located = r.located;
        })
        (omega arith)
  with_artifact_lem c path dirs (some a) location files written r w =
      judge_lem c path dirs a location files written r w

candidates_loop-Finishes : (f : ℕ) → Finishes (candidates_loop f) f
unfolding candidates_loop
candidates_loop-Finishes zero candidate path dirs artifact location files written r w =
    absurd (omega arith)
candidates_loop-Finishes (suc f) none path [] artifact location files written r w = rw append-nil
candidates_loop-Finishes (suc f) none path (d ∷ dirs) artifact location files written r w =
    rw (r.named.0, candidates_loop)
      (with_artifact_lem (candidates_loop f) f (candidates_loop-Finishes f) d
        (get_item_relative_path d) dirs artifact location files written
        (record {
          path_is = refl;
          location_is = r.location_is;
          named = r.named.1;
          sorted_dirs = r.sorted_dirs;
          sorted_files = r.sorted_files;
          located = r.located;
        })
        (omega arith))
candidates_loop-Finishes (suc f) (some c) path dirs artifact location files written r w =
    with_artifact_lem (candidates_loop f) f (candidates_loop-Finishes f) c path dirs artifact
      location files written r w

-- The pass ends within its fuel and writes the folders whose path starts none of the locations.
pub write_candidates_lem :
    (dirs files : List ResultItem)
    → All IsNamed dirs
    → SortedByPath dirs
    → SortedByPath files
    → All IsLocated files
    → write_candidates dirs files ≡ some (without_artifacts files dirs)
unfolding write_candidates
write_candidates_lem dirs files named sorted_dirs sorted_files located =
    candidates_loop-Finishes (2 * length dirs + length files + 1) none [] dirs none [] files []
      (record {
        path_is = tt;
        location_is = tt;
        named = named;
        sorted_dirs = sorted_dirs;
        sorted_files = sorted_files;
        located = located;
      })
      (omega arith)
