-- ===== src/Download/Scan.antt =====
-- The loop over the responses, and the contents of chunks that all had a 206.
use mathlib.Core.Bool.{false≢true}
use jfrog_client_go.Base.{
  ℕ, suc, ◌+◌, ◌<◌, ◌≤◌, ◌≡◌, refl, sym, ap, ◌∙◌, true, false, ◌||◌, none, some, List, [], ◌∷◌,
  ◌++◌, ◌⊎◌, inl, inr, ◌==◌, ==_iff, All, any, map, length, arith, Bool-cases, Option-cases,
}
use jfrog_client_go.Base.Int.{ℤ}
use jfrog_client_go.Base.Outcome.{ok}
use jfrog_client_go.Base.Text.{Bytes}
use jfrog_client_go.Download.{
  ConcurrentDownloadFlags, Chunk, Cell, pending, stored, reported, partial_content, chunk_start,
  chunk_end, range_header, first_error, first_unexpected, last_response, nils, response_of,
  content_of, error_of,
}
use jfrog_client_go.Download.Ranges.{slice, slices, chunk_start-lt, chunk_ranges_lem}
use jfrog_client_go.Download.Steps.{IsReported}
use jfrog_client_go.Download.Invariant.{CellsOk, is_bad}

-- What the code relies on: a chunk's download without an error has a response, and a 206 response to
-- a range that lies in the file has the bytes of that range.
pub record Server (format_int : ℤ → Bytes) (Answers : Bytes → Chunk → Type 0) (file : Bytes)
    : Type 0 where
  pub responds :
      (h : Bytes) (c : Chunk)
      → Answers h c
      → c.error ≡ none
      → (status : ℕ) × (c.response ≡ some status)
  pub serves :
      (start end : ℕ) (c : Chunk)
      → start < end
      → end ≤ length file
      → Answers (range_header format_int start end) c
      → c.error ≡ none
      → c.response ≡ some 206
      → c.content ≡ slice start end file

-- Every goroutine got its part of the file.
abbrev pub Got206 : Cell → Type 0
Got206 x = (error_of x ≡ none) × (response_of x ≡ some 206)

module _ (flags : ConcurrentDownloadFlags) (format_int : ℤ → Bytes)
    (Answers : Bytes → Chunk → Type 0) (file : Bytes)
    (server : Server format_int Answers file) where
  -- What the loop over respList comes to.
  abbrev pub Scanned : ℕ → List Cell → Type 0
  Scanned n cells =
      ((status : ℕ) × (first_unexpected (map response_of cells ++ nils n) ≡ ok (some status))
        × ((status == partial_content) ≡ false))
      ⊎ ((first_unexpected (map response_of cells ++ nils n) ≡ ok none)
          × All Got206 cells
          × (n ≡ 0))

  first_error-good :
      (c : Chunk) (xs : List Cell) → c.error ≡ none → first_error (reported c ∷ xs) ≡ first_error xs
  unfolding first_error error_of
  first_error-good c xs h = rw (h, first_error) refl

  first_error-bad :
      (c : Chunk) (xs : List Cell) (e : Bytes)
      → c.error ≡ some e
      → first_error (reported c ∷ xs) ≡ some e
  unfolding first_error error_of
  first_error-bad c xs e h = rw (h, first_error) refl

  is_bad-good : (c : Chunk) → c.error ≡ none → c.response ≡ some 206 → is_bad (reported c) ≡ false
  is_bad-good c h k = rw (h, k) refl

  Scanned-there :
      (n : ℕ) (c : Chunk) (xs : List Cell)
      → c.error ≡ none
      → c.response ≡ some 206
      → Scanned n xs
      → Scanned n (reported c ∷ xs)
  unfolding first_unexpected response_of error_of
  Scanned-there n c xs h k (inl (status, e, p)) = inl (status, rw k e, p)
  Scanned-there n c xs h k (inr (e, a, z)) = inr (rw k e, ((h, k), a), z)

  pub scan :
      (n i : ℕ) (cells : List Cell)
      → All (IsReported flags format_int Answers) cells
      → CellsOk flags format_int Answers i cells
      → first_error cells ≡ none
      → (n ≡ 0) ⊎ (any cells is_bad ≡ true)
      → Scanned n cells
  unfolding first_unexpected nils response_of
  scan n i [] r v e (inl z) = inr (rw z refl, tt, z)
  scan n i [] r v e (inr b) = absurd (false≢true b)
  scan n i (pending ∷ xs) (r, rs) v e o = absurd r
  scan n i (stored c ∷ xs) (r, rs) v e o = absurd r
  scan n i (reported c ∷ xs) (r, rs) (v, vs) e o = elim (Option-cases c.error) [
    | inl k ↦
        let (status, h) = server.responds _ c v k in
        elim (Bool-cases (status == partial_content)) [
          | inl p ↦
              let got : c.response ≡ some 206 = h ∙ ap some ((==_iff status 206).0 p) in
              let bad = is_bad-good c k got in
              Scanned-there n c xs k got (
                scan n (suc i) xs rs vs (sym (first_error-good c xs k) ∙ e) elim o [
                  | inl z ↦ inl z
                  | inr b ↦ inr (sym (ap (λ t. t || any xs is_bad) bad) ∙ b)
                ])
          | inr p ↦ inl (status, rw (h, first_unexpected, p) refl, p)
        ]
    | inr (x, k) ↦ let none_there = sym (first_error-bad c xs x k) ∙ e in cc
  ]

  pub last-206 :
      (cells : List Cell)
      → 0 < length cells
      → All Got206 cells
      → last_response (map response_of cells ++ []) ≡ ok 206
  unfolding last_response
  last-206 [] h a = absurd (omega arith)
  last-206 (x ∷ []) h ((k, g), a) = rw g refl
  last-206 (x ∷ y ∷ ys) h (k, a) = last-206 (y ∷ ys) (omega arith) a

  pub contents :
      (i : ℕ) (cells : List Cell)
      → flags.split_count ≤ flags.file_size
      → length file ≡ flags.file_size
      → i + length cells ≤ flags.split_count
      → All (IsReported flags format_int Answers) cells
      → CellsOk flags format_int Answers i cells
      → All Got206 cells
      → map content_of cells ≡ slices flags file i (length cells)
  unfolding content_of error_of response_of
  contents i [] m l b r v g = refl
  contents i (pending ∷ xs) m l b (r, rs) v g = absurd r
  contents i (stored c ∷ xs) m l b (r, rs) v g = absurd r
  contents i (reported c ∷ xs) m l b (r, rs) (v, vs) ((e, h), gs) =
      let (from, to, zero_at, inner, last) = chunk_ranges_lem flags i (omega arith) in
      let here =
        server.serves (chunk_start flags i) (chunk_end flags i) c
          (chunk_start-lt flags i (omega arith) m) (omega arith) v e h in
      ap (λ t. t ∷ map content_of xs) here
      ∙ ap (λ ts. slice (chunk_start flags i) (chunk_end flags i) file ∷ ts)
          (contents (suc i) xs m l (omega arith) rs vs gs)
