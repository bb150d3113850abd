-- ===== src/Download/Complete.antt =====
-- The download in chunks, in whatever order the goroutines run.
use jfrog_client_go.Base.{
  ℕ, ◌-◌, ◌<◌, ◌≤◌, ◌≡◌, refl, ap, ◌∙◌, true, false, none, some, List, ◌++◌, ◌⊎◌, inl, inr, ◌==◌,
  any, map, length, arith, Option-cases,
}
use jfrog_client_go.Base.Int.{ℤ}
use jfrog_client_go.Base.Outcome.{ok, err}
use jfrog_client_go.Base.Text.{Bytes}
use jfrog_client_go.Download.{
  ConcurrentDownloadFlags, Chunk, Cell, State, partial_content, first_error, first_unexpected,
  last_response, nils, resp_list, response_of, content_of, concat, download_chunks_result,
}
use jfrog_client_go.Download.Ranges.{slices, slices-file}
use jfrog_client_go.Download.Steps.{Reaches, IsFinished}
use jfrog_client_go.Download.Invariant.{Reaches-Invariant, is_bad}
use jfrog_client_go.Download.Scan.{Server, scan, last-206, contents}

module _ (flags : ConcurrentDownloadFlags) (format_int : ℤ → Bytes)
    (Answers : Bytes → Chunk → Type 0) (file : Bytes)
    (server : Server format_int Answers file) where
  -- What the chunks come to.
  abbrev pub Results : List Cell → Type 0
  Results cells =
      ((e : Bytes) × (download_chunks_result flags cells ≡ err e))
      ⊎ (((status : ℕ) × ((status == partial_content) ≡ false)
            × (download_chunks_result flags cells ≡ ok status))
          ⊎ ((download_chunks_result flags cells ≡ ok 206)
              × (concat (map content_of cells) ≡ file)))

  result-error :
      (cells : List Cell) (e : Bytes)
      → first_error cells ≡ some e
      → download_chunks_result flags cells ≡ err e
  unfolding download_chunks_result
  result-error cells e h = rw (h, download_chunks_result) refl

  result-unexpected :
      (cells : List Cell) (status : ℕ)
      → first_error cells ≡ none
      → first_unexpected (resp_list flags.split_count cells) ≡ ok (some status)
      → download_chunks_result flags cells ≡ ok status
  unfolding download_chunks_result
  result-unexpected cells status h k = rw (h, download_chunks_result, k) refl

  result-last :
      (cells : List Cell)
      → first_error cells ≡ none
      → first_unexpected (resp_list flags.split_count cells) ≡ ok none
      → download_chunks_result flags cells ≡ last_response (resp_list flags.split_count cells)
  unfolding download_chunks_result
  result-last cells h k = rw (h, download_chunks_result, k) refl

  pub results :
      (s : State)
      → 0 < flags.split_count
      → flags.split_count ≤ flags.file_size
      → length file ≡ flags.file_size
      → Reaches flags format_int Answers s
      → IsFinished flags format_int Answers s
      → Results s.cells
  unfolding resp_list nils
  results s p m l r (done, all) =
      let v = Reaches-Invariant flags format_int Answers s r in
      let few = v.bounded in
      let missing = flags.split_count - length s.cells in
      elim (Option-cases (first_error s.cells)) [
        | inr (e, k) ↦ inl (e, result-error s.cells e k)
        | inl k ↦
            let why : (missing ≡ 0) ⊎ (any s.cells is_bad ≡ true) = elim (v.ended done) [
              | inl full ↦ inl (omega arith)
              | inr bad ↦ inr bad
            ] in
            elim (scan flags format_int Answers file server missing 0 s.cells all v.answered k
              why) [
                | inl (status, f, q) ↦ inr (inl (status, q, result-unexpected s.cells status k f))
                | inr (f, a, z) ↦
                    let full : length s.cells ≡ flags.split_count = omega arith in
                    inr (
                      inr (
                        result-last s.cells k f
                            ∙ ap (λ n. last_response (map response_of s.cells ++ nils n)) z
                            ∙ last-206 flags format_int Answers file server s.cells (omega arith) a,
                        ap concat (
                              contents flags format_int Answers file server 0 s.cells m l
                                (omega arith) all v.answered a)
                            ∙ ap (λ n. concat (slices flags file 0 n)) full
                            ∙ slices-file flags file l p,
                      ))
              ]
      ]
