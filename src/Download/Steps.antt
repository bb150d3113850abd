-- ===== src/Download/Steps.antt =====
-- The interleavings of downloadChunksConcurrently: the loop that starts the goroutines, and the
-- goroutines that store their results and write the shared variables, in any order.
use jfrog_client_go.Base.{
  ℕ, ◌<◌, ◌≡◌, true, false, some, [], ◌∷◌, ◌++◌, All, length, get_elem?, set,
}
use jfrog_client_go.Base.Int.{ℤ}
use jfrog_client_go.Base.Text.{Bytes}
use jfrog_client_go.Download.{
  ConcurrentDownloadFlags, Chunk, Cell, pending, stored, reported, State, start_state, breaks,
  report_err, report_resp, chunk_start, chunk_end, range_header,
}

module _ (flags : ConcurrentDownloadFlags) (format_int : ℤ → Bytes)
    (Answers : Bytes → Chunk → Type 0) where
  abbrev pub header : ℕ → Bytes
  header i = range_header format_int (chunk_start flags i) (chunk_end flags i)

  pub data Step : State → State → Type 0 where
    launch :
        {s : State}
        → s.looping ≡ true
        → length s.cells < flags.split_count
        → breaks s ≡ false
        → Step s (record s { cells = s.cells ++ pending ∷ [] })
    leave :
        {s : State}
        → s.looping ≡ true
        → length s.cells < flags.split_count
        → breaks s ≡ true
        → Step s (record s { looping = false })
    finish :
        {s : State}
        → s.looping ≡ true
        → length s.cells ≡ flags.split_count
        → Step s (record s { looping = false })
    store :
        {s : State} (i : ℕ) (c : Chunk)
        → get_elem? s.cells i ≡ some pending
        → Answers (header i) c
        → Step s (record s { cells = set s.cells i (stored c) })
    report :
        {s : State} (i : ℕ) (c : Chunk)
        → get_elem? s.cells i ≡ some (stored c)
        → Step s (record s {
          cells = set s.cells i (reported c);
          err = report_err c s.err;
          resp = report_resp c s.resp;
        })

  pub data Reaches : State → Type 0 where
    here : Reaches start_state
    next : {s t : State} → Reaches s → Step s t → Reaches t

  abbrev pub IsReported : Cell → Type 0
  IsReported pending = ⊥
  IsReported (stored c) = ⊥
  IsReported (reported c) = Unit

  -- wg.Wait() returns: the loop has ended, and so has every goroutine.
  abbrev pub IsFinished : State → Type 0
  IsFinished s = (s.looping ≡ false) × All IsReported s.cells
