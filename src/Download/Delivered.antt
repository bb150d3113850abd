-- ===== src/Download/Delivered.antt =====
-- The end of DownloadFileConcurrently: the merged file, its hash, and its extraction.
use jfrog_client_go.Base.{
  ℕ, ◌<◌, ◌≤◌, ◌≡◌, ◌≢◌, [], ◌∷◌, refl, sym, ap, ◌∙◌, true, false, not, Option, none, some, List,
  ◌⊎◌, inl, inr, ◌==◌, ltb, ◌&&◌, map, length, arith, Bool-cases, Option-cases,
}
use jfrog_client_go.Base.Int.{ℤ}
use jfrog_client_go.Base.Outcome.{ok, err}
use jfrog_client_go.Base.Text.{Bytes, str_eq, str_eq_iff}
use mathlib.Core.Path.{subst}
use jfrog_client_go.Archive.{Archives, extract_archive}
use jfrog_client_go.Archive.Extracted.{IsExtraction, extract_archive-IsExtraction}
use jfrog_client_go.Download.{
  ConcurrentDownloadFlags, Chunk, Cell, State, partial_content, content_of, concat, merge_chunks,
  Downloaded, located, exploded, download_file_concurrently,
}
use jfrog_client_go.Download.Steps.{Reaches, IsFinished}
use jfrog_client_go.Download.Scan.{Server}
use jfrog_client_go.Download.Complete.{Results, results}

module _ (archives : Archives) (flags : ConcurrentDownloadFlags) (format_int : ℤ → Bytes)
    (Answers : Bytes → Chunk → Type 0) (file : Bytes) (server : Server format_int Answers file)
    (sha1_hex : Bytes → Bytes) (before : Option Bytes) where
  -- The destination holds the whole file, which ExtractArchive then takes, if that is asked for.
  abbrev Delivered : Downloaded → Type 0
  Delivered d =
      ((flags.explode ≡ false) × (d.file ≡ some file) × (d.result ≡ ok 206))
      ⊎ ((flags.explode ≡ true)
          × ((error : Option Bytes) × IsExtraction archives flags.local_path
                (located archives flags).local_file_name flags.file_name
                flags.bypass_archive_inspection file (d.file, error)
              × (((error ≡ none) × (d.result ≡ ok 206))
                  ⊎ ((e : Bytes) × (error ≡ some e) × (d.result ≡ err e)))))

  -- An expected hash is the file's, unless the check is to be skipped.
  abbrev IsChecked : Type 0
  IsChecked =
      flags.expected_sha1 ≢ [] → flags.skip_checksum ≡ false → sha1_hex file ≡ flags.expected_sha1

  -- What the caller of DownloadFileConcurrently finds: an error or another status, with the destination as
  -- it was, or the whole file with an error because its hash is not the expected one, or the whole file,
  -- extracted if that is asked for.
  abbrev pub Answer : Downloaded → Type 0
  Answer d =
      ((d.file ≡ before)
        × (((e : Bytes) × (d.result ≡ err e))
            ⊎ ((status : ℕ) × ((status == partial_content) ≡ false) × (d.result ≡ ok status))))
      ⊎ (((d.file ≡ some file)
            × ((e : Bytes) × (d.result ≡ err e)
                × (str_eq (sha1_hex file) flags.expected_sha1 ≡ false)))
          ⊎ (IsChecked × Delivered d))

  merged-file :
      (chunks : List Bytes)
      → (merge_chunks sha1_hex chunks (located archives flags)).0 ≡ concat chunks
  unfolding merge_chunks
  merged-file chunks = refl

  mismatched :
      (chunks : List Bytes) (e : Bytes)
      → (merge_chunks sha1_hex chunks (located archives flags)).1 ≡ some e
      → str_eq (sha1_hex (concat chunks)) flags.expected_sha1 ≡ false
  unfolding merge_chunks located
  mismatched chunks e h =
      elim (Bool-cases (str_eq (sha1_hex (concat chunks)) flags.expected_sha1)) [
        | inl k ↦
            let passed : (ltb 0 (length flags.expected_sha1)
                  && (not flags.skip_checksum
                      && not (str_eq (sha1_hex (concat chunks)) flags.expected_sha1)))
                ≡ false =
              ground arith in
            let none_there : ◌≡◌ {A = Option Bytes} none (some e) = rw passed at h in cc
        | inr k ↦ k
      ]

  matched :
      (chunks : List Bytes)
      → concat chunks ≡ file
      → (merge_chunks sha1_hex chunks (located archives flags)).1 ≡ none
      → IsChecked
  unfolding merge_chunks located
  matched chunks k h given checked =
      let long : ltb 0 (length flags.expected_sha1) ≡ true = non_empty flags.expected_sha1 given in
      elim (Bool-cases (str_eq (sha1_hex (concat chunks)) flags.expected_sha1)) [
        | inl e ↦ ap sha1_hex (sym k) ∙ (str_eq_iff _ _).0 e
        | inr e ↦ absurd (let wrong = rw (long, checked, e) at h in cc)
      ]
    where
      non_empty : (s : Bytes) → s ≢ [] → ltb 0 (length s) ≡ true
      non_empty [] ne = absurd (ne refl)
      non_empty (c ∷ s) ne = ground arith

  abbrev finished : Bytes → Option Bytes × Option Bytes
  finished written =
      extract_archive archives flags.local_path (located archives flags).local_file_name
        flags.file_name flags.bypass_archive_inspection written

  not_exploded :
      (written : Bytes)
      → flags.explode ≡ false
      → exploded archives (located archives flags) 206 written
        ≡ record { file = some written; result = ok 206 }
  unfolding exploded located
  not_exploded written h = rw h refl

  exploded-ok :
      (written : Bytes)
      → flags.explode ≡ true
      → (finished written).1 ≡ none
      → exploded archives (located archives flags) 206 written
        ≡ record { file = (finished written).0; result = ok 206 }
  unfolding exploded located
  exploded-ok written h k = rw (h, k) refl

  exploded-err :
      (written e : Bytes)
      → flags.explode ≡ true
      → (finished written).1 ≡ some e
      → exploded archives (located archives flags) 206 written
        ≡ record { file = (finished written).0; result = err e }
  unfolding exploded located
  exploded-err written e h k = rw (h, k) refl

  exploded-Delivered : Delivered (exploded archives (located archives flags) 206 file)
  exploded-Delivered =
      let extraction =
        extract_archive-IsExtraction archives flags.local_path
          (located archives flags).local_file_name flags.file_name flags.bypass_archive_inspection
          file in
      elim (Bool-cases flags.explode) [
        | inr h ↦ subst Delivered (sym (not_exploded file h)) (inl (h, refl, refl))
        | inl h ↦ elim (Option-cases (finished file).1) [
          | inl k ↦
              subst Delivered (sym (exploded-ok file h k))
                (inr (h, ((finished file).1, extraction, inl (k, refl))))
          | inr (e, k) ↦
              subst Delivered (sym (exploded-err file e h k))
                (inr (h, ((finished file).1, extraction, inr (e, k, refl))))
        ]
      ]

  settled :
      (cells : List Cell)
      → Results flags format_int Answers file server cells
      → Answer (download_file_concurrently archives sha1_hex flags before cells)
  unfolding download_file_concurrently
  settled cells (inl (e, h)) = rw (h, download_file_concurrently) (inl (refl, inl (e, refl)))
  settled cells (inr (inl (status, q, h))) =
      rw (h, download_file_concurrently, q) (inl (refl, inr (status, q, refl)))
  settled cells (inr (inr (h, k))) =
      let chunks = map content_of cells in
      let written = merged-file chunks ∙ k in
      elim (Option-cases (merge_chunks sha1_hex chunks (located archives flags)).1) [
        | inl o ↦
            let same : download_file_concurrently archives sha1_hex flags before cells
                ≡ exploded archives (located archives flags) 206 file =
              rw (h, download_file_concurrently, o)
                (ap (exploded archives (located archives flags) 206) written) in
            subst Answer (sym same) (inr (inr (matched chunks k o, exploded-Delivered)))
        | inr (e, o) ↦
            let wrong = mismatched chunks e o in
            let wrong' : str_eq (sha1_hex file) flags.expected_sha1 ≡ false = rw k at wrong in
            let same : download_file_concurrently archives sha1_hex flags before cells
                ≡ record { file = some file; result = err e } =
              rw (h, download_file_concurrently, o)
                (ap (λ w. record { file = some w; result = err e }) written) in
            subst Answer (sym same) (inr (inl (refl, (e, refl, wrong'))))
      ]

  -- For any way of answering that meets `Server`.
  pub finished-Answer :
      (s : State)
      → 0 < flags.split_count
      → flags.split_count ≤ flags.file_size
      → length file ≡ flags.file_size
      → Reaches flags format_int Answers s
      → IsFinished flags format_int Answers s
      → Answer (download_file_concurrently archives sha1_hex flags before s.cells)
  finished-Answer s p m l r f =
      settled s.cells (results flags format_int Answers file server s p m l r f)
