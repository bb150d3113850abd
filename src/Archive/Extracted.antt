-- ===== src/Archive/Extracted.antt =====
-- The outcomes of ExtractArchive.
use jfrog_client_go.Base.{
  ◌≡◌, refl, ap, ◌∙◌, Bool, true, false, Option, none, some, ◌++◌, ◌⊎◌, inl, inr, Bool-cases,
  Option-cases,
}
use jfrog_client_go.Base.Text.{Bytes}
use jfrog_client_go.Archive.{
  Archives, path_separator, extract, get_extraction_path, archive_path, extract_archive,
}

module _ (archives : Archives) (local_path local_file_name origin_file_name : Bytes)
    (bypass_inspection : Bool) (file : Bytes) where
  -- The library extracts the file to the absolute local path, without an error.
  abbrev pub IsUnarchived : Type 0
  IsUnarchived =
      (path : Bytes) × (directory : Bytes) × (archives.abs
          (archive_path archives local_path local_file_name)
        ≡ (path, none))
      × (archives.abs local_path ≡ (directory, none))
      × ((archives.unarchive bypass_inspection path origin_file_name (directory ++ path_separator)
            file).1
          ≡ none)

  -- The file stays where its name is not that of a supported archive; of a supported one, the file is
  -- removed without an error once it is extracted, and else there is an error.
  abbrev pub IsExtraction : Option Bytes × Option Bytes → Type 0
  IsExtraction (left, error) =
      ((archives.is_supported_archive origin_file_name ≡ false)
        × (left ≡ some file)
        × (error ≡ none))
      ⊎ ((archives.is_supported_archive origin_file_name ≡ true)
          × ((IsUnarchived × (left ≡ none) × (error ≡ none)) ⊎ ((e : Bytes) × (error ≡ some e))))

  unsupported :
      archives.is_supported_archive origin_file_name ≡ false
      → extract_archive archives local_path local_file_name origin_file_name bypass_inspection file
        ≡ (some file, none)
  unfolding extract_archive
  unsupported h = rw (h, extract_archive) refl

  no_directory :
      (e : Bytes)
      → archives.is_supported_archive origin_file_name ≡ true
      → (archives.abs local_path).1 ≡ some e
      → extract_archive archives local_path local_file_name origin_file_name bypass_inspection file
        ≡ (some file, some e)
  unfolding extract_archive
  no_directory e h k = rw (h, extract_archive, k) refl

  no_path :
      (e : Bytes)
      → archives.is_supported_archive origin_file_name ≡ true
      → (archives.abs local_path).1 ≡ none
      → (archives.abs (archive_path archives local_path local_file_name)).1 ≡ some e
      → extract_archive archives local_path local_file_name origin_file_name bypass_inspection file
        ≡ (some file, some e)
  unfolding extract_archive
  no_path e h k p = rw (h, extract_archive, k, p) refl

  extracted :
      archives.is_supported_archive origin_file_name ≡ true
      → (archives.abs local_path).1 ≡ none
      → (archives.abs (archive_path archives local_path local_file_name)).1 ≡ none
      → extract_archive archives local_path local_file_name origin_file_name bypass_inspection file
        ≡ extract archives
            (archives.abs (archive_path archives local_path local_file_name)).0
            origin_file_name
            (get_extraction_path archives local_path).0
            bypass_inspection
            file
  unfolding extract_archive
  extracted h k p = rw (h, extract_archive, k, p) refl

  extraction_path_lem :
      (archives.abs local_path).1 ≡ none
      → (get_extraction_path archives local_path).0 ≡ (archives.abs local_path).0 ++ path_separator
  unfolding get_extraction_path
  extraction_path_lem h = rw (h, get_extraction_path) refl

  extract-failed :
      (path directory e : Bytes)
      → (archives.unarchive bypass_inspection path origin_file_name directory file).1 ≡ some e
      → (extract archives path origin_file_name directory bypass_inspection file).1 ≡ some e
  unfolding extract
  extract-failed path directory e h = rw (h, extract) refl

  extract_done :
      (path directory : Bytes)
      → (archives.unarchive bypass_inspection path origin_file_name directory file).1 ≡ none
      → extract archives path origin_file_name directory bypass_inspection file ≡ (none, none)
  unfolding extract
  extract_done path directory h = rw (h, extract) refl

  abs-none : (s : Bytes) → (archives.abs s).1 ≡ none → archives.abs s ≡ ((archives.abs s).0, none)
  abs-none s h = ap (λ e. ((archives.abs s).0, e)) h

  pub extract_archive-IsExtraction :
      IsExtraction (
        extract_archive archives local_path local_file_name origin_file_name bypass_inspection file)
  extract_archive-IsExtraction =
      elim (Bool-cases (archives.is_supported_archive origin_file_name)) [
        | inr e ↦ inl (e, ap (λ r. r.0) (unsupported e), ap (λ r. r.1) (unsupported e))
        | inl h ↦ inr (
          h,
          elim (Option-cases (archives.abs local_path).1) [
            | inr (e, k) ↦ inr (e, ap (λ r. r.1) (no_directory e h k))
            | inl k ↦
                let name = archive_path archives local_path local_file_name in
                elim (Option-cases (archives.abs name).1) [
                  | inr (e, p) ↦ inr (e, ap (λ r. r.1) (no_path e h k p))
                  | inl p ↦
                      let path = (archives.abs name).0 in
                      let directory = (archives.abs local_path).0 in
                      let run =
                        extracted h k p
                        ∙ ap (λ d. extract archives path origin_file_name d bypass_inspection file)
                            (extraction_path_lem k) in
                      elim (Option-cases
                        (archives.unarchive bypass_inspection path origin_file_name
                          (directory ++ path_separator) file).1) [
                            | inr (e, u) ↦ inr (
                              e,
                              ap (λ r. r.1) run
                                  ∙ extract-failed path (directory ++ path_separator) e u,
                            )
                            | inl u ↦
                                let done =
                                  run ∙ extract_done path (directory ++ path_separator) u in
                                inl (
                                  (path, directory, abs-none name p, abs-none local_path k, u),
                                  ap (λ r. r.0) done,
                                  ap (λ r. r.1) done,
                                )
                          ]
                ]
          ],
        )
      ]
