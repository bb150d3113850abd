-- ===== src/Archive.antt =====
-- utils/archiveutils.go: what ExtractArchive does with a downloaded archive. The paths' functions and
-- the library that reads archives are the arguments of `Archives`; of the files, only the archive's own
-- is kept, and the creation of directories and the removal of a file take no fault.
pub mod Extracted
use jfrog_client_go.Base.{
  Bool, true, false, not, Option, none, some, List, [], ◌∷◌, ◌++◌, if◌then◌else◌,
}
use jfrog_client_go.Base.Text.{Bytes, has_prefix}

pub record Archives : Type 0 where
  -- filepath.Join
  pub join : Bytes → Bytes → Bytes
  -- filepath.Abs: the path and the error
  pub abs : Bytes → Bytes × Option Bytes
  -- unarchiver.IsSupportedArchive
  pub is_supported_archive : Bytes → Bool
  -- unarchiver.Unarchive: whether inspection is bypassed, the archive's path, its original name, where it
  -- is extracted to, and the archive's bytes; what stands at the archive's path then, and the error.
  pub unarchive : Bool → Bytes → Bytes → Bytes → Bytes → Bytes × Option Bytes

-- os.PathSeparator
abbrev pub path_separator : Bytes
path_separator = b'/' ∷ []

module _ (archives : Archives) where
  -- The file after it, if it is there, and the error.
  unfoldable pub extract : Bytes → Bytes → Bytes → Bool → Bytes → Option Bytes × Option Bytes
  extract local_file_path origin_archive_name extraction_path bypass_inspection file =
      let (left, e) =
        archives.unarchive bypass_inspection local_file_path origin_archive_name extraction_path
          file in
      elim e [ some e' ↦ (some left, some e') | none ↦ (none, none) ]

  unfoldable pub get_extraction_path : Bytes → Bytes × Option Bytes
  get_extraction_path local_path =
      let (absolute_path, e) = archives.abs local_path in
      elim e [ some e' ↦ ([], some e') | none ↦ (absolute_path ++ path_separator, none) ]

  -- The archive's path before it is made absolute.
  unfoldable pub archive_path : Bytes → Bytes → Bytes
  unfolding has_prefix
  archive_path local_path local_file_name =
      if not (has_prefix local_path local_file_name)
      then archives.join local_path local_file_name
      else local_file_name

  -- The archive's file, to the file afterwards and the error.
  unfoldable pub extract_archive :
      Bytes → Bytes → Bytes → Bool → Bytes → Option Bytes × Option Bytes
  unfolding extract get_extraction_path archive_path
  extract_archive local_path local_file_name origin_file_name bypass_inspection file =
      elim (archives.is_supported_archive origin_file_name) [
        | false ↦ (some file, none)
        | true ↦
            let (extraction_path, e) = get_extraction_path local_path in
            elim e [
              | some e' ↦ (some file, some e')
              | none ↦
                  let (path, f) = archives.abs (archive_path local_path local_file_name) in
                  elim f [
                    | some f' ↦ (some file, some f')
                    | none ↦ extract path origin_file_name extraction_path bypass_inspection file
                  ]
            ]
      ]
