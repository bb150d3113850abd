-- ===== src/Download.antt =====
-- http/httpclient/client.go: the download of a file in chunks by concurrent goroutines, their
-- verification and their merge. The server is a relation between a Range header and what a chunk's download
-- comes to; `format_int` is strconv.FormatInt in base 10 and `sha1_hex` the hash in hexadecimal.
pub mod Ranges
pub mod Steps
pub mod Invariant
pub mod Scan
pub mod Complete
pub mod Delivered
pub mod Network
pub mod Ends
mod Samples
use jfrog_client_go.Base.{
  ℕ, zero, suc, ◌+◌, ◌-◌, ◌*◌, ◌/◌, ◌%◌, Bool, true, false, ◌&&◌, ◌||◌, not, Option, none, some,
  List, [], ◌∷◌, ◌++◌, ◌==◌, ltb, length, map, if◌then◌else◌,
}
use jfrog_client_go.Base.Int.{ℤ, pos, negsuc}
use jfrog_client_go.Base.Outcome.{Outcome, panic, ok, err, ◌>>=◌}
use jfrog_client_go.Base.Text.{Bytes, codes, str_eq}
use jfrog_client_go.Archive.{Archives, extract_archive}

-- Sizes are not negative.
pub record ConcurrentDownloadFlags : Type 0 where
  pub file_name : Bytes
  pub download_path : Bytes
  pub relative_path : Bytes
  pub local_file_name : Bytes
  pub local_path : Bytes
  pub expected_sha1 : Bytes
  pub file_size : ℕ
  pub split_count : ℕ
  pub explode : Bool
  pub bypass_archive_inspection : Bool
  pub skip_checksum : Bool

-- What downloadFileRange leaves: the chunk's file, and the response's status and the error, if any.
pub record Chunk : Type 0 where
  pub content : Bytes
  pub response : Option ℕ
  pub error : Option Bytes

-- A goroutine: started, with its results stored, or ended, with the shared variables written.
pub data Cell : Type 0 where
  pending : Cell
  stored : Chunk → Cell
  reported : Chunk → Cell

-- What the goroutines and the loop share.
pub record State : Type 0 where
  pub cells : List Cell
  pub err : Option Bytes
  pub resp : Option ℕ
  pub looping : Bool

abbrev pub partial_content : ℕ
partial_content = 206

module _ (flags : ConcurrentDownloadFlags) where
  unfoldable pub chunk_size : ℕ
  chunk_size = flags.file_size / flags.split_count

  unfoldable pub chunk_start : ℕ → ℕ
  chunk_start i = chunk_size * i

  unfoldable pub chunk_end : ℕ → ℕ
  chunk_end i =
      if suc i == flags.split_count
      then chunk_size * (i + 1) + flags.file_size % flags.split_count
      else chunk_size * (i + 1)

abbrev pub pred_ℤ : ℕ → ℤ
pred_ℤ zero = negsuc 0
pred_ℤ (suc n) = pos n

-- The Range header of the bytes from `start` to before `end`.
unfoldable pub range_header : (ℤ → Bytes) → ℕ → ℕ → Bytes
range_header format_int start end =
    codes "bytes=" ++ (format_int (pos start) ++ (codes "-" ++ format_int (pred_ℤ end)))

abbrev pub start_state : State
start_state = record { cells = []; err = none; resp = none; looping = true }

-- A break of the loop.
unfoldable pub breaks : State → Bool
breaks s = elim s.err [
  | some e ↦ true
  | none ↦ elim s.resp [ none ↦ false | some status ↦ not (status == partial_content) ]
]

-- The shared variables after a goroutine.
unfoldable pub report_err : Chunk → Option Bytes → Option Bytes
report_err c before = elim c.error [ none ↦ before | some e ↦ some e ]

unfoldable pub report_resp : Chunk → Option ℕ → Option ℕ
report_resp c before = elim c.response [
  | none ↦ before
  | some status ↦ if status == partial_content then before else some status
]

-- The entries of errorsList and respList for the goroutines that were started.
unfoldable pub error_of : Cell → Option Bytes
error_of pending = none
error_of (stored c) = c.error
error_of (reported c) = c.error

unfoldable pub response_of : Cell → Option ℕ
response_of pending = none
response_of (stored c) = c.response
response_of (reported c) = c.response

unfoldable pub content_of : Cell → Bytes
content_of pending = []
content_of (stored c) = c.content
content_of (reported c) = c.content

unfoldable pub first_error : List Cell → Option Bytes
unfolding error_of
first_error [] = none
first_error (x ∷ xs) = elim (error_of x) [ some e ↦ some e | none ↦ first_error xs ]

-- The entries of respList that no goroutine wrote.
unfoldable pub nils : ℕ → List (Option ℕ)
nils zero = []
nils (suc n) = none ∷ nils n

-- The loop that looks for another status than 206: reading the status of a nil response panics.
unfoldable pub first_unexpected : List (Option ℕ) → Outcome (Option ℕ)
first_unexpected [] = ok none
first_unexpected (none ∷ rs) = panic
first_unexpected (some status ∷ rs) =
    if not (status == partial_content) then ok (some status) else first_unexpected rs

-- respList[len(respList)-1], whose status the caller reads.
unfoldable pub last_response : List (Option ℕ) → Outcome ℕ
last_response [] = panic
last_response (none ∷ []) = panic
last_response (some status ∷ []) = ok status
last_response (r ∷ s ∷ rs) = last_response (s ∷ rs)

unfoldable pub resp_list : ℕ → List Cell → List (Option ℕ)
unfolding response_of nils
resp_list split_count cells = map response_of cells ++ nils (split_count - length cells)

-- What downloadChunksConcurrently returns after wg.Wait(): an error, or the response's status.
unfoldable pub download_chunks_result : ConcurrentDownloadFlags → List Cell → Outcome ℕ
unfolding first_error first_unexpected last_response resp_list
download_chunks_result flags cells = elim (first_error cells) [
  | some e ↦ err e
  | none ↦ first_unexpected (resp_list flags.split_count cells) >>= λ unexpected. elim unexpected [
    | some status ↦ ok status
    | none ↦ last_response (resp_list flags.split_count cells)
  ]
]

unfoldable pub concat : List Bytes → Bytes
concat [] = []
concat (s ∷ ss) = s ++ concat ss

-- The files' failures are left out. What is appended to the destination, and the error.
unfoldable pub merge_chunks :
    (Bytes → Bytes) → List Bytes → ConcurrentDownloadFlags → Bytes × Option Bytes
unfolding concat str_eq
merge_chunks sha1_hex chunks flags =
    let written = concat chunks in
    let actual = sha1_hex written in
    (
      written,
      if ltb 0 (length flags.expected_sha1)
            && (not flags.skip_checksum && not (str_eq actual flags.expected_sha1))
          then some (
              codes "Checksum mismatch for  "
              ++ (flags.local_file_name
                  ++ (codes ", expected: "
                      ++ (flags.expected_sha1 ++ (codes ", actual: " ++ actual)))))
          else none,
    )

-- The flags with the destination's name, in the local path if there is one.
unfoldable pub located : Archives → ConcurrentDownloadFlags → ConcurrentDownloadFlags
unfolding str_eq
located archives flags = record {
  file_name = flags.file_name;
  download_path = flags.download_path;
  relative_path = flags.relative_path;
  local_file_name =
      if not (str_eq flags.local_path [])
      then archives.join flags.local_path flags.local_file_name
      else flags.local_file_name;
  local_path = flags.local_path;
  expected_sha1 = flags.expected_sha1;
  file_size = flags.file_size;
  split_count = flags.split_count;
  explode = flags.explode;
  bypass_archive_inspection = flags.bypass_archive_inspection;
  skip_checksum = flags.skip_checksum;
}

-- The destination after the download, if it is there, and the status or the error.
pub record Downloaded : Type 0 where
  pub file : Option Bytes
  pub result : Outcome ℕ

-- The end of DownloadFileConcurrently: the merged file is extracted if that is asked for.
unfoldable pub exploded : Archives → ConcurrentDownloadFlags → ℕ → Bytes → Downloaded
unfolding extract_archive
exploded archives flags status written = elim flags.explode [
  | false ↦ record { file = some written; result = ok status }
  | true ↦
      let (file, e) =
        extract_archive archives flags.local_path flags.local_file_name flags.file_name
          flags.bypass_archive_inspection written in
      record { file = file; result = elim e [ some e' ↦ err e' | none ↦ ok status ] }
]

-- After the chunks: a destination that was there is removed before the merge.
unfoldable pub download_file_concurrently :
    Archives → (Bytes → Bytes) → ConcurrentDownloadFlags → Option Bytes → List Cell → Downloaded
unfolding download_chunks_result merge_chunks content_of located exploded
download_file_concurrently archives sha1_hex flags before cells =
    elim (download_chunks_result flags cells) [
      | panic ↦ record { file = before; result = panic }
      | err e ↦ record { file = before; result = err e }
      | ok status ↦
          if not (status == partial_content)
          then record { file = before; result = ok status }
          else let (written, mismatch) =
              merge_chunks sha1_hex (map content_of cells) (located archives flags) in
            elim mismatch [
              | some e ↦ record { file = some written; result = err e }
              | none ↦ exploded archives (located archives flags) status written
            ]
    ]
