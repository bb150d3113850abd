-- ===== src/Download/Samples.antt =====
-- A file of seven bytes in two chunks, whose second goroutine ends first.
use jfrog_client_go.Base.{
  ℕ, ◌+◌, ◌<◌, ◌≤◌, ◌≡◌, refl, false, none, some, [], ◌∷◌, ◌++◌, true, ◌⊎◌, arith,
}
use jfrog_client_go.Base.Int.{ℤ, pos, negsuc}
use jfrog_client_go.Base.Outcome.{ok}
use jfrog_client_go.Base.Text.{Bytes, codes, ends_with}
use jfrog_client_go.Archive.{Archives}
use jfrog_client_go.Download.{
  ConcurrentDownloadFlags, Chunk, reported, State, start_state, chunk_size, chunk_start, chunk_end,
  range_header, download_file_concurrently,
}
use jfrog_client_go.Download.Ranges.{slice, chunk_ranges_lem}
use jfrog_client_go.Download.Steps.{Step, here, IsFinished}
use jfrog_client_go.Download.Network.{Network, RangeAnswers}
use jfrog_client_go.Http.{HttpClient, Attempt}
use jfrog_client_go.Download.Ends.{steps_left, download_chunks-ends}

abbrev flags : ConcurrentDownloadFlags
flags = record {
  file_name = codes "f";
  download_path = codes "u";
  relative_path = codes "f";
  local_file_name = codes "f";
  local_path = [];
  expected_sha1 = [];
  file_size = 7;
  split_count = 2;
  explode = false;
  bypass_archive_inspection = false;
  skip_checksum = false;
}

abbrev file : Bytes
file = codes "abcdefg"

-- Numbers below 10 in decimal are enough for this file.
abbrev format_int : ℤ → Bytes
format_int (pos n) = (48 + n) ∷ []
format_int (negsuc n) = codes "-"

headers : range_header format_int (chunk_start flags 1) (chunk_end flags 1) ≡ codes "bytes=3-6"
unfolding range_header chunk_start chunk_end chunk_size
headers = refl

abbrev no_hash : Bytes → Bytes
no_hash s = []

abbrev part : Bytes → Chunk
part s = record { content = s; response = some 206; error = none }

-- A file system where all names are absolute, and a library that reads names that end in "p".
abbrev archives : Archives
archives = record {
  join = λ d f. d ++ (b'/' ∷ f);
  abs = λ s. (s, none);
  is_supported_archive = ends_with b'p';
  unarchive = λ bypass path origin directory s. (s, none);
}

abbrev done_state : State
done_state = record {
  cells = reported (part (codes "abc")) ∷ reported (part (codes "defg")) ∷ [];
  err = none;
  resp = none;
  looping = false;
}

downloaded :
    download_file_concurrently archives no_hash flags (some (codes "old")) done_state.cells
    ≡ record { file = some file; result = ok 206 }
unfolding download_file_concurrently
downloaded = refl

-- With Explode, the archive is gone after it is extracted.
extracted :
    download_file_concurrently archives no_hash
      (record flags { explode = true; file_name = codes "f.zip" })
      none
      done_state.cells
    ≡ record { file = none; result = ok 206 }
unfolding download_file_concurrently ends_with
extracted = refl

too_many : Chunk
too_many = record { content = []; response = some 429; error = none }

-- The second goroutine was not started after the first had a 429.
refused :
    download_file_concurrently archives no_hash flags (some (codes "old")) (reported too_many ∷ [])
    ≡ record { file = some (codes "old"); result = ok 429 }
unfolding download_file_concurrently too_many
refused = refl

chunk_ranges_example :
    (chunk_start flags 1 ≤ chunk_end flags 1)
    × (chunk_end flags 1 ≤ 7)
    × (◌≡◌ {A = ℕ} 1 0 → chunk_start flags 1 ≡ 0)
    × (2 < 2 → chunk_end flags 1 ≡ chunk_start flags 2)
    × (◌≡◌ {A = ℕ} 2 2 → chunk_end flags 1 ≡ 7)
chunk_ranges_example = chunk_ranges_lem flags 1 (omega arith)

-- A chunk has the bytes of the range if the header names one in the file.
abbrev Serves : Bytes → Chunk → Type 0
Serves h c =
    (start end : ℕ)
    → start < end
    → end ≤ 7
    → h ≡ range_header format_int start end
    → c.content ≡ slice start end file

network : Network format_int Serves file
network = record { serves = λ start end c l b a e r. a start end l b refl }

abbrev client : HttpClient
client = record { ctx = λ i. none; retries = pos 0; retry_wait_milli_secs = pos 0 }

abbrev Answers : Bytes → Chunk → Type 0
Answers = RangeAnswers format_int client [] (codes "u") flags format_int Serves file network

abbrev at_once : ℕ → Attempt
at_once i = record { response = some 206; redirect_url = []; error = none }

-- A server that may answer anything.
abbrev Anything : Bytes → Chunk → Type 0
Anything h c = Unit

download_chunks-ends_example :
    (IsFinished flags format_int Anything start_state
      ⊎ ((t : State) × Step flags format_int Anything start_state t))
    × ((t : State)
        → Step flags format_int Anything start_state t
        → steps_left flags t < steps_left flags start_state)
download_chunks-ends_example =
    download_chunks-ends flags format_int Anything (λ h. (too_many, tt)) start_state here
