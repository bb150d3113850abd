-- ===== src/Download/Network.antt =====
-- The download in chunks whose parts are requested by downloadFileRange, against a network that serves ranges.
use jfrog_client_go.Base.{[], true, ℕ, ◌<◌, ◌≤◌, ◌≡◌, sym, ap, ◌∙◌, none, some, length}
use jfrog_client_go.Base.Int.{ℤ}
use jfrog_client_go.Base.Text.{Bytes}
use jfrog_client_go.Http.{HttpClient, Attempt, download_file_range}
use jfrog_client_go.Http.Requests.{requests_lem}
use jfrog_client_go.Download.{ConcurrentDownloadFlags, Chunk, range_header}
use jfrog_client_go.Download.Ranges.{slice}
use jfrog_client_go.Download.Scan.{Server}

-- What the code relies on: a 206 response to a range that lies in the file has the bytes of that range.
pub record Network (format_int : ℤ → Bytes) (Serves : Bytes → Chunk → Type 0) (file : Bytes)
    : Type 0 where
  pub serves :
      (start end : ℕ) (c : Chunk)
      → start < end
      → end ≤ length file
      → Serves (range_header format_int start end) c
      → c.error ≡ none
      → c.response ≡ some 206
      → c.content ≡ slice start end file

module _ (show : ℤ → Bytes) (client : HttpClient) (log_msg_prefix download_path : Bytes)
    (flags : ConcurrentDownloadFlags) (format_int : ℤ → Bytes) (Serves : Bytes → Chunk → Type 0)
    (file : Bytes) (network : Network format_int Serves file) where
  -- A chunk's response and error are those of downloadFileRange for some attempts, and its content is
  -- what the network serves.
  abbrev pub RangeAnswers : Bytes → Chunk → Type 0
  RangeAnswers h c =
      (part : Bytes) × (attempts : ℕ → Attempt) × (download_file_range show client log_msg_prefix
          download_path part attempts
        ≡ (c.response, c.error))
      × Serves h c

  responds :
      (h : Bytes) (c : Chunk)
      → RangeAnswers h c
      → c.error ≡ none
      → (status : ℕ) × (c.response ≡ some status)
  responds h c (part, attempts, e, _) none_there =
      let (_, _, _, first) =
        requests_lem show client log_msg_prefix [] download_path part true
          (λ i. record { create_error = none; attempt = attempts i }) attempts in
      let (k, status, good, found, before) = first (ap (λ r. r.1) e ∙ none_there) in
      (status, sym (ap (λ r. r.0) e) ∙ found)

  pub range_server : Server format_int RangeAnswers file
  range_server = record {
    responds = responds;
    serves = λ start end c l b a. network.serves start end c l b a.3;
  }
