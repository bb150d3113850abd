-- ===== src/Http.antt =====
-- http/httpclient/client.go: requests, uploads and downloads with retries, and the authentication of a request.
-- What the net/http client makes of each attempt is a function of the attempt's number. `show` is
-- fmt's %v for an int.
pub mod Requests
mod Samples
use jfrog_client_go.Base.{
  ℕ, zero, suc, Bool, true, false, ◌&&◌, not, Option, none, some, List, [], ◌∷◌, ◌++◌, ltb, leb,
  length, if◌then◌else◌,
}
use jfrog_client_go.Base.Int.{ℤ}
use jfrog_client_go.Base.Text.{Bytes, codes, str_eq, has_prefix}
use jfrog_client_go.Retry.{RetryExecutor, Trace, execute, is_some}

-- `ctx` is what its Err() answers after an attempt.
pub record HttpClient : Type 0 where
  pub ctx : ℕ → Option Bytes
  pub retries : ℤ
  pub retry_wait_milli_secs : ℤ

abbrev api_key_prefix : Bytes
api_key_prefix = codes "AKCp8"

abbrev api_key_minimal_length : ℕ
api_key_minimal_length = 73

unfoldable pub is_api_key : Bytes → Bool
unfolding has_prefix
is_api_key key = has_prefix api_key_prefix key && leb api_key_minimal_length (length key)

pub record HttpClientDetails : Type 0 where
  pub user : Bytes
  pub password : Bytes
  pub api_key : Bytes
  pub access_token : Bytes

-- The header that a request gets.
pub data Authentication : Type 0 where
  no_header : Authentication
  basic_auth : Bytes → Bytes → Authentication
  api_key_header : Bytes → Authentication
  bearer : Bytes → Authentication

unfoldable pub set_authentication : HttpClientDetails → Authentication
unfolding str_eq is_api_key
set_authentication details =
    if not (str_eq details.api_key [])
    then (if not (str_eq details.user [])
        then basic_auth details.user details.api_key
        else api_key_header details.api_key)
    else if not (str_eq details.access_token [])
    then (if is_api_key details.access_token
        then basic_auth details.user details.access_token
        else bearer details.access_token)
    else if not (str_eq details.password [])
    then basic_auth details.user details.password
    else no_header

-- What an attempt leaves in the captured variables; the response is its status.
pub record Attempt : Type 0 where
  pub response : Option ℕ
  pub redirect_url : Bytes
  pub error : Option Bytes

-- An attempt of Send: the error of createReq, before which nothing is sent.
pub record Sending : Type 0 where
  pub create_error : Option Bytes
  pub attempt : Attempt

-- (shouldRetry, err) of an attempt, with the message for an empty response.
unfoldable pub judge_attempt : Bytes → Attempt → Bool × Option Bytes
judge_attempt empty_message a = elim a.error [
  | some e ↦ (true, some e)
  | none ↦ elim a.response [
    | none ↦ (false, some empty_message)
    | some status ↦ if ltb status 500 then (false, none) else (true, none)
  ]
]

unfoldable pub judge_sending : Bytes → Sending → Bool × Option Bytes
unfolding judge_attempt
judge_sending empty_message s = elim s.create_error [
  | some e ↦ (true, some e)
  | none ↦ judge_attempt empty_message s.attempt
]

-- A redirect that is not followed is not tried again.
unfoldable pub judge_download : Bytes → Bool → Attempt → Bool × Option Bytes
unfolding judge_attempt str_eq is_some
judge_download empty_message follow_redirect a =
    if is_some a.error && (not follow_redirect && not (str_eq a.redirect_url []))
    then (false, a.error)
    else judge_attempt empty_message a

-- The response that is in the variable after `n` attempts.
unfoldable pub response_after : (ℕ → Attempt) → ℕ → Option ℕ
response_after attempts zero = none
response_after attempts (suc n) = (attempts n).response

unfoldable pub sent_after : (ℕ → Sending) → ℕ → Option ℕ
sent_after sendings zero = none
sent_after sendings (suc n) =
    let before = sent_after sendings n in
    elim (sendings n).create_error [ some e ↦ before | none ↦ (sendings n).attempt.response ]

abbrev pub no_context : ℕ → Option Bytes
no_context i = none

module _ (show : ℤ → Bytes) (client : HttpClient) (log_msg_prefix : Bytes) where
  -- The executor of a request; `prefix` begins its messages.
  abbrev executor : (ℕ → Option Bytes) → Bytes → Bytes → (ℕ → Bool × Option Bytes) → RetryExecutor
  executor context prefix message handler = record {
    context = context;
    max_retries = client.retries;
    retries_interval_milli_secs = client.retry_wait_milli_secs;
    error_message = message;
    log_msg_prefix = prefix;
    execution_handler = handler;
  }

  -- (resp, err) of a request
  unfoldable pub send : Bytes → Bytes → (ℕ → Sending) → Option ℕ × Option Bytes
  unfolding execute judge_sending sent_after
  send method url sendings =
      let (err, trace) = execute show (
        executor client.ctx log_msg_prefix
          (codes "Failure occurred while sending " ++ (method ++ (codes " request to " ++ url)))
          (λ i.
            judge_sending (log_msg_prefix ++ codes "Received empty response from server")
              (sendings i))) in
      (sent_after sendings trace.attempts, err)

  unfoldable pub upload_file : Bytes → (ℕ → Attempt) → Option ℕ × Option Bytes
  unfolding execute judge_attempt response_after
  upload_file url attempts =
      let (err, trace) = execute show (
        executor no_context log_msg_prefix (codes "Failure occurred while uploading to " ++ url)
          (λ i.
            judge_attempt (log_msg_prefix ++ codes "Received empty response from file upload")
              (attempts i))) in
      (response_after attempts trace.attempts, err)

  unfoldable pub download_file : Bytes → Bool → (ℕ → Attempt) → Option ℕ × Option Bytes
  unfolding execute judge_download response_after
  download_file download_path follow_redirect attempts =
      let (err, trace) = execute show (
        executor no_context log_msg_prefix
          (codes "Failure occurred while downloading " ++ download_path)
          (λ i.
            judge_download (log_msg_prefix ++ codes "Received empty response from file download")
              follow_redirect (attempts i))) in
      (response_after attempts trace.attempts, err)

  -- `current_split` is the part's number in decimal.
  unfoldable pub download_file_range : Bytes → Bytes → (ℕ → Attempt) → Option ℕ × Option Bytes
  unfolding execute judge_attempt response_after
  download_file_range download_path current_split attempts =
      let prefix = log_msg_prefix ++ (codes "[" ++ (current_split ++ codes "]: ")) in
      let (err, trace) = execute show (
        executor no_context prefix
          (codes "Failure occurred while downloading part "
            ++ (current_split ++ (codes " of " ++ download_path)))
          (λ i.
            judge_attempt (prefix ++ codes "Received empty response from file download")
              (attempts i))) in
      (response_after attempts trace.attempts, err)
