-- ===== src/Http/Requests.antt =====
-- A request that returns no error has a response below 500, the first that an attempt had.
use mathlib.Core.Bool.{false≢true}
use jfrog_client_go.Base.{
  ℕ, suc, ◌<◌, ◌≡◌, refl, sym, ap, ◌∙◌, Bool, true, false, ◌&&◌, not, Option, none, some, [], inl,
  inr, ltb, Bool-cases, Option-cases,
}
use jfrog_client_go.Base.Int.{ℤ}
use jfrog_client_go.Base.Text.{Bytes, str_eq}
use jfrog_client_go.Retry.{is_some, RetryExecutor, execute}
use jfrog_client_go.Retry.Attempts.{GoesOn, Stops, or_timeout, execute_lem}
use jfrog_client_go.Http.{
  HttpClient, Attempt, Sending, judge_attempt, judge_sending, judge_download, response_after,
  sent_after, send, upload_file, download_file, download_file_range,
}

or_timeout-some : (message : Bytes) (e : Option Bytes) → or_timeout message e ≡ none → ⊥
unfolding or_timeout
or_timeout-some message none h = cc
or_timeout-some message (some e) h = cc

-- Without an error, the last attempt asked for no retry and had no error, and those before asked for one.
execute-none :
    (show : ℤ → Bytes) (runner : RetryExecutor)
    → (execute show runner).0 ≡ none
    → (k : ℕ) × ((execute show runner).1.attempts ≡ suc k)
      × (runner.execution_handler k ≡ (false, none))
      × ((j : ℕ) → j < k → (runner.execution_handler j).0 ≡ true)
unfolding GoesOn Stops
execute-none show runner h = elim (execute_lem show runner) [
  | inl (k, _, before, inl (stop, e), n) ↦
      let no_error : (runner.execution_handler k).1 ≡ none = sym e ∙ h in
      (
        k,
        n,
        ap (λ b. (b, (runner.execution_handler k).1)) stop ∙ ap (λ x. (false, x)) no_error,
        λ j l. (before j l).0,
      )
  | inl (k, _, before, inr (_, (c, (_, e))), n) ↦ let wrong = sym h ∙ e in cc
  | inr (_, _, _, _, e) ↦ absurd (or_timeout-some _ _ (sym e ∙ h))
]

abbrev pub IsGood : Attempt → ℕ → Type 0
IsGood a status = (a.error ≡ none) × (a.response ≡ some status) × (ltb status 500 ≡ true)

abbrev pub IsGoodSending : Sending → ℕ → Type 0
IsGoodSending s status = (s.create_error ≡ none) × IsGood s.attempt status

-- A nil error comes with the response of the first good attempt.
abbrev pub IsFirstGood : (ℕ → ℕ → Type 0) → Option ℕ × Option Bytes → Type 0
IsFirstGood Good (response, error) =
    error ≡ none
    → (k : ℕ) × (status : ℕ) × Good k status
      × (response ≡ some status)
      × ((j : ℕ) → j < k → (other : ℕ) → ¬ Good j other)

judge_attempt-IsGood :
    (message : Bytes) (a : Attempt)
    → judge_attempt message a ≡ (false, none)
    → (status : ℕ) × IsGood a status
unfolding judge_attempt
judge_attempt-IsGood message a h = elim (Option-cases a.error) [
  | inl k ↦ elim (Option-cases a.response) [
    | inl r ↦
        let h' : ◌≡◌ {A = Bool × Option Bytes} (false, some message) (false, none) =
          rw (k, r) at h in
        let wrong = ap (λ p. p.1) h' in cc
    | inr (status, r) ↦ elim (Bool-cases (ltb status 500)) [
      | inl l ↦ (status, (k, r, l))
      | inr l ↦
          let h' : ◌≡◌ {A = Bool × Option Bytes} (true, none) (false, none) = rw (k, r, l) at h in
          absurd (false≢true (sym (ap (λ p. p.0) h')))
    ]
  ]
  | inr (e, k) ↦
      let h' : ◌≡◌ {A = Bool × Option Bytes} (true, some e) (false, none) = rw k at h in
      absurd (false≢true (sym (ap (λ p. p.0) h')))
]

IsGood-judge_attempt :
    (message : Bytes) (a : Attempt) (status : ℕ)
    → IsGood a status
    → (judge_attempt message a).0 ≡ false
unfolding judge_attempt
IsGood-judge_attempt message a status (h, k, l) = rw (h, judge_attempt, k, l) refl

judge_sending-IsGoodSending :
    (message : Bytes) (s : Sending)
    → judge_sending message s ≡ (false, none)
    → (status : ℕ) × IsGoodSending s status
unfolding judge_sending
judge_sending-IsGoodSending message s h = elim (Option-cases s.create_error) [
  | inl k ↦
      let (status, good) = judge_attempt-IsGood message s.attempt (rw k at h) in (status, (k, good))
  | inr (e, k) ↦
      let h' : ◌≡◌ {A = Bool × Option Bytes} (true, some e) (false, none) = rw k at h in
      absurd (false≢true (sym (ap (λ p. p.0) h')))
]

IsGoodSending-judge_sending :
    (message : Bytes) (s : Sending) (status : ℕ)
    → IsGoodSending s status
    → (judge_sending message s).0 ≡ false
unfolding judge_sending
IsGoodSending-judge_sending message s status (c, good) =
    rw (c, judge_sending) (IsGood-judge_attempt message s.attempt status good)

abbrev is_blocked : Bool → Attempt → Bool
is_blocked follow a = is_some a.error && (not follow && not (str_eq a.redirect_url []))

judge_download-blocked :
    (message : Bytes) (follow : Bool) (a : Attempt)
    → is_blocked follow a ≡ true
    → judge_download message follow a ≡ (false, a.error)
unfolding judge_download
judge_download-blocked message follow a h = rw h refl

judge_download-else :
    (message : Bytes) (follow : Bool) (a : Attempt)
    → is_blocked follow a ≡ false
    → judge_download message follow a ≡ judge_attempt message a
unfolding judge_download
judge_download-else message follow a h = rw h refl

good-not_blocked : (follow : Bool) (a : Attempt) → a.error ≡ none → is_blocked follow a ≡ false
unfolding is_some
good-not_blocked follow a h =
    ap (λ e. is_some e && (not follow && not (str_eq a.redirect_url []))) h

judge_download-IsGood :
    (message : Bytes) (follow : Bool) (a : Attempt)
    → judge_download message follow a ≡ (false, none)
    → (status : ℕ) × IsGood a status
judge_download-IsGood message follow a h = elim (Bool-cases (is_blocked follow a)) [
  | inl k ↦
      let no_error = ap (λ p. p.1) (sym (judge_download-blocked message follow a k) ∙ h) in
      absurd (false≢true (sym (good-not_blocked follow a no_error) ∙ k))
  | inr k ↦ judge_attempt-IsGood message a (sym (judge_download-else message follow a k) ∙ h)
]

IsGood-judge_download :
    (message : Bytes) (follow : Bool) (a : Attempt) (status : ℕ)
    → IsGood a status
    → (judge_download message follow a).0 ≡ false
IsGood-judge_download message follow a status good =
    ap (λ p. p.0) (judge_download-else message follow a (good-not_blocked follow a good.0))
    ∙ IsGood-judge_attempt message a status good

-- A handler that takes exactly the good attempts for the end.
first-good :
    (show : ℤ → Bytes) (runner : RetryExecutor) (Good : ℕ → ℕ → Type 0) (response : ℕ → Option ℕ)
    → ((k : ℕ) → runner.execution_handler k ≡ (false, none) → (status : ℕ) × Good k status)
    → ((k status : ℕ) → Good k status → (runner.execution_handler k).0 ≡ false)
    → ((k status : ℕ) → Good k status → response (suc k) ≡ some status)
    → IsFirstGood Good (response (execute show runner).1.attempts, (execute show runner).0)
first-good show runner Good response sound complete left h =
    let (k, n, last, before) = execute-none show runner h in
    let (status, good) = sound k last in
    (
      k,
      status,
      good,
      ap response n ∙ left k status good,
      λ j l other g. false≢true (sym (complete j other g) ∙ before j l),
    )

-- Send, UploadFile, downloadFile and downloadFileRange return a nil error only with a response: the status of the
-- first attempt that was made without an error and with a status below 500.
pub requests_lem :
    (show : ℤ → Bytes) (client : HttpClient) (log_msg_prefix method url part : Bytes)
    (follow : Bool) (sendings : ℕ → Sending) (attempts : ℕ → Attempt)
    → IsFirstGood
        (λ k. IsGoodSending (sendings k))
        (send show client log_msg_prefix method url sendings)
      × IsFirstGood (λ k. IsGood (attempts k)) (upload_file show client log_msg_prefix url attempts)
      × IsFirstGood
          (λ k. IsGood (attempts k))
          (download_file show client log_msg_prefix url follow attempts)
      × IsFirstGood
          (λ k. IsGood (attempts k))
          (download_file_range show client log_msg_prefix url part attempts)
unfolding send upload_file download_file download_file_range sent_after response_after
requests_lem show client prefix method url part follow sendings attempts = (
  first-good show _ (λ k. IsGoodSending (sendings k)) (sent_after sendings)
      (λ k. judge_sending-IsGoodSending _ (sendings k))
      (λ k. IsGoodSending-judge_sending _ (sendings k))
      (λ k status good. rw (sent_after, good.0) good.1.1),
  first-good show _ (λ k. IsGood (attempts k)) (response_after attempts)
      (λ k. judge_attempt-IsGood _ (attempts k)) (λ k. IsGood-judge_attempt _ (attempts k))
      (λ k status good. good.1),
  first-good show _ (λ k. IsGood (attempts k)) (response_after attempts)
      (λ k. judge_download-IsGood _ follow (attempts k))
      (λ k. IsGood-judge_download _ follow (attempts k)) (λ k status good. good.1),
  first-good show _ (λ k. IsGood (attempts k)) (response_after attempts)
      (λ k. judge_attempt-IsGood _ (attempts k)) (λ k. IsGood-judge_attempt _ (attempts k))
      (λ k status good. good.1),
)
