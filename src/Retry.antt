-- ===== src/Retry.antt =====
-- utils/retryexecutor.go: running a handler until it needs no retry, at most MaxRetries + 1 times.
-- The handler and the context are functions of the attempt's number, as the outside world answers
-- it; `show` is fmt's %v for an int.
pub mod Attempts
mod Samples
use jfrog_client_go.Base.{
  ℕ, zero, suc, ◌+◌, Bool, true, false, Option, none, some, List, [], ◌∷◌, ◌++◌, if◌then◌else◌,
  ◌&&◌, ◌||◌, not,
}
use jfrog_client_go.Base.Int.{ℤ, pos, negsuc, ltb_ℤ}
use jfrog_client_go.Base.Text.{Bytes, codes, str_eq}

pub record RetryExecutor : Type 0 where
  -- What `Context.Err()` answers after an attempt: `some` is context.Canceled. A nil context and any
  -- other error are `none`.
  pub context : ℕ → Option Bytes
  pub max_retries : ℤ
  pub retries_interval_milli_secs : ℤ
  pub error_message : Bytes
  pub log_msg_prefix : Bytes
  -- (shouldRetry, err)
  pub execution_handler : ℕ → Bool × Option Bytes

pub data LogLine : Type 0 where
  debug : Bytes → LogLine
  info : Bytes → LogLine
  warn : Bytes → LogLine

-- What the loop changes: the number of the handler's calls, the log, and the sleeps in milliseconds.
pub record Trace : Type 0 where
  pub attempts : ℕ
  pub log : List LogLine
  pub sleeps : List ℤ

unfoldable pub is_some : Option Bytes → Bool
is_some none = false
is_some (some e) = true

-- `message` with ": " and the error's text, where there is an error.
unfoldable pub with_error : Bytes → Option Bytes → Bytes
with_error message none = message
with_error message (some e) = message ++ (codes ": " ++ e)

unfoldable pub check_cancelled : RetryExecutor → ℕ → Option Bytes
check_cancelled runner i = runner.context i

-- The rounds of `for i := 0; i <= MaxRetries; i++`.
unfoldable pub attempts_allowed : ℤ → ℕ
attempts_allowed (pos n) = suc n
attempts_allowed (negsuc n) = 0

module _ (show : ℤ → Bytes) where
  unfoldable pub log_retry : RetryExecutor → ℕ → Option Bytes → LogLine
  unfolding str_eq with_error is_some
  log_retry runner i e =
      let head =
        runner.log_msg_prefix ++ (codes "(Attempt " ++ (show (pos (suc i)) ++ codes ")")) in
      let named =
        if str_eq runner.error_message []
        then head
        else head ++ (codes " - " ++ runner.error_message) in
      let message = with_error named e in
      if is_some e || not (str_eq runner.error_message []) then warn message else debug message

  unfoldable pub get_timeout_error_msg : RetryExecutor → Bytes
  get_timeout_error_msg runner =
      (if str_eq runner.log_msg_prefix [] then [] else runner.log_msg_prefix ++ codes " ")
      ++ (codes "executor timeout after "
          ++ (show runner.max_retries
              ++ (codes " attempts with "
                  ++ (show runner.retries_interval_milli_secs
                      ++ codes " milliseconds wait intervals"))))

  -- The end of Execute, after the last round.
  unfoldable pub timed_out : RetryExecutor → Option Bytes → Trace → Option Bytes × Trace
  timed_out runner (some e) trace =
      (some e, record trace { log = trace.log ++ info (get_timeout_error_msg runner) ∷ [] })
  timed_out runner none trace = (some (get_timeout_error_msg runner), trace)

  -- The log line and the sleep between two rounds.
  unfoldable pub rested : RetryExecutor → ℕ → Option Bytes → Trace → Trace
  rested runner i e trace = record {
    attempts = trace.attempts;
    log = trace.log ++ log_retry runner i e ∷ [];
    sleeps =
        if ltb_ℤ (pos 0) runner.retries_interval_milli_secs && ltb_ℤ (pos i) runner.max_retries
        then trace.sleeps ++ runner.retries_interval_milli_secs ∷ []
        else trace.sleeps;
  }

  -- `left` rounds are to come, `i` is the attempt's number, and `last` the error of the last attempt.
  unfoldable pub attempt_from : RetryExecutor → ℕ → ℕ → Option Bytes → Trace → Option Bytes × Trace
  unfolding check_cancelled
  attempt_from runner zero i last trace = timed_out runner last trace
  attempt_from runner (suc left) i last trace =
      let (should_retry, e) = runner.execution_handler i in
      let called = record trace { attempts = suc trace.attempts } in
      let rest = attempt_from runner left (suc i) e (rested runner i e called) in
      if should_retry
      then elim (check_cancelled runner i) [
        | some c ↦ (
          some c,
          record called { log = called.log ++ info (codes "Retry executor was cancelled") ∷ [] },
        )
        | none ↦ rest
      ]
      else (e, called)

  unfoldable pub execute : RetryExecutor → Option Bytes × Trace
  unfolding attempt_from attempts_allowed
  execute runner =
      attempt_from runner (attempts_allowed runner.max_retries) 0 none
        (record { attempts = 0; log = []; sleeps = [] })
