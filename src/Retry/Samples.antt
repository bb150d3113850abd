-- ===== src/Retry/Samples.antt =====
-- Tests and witnesses for Execute: a handler that succeeds at its third call.
use jfrog_client_go.Base.{false, ℕ, suc, ◌≡◌, refl, none, ltb, [], ◌<◌, ◌⊎◌, ◌↔◌}
use jfrog_client_go.Base.Text.{Bytes, codes}
use jfrog_client_go.Base.Int.{ℤ, pos, negsuc, ltb_ℤ}
use jfrog_client_go.Retry.{RetryExecutor, execute, get_timeout_error_msg, rested, timed_out}
use jfrog_client_go.Retry.Attempts.{execute_lem, GoesOn, Stops, or_timeout, last_error}

abbrev show_none : ℤ → Bytes
show_none i = []

abbrev third_time : RetryExecutor
third_time = record {
  context = λ i. none;
  max_retries = pos 5;
  retries_interval_milli_secs = pos 0;
  error_message = codes "busy";
  log_msg_prefix = [];
  execution_handler = λ i. (ltb i 2, none);
}

third_time-attempts : (execute show_none third_time).1.attempts ≡ 3
unfolding execute rested timed_out
third_time-attempts = refl

never : (execute show_none (record third_time { max_retries = negsuc 0 })).1.attempts ≡ 0
unfolding execute rested timed_out
never = refl

execute_example :
    ((k : ℕ) × (ltb_ℤ third_time.max_retries (pos k) ≡ false)
      × ((j : ℕ) → j < k → GoesOn third_time j)
      × Stops third_time k (execute show_none third_time).0
      × ((execute show_none third_time).1.attempts ≡ suc k))
    ⊎ ((n : ℕ) × ((j : ℕ) → (j < n) ↔ (ltb_ℤ third_time.max_retries (pos j) ≡ false))
        × ((j : ℕ) → j < n → GoesOn third_time j)
        × ((execute show_none third_time).1.attempts ≡ n)
        × ((execute show_none third_time).0
            ≡ or_timeout
                (get_timeout_error_msg show_none third_time)
                (last_error third_time n 0 none)))
execute_example = execute_lem show_none third_time
