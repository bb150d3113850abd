-- ===== src/Retry/Attempts.antt =====
-- utils/retryexecutor.go: how often Execute calls the handler, and what it returns.
use jfrog_client_go.Base.{
  ℕ, zero, suc, ◌+◌, ◌≤◌, ◌<◌, true, false, Option, none, some, [], ◌≡◌, refl, ◌⊎◌, ◌↔◌, inl, inr,
  arith, Bool-cases, Option-cases, ap, sym, ◌∙◌,
}
use jfrog_client_go.Base.Text.{Bytes}
use jfrog_client_go.Base.Int.{ℤ, pos, negsuc, ltb_ℤ}
use jfrog_client_go.Retry.{
  RetryExecutor, Trace, attempt_from, attempts_allowed, check_cancelled, execute, timed_out,
  get_timeout_error_msg, rested,
}

-- The attempt asks for a retry and the context is not cancelled.
unfoldable pub GoesOn : RetryExecutor → ℕ → Type 0
GoesOn runner i = ((runner.execution_handler i).0 ≡ true) × (check_cancelled runner i ≡ none)

-- The attempt ends the loop with the result `e`: the handler's own, or the cancellation.
unfoldable pub Stops : RetryExecutor → ℕ → Option Bytes → Type 0
Stops runner i e =
    (((runner.execution_handler i).0 ≡ false) × (e ≡ (runner.execution_handler i).1))
    ⊎ (((runner.execution_handler i).0 ≡ true)
        × ((c : Bytes) × ((check_cancelled runner i ≡ some c) × (e ≡ some c))))

-- The error of the last of `left` rounds from `i` on; `last` where there is none.
unfoldable pub last_error : RetryExecutor → ℕ → ℕ → Option Bytes → Option Bytes
last_error runner zero i last = last
last_error runner (suc left) i last = (runner.execution_handler (i + left)).1

unfoldable pub or_timeout : Bytes → Option Bytes → Option Bytes
or_timeout message none = some message
or_timeout message (some e) = some e

last_error-suc :
    (runner : RetryExecutor) (left i : ℕ) (last : Option Bytes)
    → last_error runner left (suc i) (runner.execution_handler i).1
      ≡ last_error runner (suc left) i last
unfolding last_error
last_error-suc runner zero i last = ap (λ n. (runner.execution_handler n).1) (omega arith)
last_error-suc runner (suc left) i last = ap (λ n. (runner.execution_handler n).1) (omega arith)

Nat-first : (i j : ℕ) → i ≤ j → (i ≡ j) ⊎ (suc i ≤ j)
Nat-first i j h = ground arith

module _ (show : ℤ → Bytes) (runner : RetryExecutor) where
  -- What `left` rounds from `i` on come to, when they return `e` after `n` calls of the handler.
  unfoldable pub OutcomeOf : ℕ → ℕ → ℕ → Option Bytes → Option Bytes → Type 0
  OutcomeOf left i n last e =
      ((k : ℕ) × (i ≤ k)
        × (k < i + left)
        × ((j : ℕ) → i ≤ j → j < k → GoesOn runner j)
        × Stops runner k e
        × (n + i ≡ suc k))
      ⊎ (((j : ℕ) → i ≤ j → j < i + left → GoesOn runner j)
          × (n ≡ left)
          × (e ≡ or_timeout (get_timeout_error_msg show runner) (last_error runner left i last)))

  attempt_from-GoesOn :
      (left i : ℕ) (last : Option Bytes) (trace : Trace)
      → GoesOn runner i
      → attempt_from show runner (suc left) i last trace
        ≡ attempt_from show runner left (suc i) (runner.execution_handler i).1 (
            rested show runner i
              (runner.execution_handler i).1
              (record trace { attempts = suc trace.attempts }))
  unfolding attempt_from GoesOn
  attempt_from-GoesOn left i last trace (h, c) = rw (h, c) refl

  attempt_from-Stops :
      (left i : ℕ) (last : Option Bytes) (trace : Trace)
      → (GoesOn runner i)
        ⊎ (Stops runner i (attempt_from show runner (suc left) i last trace).0
            × ((attempt_from show runner (suc left) i last trace).1.attempts ≡ suc trace.attempts))
  unfolding attempt_from GoesOn Stops
  attempt_from-Stops left i last trace = elim (Bool-cases (runner.execution_handler i).0) [
    | inl h ↦ elim (Option-cases (runner.context i)) [
      | inl c ↦ inl (h, c)
      | inr (c, hc) ↦ inr (rw (h, hc) (inr (refl, (c, (refl, refl))), refl))
    ]
    | inr h ↦ inr (rw h (inl (refl, refl), refl))
  ]

  attempt_from-zero :
      (i : ℕ) (last : Option Bytes) (trace : Trace)
      → ((attempt_from show runner 0 i last trace).1.attempts ≡ trace.attempts)
        × ((attempt_from show runner 0 i last trace).0
            ≡ or_timeout (get_timeout_error_msg show runner) last)
  unfolding attempt_from timed_out or_timeout
  attempt_from-zero i none trace = (refl, refl)
  attempt_from-zero i (some e) trace = (refl, refl)

  rested-attempts :
      (i : ℕ) (e : Option Bytes) (trace : Trace)
      → (rested show runner i e trace).attempts ≡ trace.attempts
  unfolding rested
  rested-attempts i e trace = refl

  GoesOn-first :
      (i j : ℕ) → GoesOn runner i → i ≤ j → (suc i ≤ j → GoesOn runner j) → GoesOn runner j
  GoesOn-first i j on a rest = elim (Nat-first i j a) [ inl h ↦ rw (sym h) on | inr h ↦ rest h ]

  -- One more round in front.
  OutcomeOf-suc :
      (left i n : ℕ) (last e : Option Bytes)
      → GoesOn runner i
      → OutcomeOf left (suc i) n (runner.execution_handler i).1 e
      → OutcomeOf (suc left) i (suc n) last e
  unfolding OutcomeOf
  OutcomeOf-suc left i n last e on (inl (k, hi, hk, before, stops, hn)) = inl (
    k,
    omega arith,
    omega arith,
    (λ j a b. GoesOn-first i j on a (λ h. before j h b)),
    stops,
    omega arith,
  )
  OutcomeOf-suc left i n last e on (inr (before, hn, he)) = inr (
    (λ j a b. GoesOn-first i j on a (λ h. before j h (omega arith))),
    omega arith,
    he ∙ ap (or_timeout (get_timeout_error_msg show runner)) (last_error-suc runner left i last),
  )

  attempt_from_lem :
      (left i : ℕ) (last : Option Bytes) (trace : Trace)
      → (n : ℕ) × ((attempt_from show runner left i last trace).1.attempts ≡ trace.attempts + n)
        × OutcomeOf left i n last (attempt_from show runner left i last trace).0
  attempt_from_lem zero i last trace =
      unfold OutcomeOf last_error in
      let (hn, he) = attempt_from-zero i last trace in
      (0, omega arith, inr ((λ j a b. absurd (omega arith)), refl, he))
  attempt_from_lem (suc left) i last trace = elim (attempt_from-Stops left i last trace) [
    | inl on ↦
        let called = record trace { attempts = suc trace.attempts } in
        let e = (runner.execution_handler i).1 in
        let (n, hn, h) = attempt_from_lem left (suc i) e (rested show runner i e called) in
        let same = rested-attempts i e called in
        rw (attempt_from-GoesOn left i last trace on)
          (suc n, omega arith, OutcomeOf-suc left i n last _ on h)
    | inr (stops, hn) ↦ (
      1,
      omega arith,
      (unfold OutcomeOf in
          inl (i, omega arith, omega arith, (λ j a b. absurd (omega arith)), stops, omega arith)),
    )
  ]

-- The rounds are those whose number does not exceed MaxRetries.
attempts_allowed_iff :
    (max_retries : ℤ) (k : ℕ)
    → (k < attempts_allowed max_retries) ↔ (ltb_ℤ max_retries (pos k) ≡ false)
unfolding attempts_allowed ltb_ℤ
attempts_allowed_iff (pos n) k = ground arith
attempts_allowed_iff (negsuc n) k = (λ h. absurd (omega arith), λ h. cc)

-- Execute always returns. Either an attempt `k`, at most MaxRetries, is the first that does not ask for
-- a retry or finds the context cancelled: then it returns that attempt's error, or the cancellation's,
-- after exactly `k + 1` calls of the handler. Or no attempt does: then the handler is called once for
-- each number from 0 to MaxRetries, MaxRetries among them (never, when MaxRetries is negative), and the
-- result is the last attempt's error, or the timeout error where that is nil.
pub execute_lem :
    (show : ℤ → Bytes) (runner : RetryExecutor)
    → ((k : ℕ) × (ltb_ℤ runner.max_retries (pos k) ≡ false)
        × ((j : ℕ) → j < k → GoesOn runner j)
        × Stops runner k (execute show runner).0
        × ((execute show runner).1.attempts ≡ suc k))
      ⊎ ((n : ℕ) × ((j : ℕ) → (j < n) ↔ (ltb_ℤ runner.max_retries (pos j) ≡ false))
          × ((j : ℕ) → j < n → GoesOn runner j)
          × ((execute show runner).1.attempts ≡ n)
          × ((execute show runner).0
              ≡ or_timeout (get_timeout_error_msg show runner) (last_error runner n 0 none)))
unfolding execute OutcomeOf
execute_lem show runner =
    let rounds = attempts_allowed runner.max_retries in
    let (n, hn, shape) =
      attempt_from_lem show runner rounds 0 none (record { attempts = 0; log = []; sleeps = [] }) in
    elim shape [
      | inl (k, _, hk, before, stops, h) ↦ inl (
        k,
        (attempts_allowed_iff runner.max_retries k).0 (omega arith),
        (λ j b. before j (omega arith) (omega arith)),
        stops,
        omega arith,
      )
      | inr (before, h, he) ↦ inr (
        rounds,
        attempts_allowed_iff runner.max_retries,
        (λ j b. before j (omega arith) (omega arith)),
        omega arith,
        he,
      )
    ]
