-- ===== src/Orchestrator/RetryPolicy.antt =====
-- apps/api/src/orchestrator/retry-policy.ts: what follows a failed attempt of a job.
use native.Mathlib.Nat.{pow-suc}
use kase_ai.Prelude.{
  ℕ, suc, ◌+◌, ◌*◌, ◌/◌, ◌^◌, ◌≤◌, max, String, ◌≡◌, ◌≢◌, ◌↔◌, ◌⊎◌, Bool, true, false, ◌||◌, Option,
  none, some, List, [], ◌∷◌, arith, ◌==◌, string_eq, nat_eq, if◌then◌else◌, leb, contains,
}

pub data JobErrorClass : Type 0 where
  transient timeout permanent cancelled : JobErrorClass

pub data TerminalStatus : Type 0 where
  failed timed_out cancelled : TerminalStatus

pub record RetryDecision : Type 0 where
  pub retry : Bool
  pub delay_ms : Option ℕ
  pub timeout_ms : ℕ
  pub terminal_status : Option TerminalStatus

-- A thrown value, by the properties that `classifyJobError` reads: the classes of its own that it
-- is an instance of, its `name` if it is an `Error`, its `code` if it has one.
pub record Thrown : Type 0 where
  pub is_cancelled_job_error : Bool
  pub is_job_timeout_error : Bool
  pub is_permanent_job_error : Bool
  pub error_name : Option String
  pub code : Option String

abbrev includes_some : List String → Option String → Bool
includes_some names none = false
includes_some names (some name) = contains names name

unfoldable pub classify_job_error : Thrown → JobErrorClass
classify_job_error error =
    if error.is_cancelled_job_error
      || includes_some ("AbortError" ∷ "ProcessCancelledError" ∷ []) error.error_name
    then JobErrorClass.cancelled
    else if error.is_job_timeout_error
    then timeout
    else if error.is_permanent_job_error
    then permanent
    else if includes_some ("ENOENT" ∷ []) error.code
    then permanent
    else transient

-- `Math.ceil(timeoutMs * 1.5)`
abbrev pub extended_timeout : ℕ → ℕ
extended_timeout timeout_ms = (timeout_ms * 3 + 1) / 2

-- `1_000 * 2 ** (attempts - 1)`, which is 500 at 0.
abbrev pub backoff_ms : ℕ → ℕ
backoff_ms attempts = 1_000 * 2 ^ attempts / 2

abbrev give_up : TerminalStatus → ℕ → RetryDecision
give_up status timeout_ms = record {
  retry = false;
  delay_ms = none;
  timeout_ms = timeout_ms;
  terminal_status = some status;
}

abbrev retry_after : ℕ → ℕ → RetryDecision
retry_after delay_ms timeout_ms = record {
  retry = true;
  delay_ms = some delay_ms;
  timeout_ms = timeout_ms;
  terminal_status = none;
}

unfoldable pub retry_decision : JobErrorClass → ℕ → ℕ → ℕ → RetryDecision
retry_decision JobErrorClass.cancelled attempts max_retries timeout_ms =
    give_up TerminalStatus.cancelled timeout_ms
retry_decision permanent attempts max_retries timeout_ms = give_up failed timeout_ms
retry_decision timeout attempts max_retries timeout_ms =
    if attempts == 1
    then retry_after 1_000 (extended_timeout timeout_ms)
    else give_up timed_out timeout_ms
retry_decision transient attempts max_retries timeout_ms =
    if leb attempts max_retries
    then retry_after (backoff_ms attempts) timeout_ms
    else give_up failed timeout_ms

-- A decision either retries, with a delay and no terminal status, or gives up, with a terminal
-- status, no delay and the timeout as it was; the timeout never shrinks.
pub retry_decision_shape :
    (c : JobErrorClass) (attempts max_retries timeout_ms : ℕ)
    → let d = retry_decision c attempts max_retries timeout_ms in
      (timeout_ms ≤ d.timeout_ms)
      × (((d.retry ≡ true) × (d.delay_ms ≢ none) × (d.terminal_status ≡ none))
          ⊎ ((d.retry ≡ false)
              × (d.delay_ms ≡ none)
              × (d.terminal_status ≢ none)
              × (d.timeout_ms ≡ timeout_ms)))
unfolding retry_decision
retry_decision_shape c attempts max_retries timeout_ms = ground arith

-- An attempt is retried exactly when it failed transiently and at most `max_retries` attempts have
-- been started, or when it is the first one and timed out, whatever `max_retries` is.
pub retry_iff :
    (c : JobErrorClass) (attempts max_retries timeout_ms : ℕ)
    → ((retry_decision c attempts max_retries timeout_ms).retry ≡ true)
      ↔ (((c ≡ transient) × (attempts ≤ max_retries)) ⊎ ((c ≡ timeout) × (attempts ≡ 1)))
unfolding retry_decision
retry_iff c attempts max_retries timeout_ms = ground arith

pub retry-le :
    (c : JobErrorClass) (attempts max_retries timeout_ms : ℕ)
    → (retry_decision c attempts max_retries timeout_ms).retry ≡ true
    → attempts ≤ max max_retries 1
unfolding retry_decision
retry-le c attempts max_retries timeout_ms h = ground arith

-- The delay before a transient failure is retried doubles with each attempt, from one second.
pub backoff_doubles : (n : ℕ) → backoff_ms (suc n) ≡ 1_000 * 2 ^ n
backoff_doubles n = rw pow-suc (omega arith)
