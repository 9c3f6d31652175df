-- ===== src/Agents/RetryStrategy.antt =====
-- apps/api/src/ai-provider/retry-strategy.ts: which errors of a provider are tried again, and when.
-- `toLowerCase` is a parameter.
use Prim.Native.String.{String}
use kase_ai.Prelude.{
  ℕ, zero, suc, ◌≤◌, min, ◌≡◌, Bool, true, false, ◌||◌, Option, none, some, arith, ◌==◌, string_eq,
  ltb, if◌then◌else◌,
}
use kase_ai.Scope.HostPattern.{includes}

-- `ProviderRetryableError | ProviderPermanentError`
pub data ProviderError : Type 0 where
  retryable_error : ProviderError
  permanent_error : String → ProviderError

pub data ErrorClassification : Type 0 where
  retryable auth model_not_found malformed_request policy permanent : ErrorClassification

abbrev pub max_retries : ℕ
max_retries = 3

abbrev pub max_retry_after_ms : ℕ
max_retry_after_ms = 60_000

unfoldable pub classify_error : (String → String) → ProviderError → ErrorClassification
classify_error to_lower retryable_error = retryable
classify_error to_lower (permanent_error raw) =
    let code = to_lower raw in
    if includes code "auth" || code == "401" || code == "authentication_error"
    then auth
    else if includes code "not_found" || code == "404" || code == "model_not_found_error"
    then model_not_found
    else if includes code "invalid" || code == "400" || code == "invalid_request_error"
    then malformed_request
    else if includes code "policy" || includes code "permission" || code == "403"
    then policy
    else permanent

abbrev pub should_retry : ErrorClassification → Bool
should_retry retryable = true
should_retry _ = false

-- `BACKOFF_MS[Math.min(attempt, BACKOFF_MS.length - 1)]`
abbrev pub base_backoff_ms : ℕ → ℕ
base_backoff_ms zero = 1_000
base_backoff_ms (suc zero) = 2_000
base_backoff_ms (suc (suc attempt)) = 4_000

unfoldable pub retry_backoff_ms : ℕ → Option ℕ → ℕ
retry_backoff_ms attempt none = base_backoff_ms attempt
retry_backoff_ms attempt (some retry_after_ms) =
    if ltb 0 retry_after_ms then min retry_after_ms max_retry_after_ms else base_backoff_ms attempt

should_retry-permanent :
    (to_lower : String → String) (code : String)
    → should_retry (classify_error to_lower (permanent_error code)) ≡ false
unfolding classify_error
should_retry-permanent to_lower code = ground arith

base_bounds :
    (attempt : ℕ) → (1 ≤ base_backoff_ms attempt) × (base_backoff_ms attempt ≤ max_retry_after_ms)
base_bounds zero = ground arith
base_bounds (suc zero) = ground arith
base_bounds (suc (suc attempt)) = ground arith

backoff_bounds :
    (attempt : ℕ) (retry_after : Option ℕ)
    → (1 ≤ retry_backoff_ms attempt retry_after)
      × (retry_backoff_ms attempt retry_after ≤ max_retry_after_ms)
unfolding retry_backoff_ms
backoff_bounds attempt none = base_bounds attempt
backoff_bounds attempt (some r) = let base = base_bounds attempt in ground (arith, base)

-- Whatever an error that is not retryable says, it is not tried again; an error that is tried again
-- waits, for a minute at most, whatever the provider asks.
pub retry_strategy_safe :
    (to_lower : String → String) (code : String) (attempt : ℕ) (retry_after : Option ℕ)
    → (should_retry (classify_error to_lower (permanent_error code)) ≡ false)
      × (1 ≤ retry_backoff_ms attempt retry_after)
      × (retry_backoff_ms attempt retry_after ≤ max_retry_after_ms)
retry_strategy_safe to_lower code attempt retry_after =
    let (low, high) = backoff_bounds attempt retry_after in
    (should_retry-permanent to_lower code, low, high)
