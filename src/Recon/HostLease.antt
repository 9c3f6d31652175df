-- ===== src/Recon/HostLease.antt =====
-- apps/api/src/recon/host-rate-lease.service.ts: the lease by which one worker at a time probes a host. The
-- commands and scripts run one by one at the Redis server, whose key expires by its clock.
pub mod Exclusion
mod Examples
use kase_ai.Prelude.{
  ℕ, ◌+◌, ◌≤◌, String, ◌≡◌, ◌≢◌, Bool, true, false, not, Option, none, some, List, [], ◌∷◌, ◌==◌,
  string_eq, Result, ok, err, ltb, if◌then◌else◌,
}

pub record HostKey : Type 0 where
  pub token : String
  pub expires_at : ℕ

pub record LeaseState : Type 0 where
  pub key : Option HostKey
  pub now : ℕ

pub data LeaseError : Type 0 where
  lease_too_short aborted timed_out : LeaseError

abbrev pub min_lease_ms : ℕ
min_lease_ms = 60_000

abbrev pub live_token : ℕ → Option HostKey → Option String
live_token now none = none
live_token now (some k) = if ltb now k.expires_at then some k.token else none

-- Whose token the key has, unless it has expired.
abbrev pub holder : LeaseState → Option String
holder s = live_token s.now s.key

abbrev pub leased : String → ℕ → LeaseState → LeaseState
leased token lease_ms s = record s {
  key = some (record { token = token; expires_at = s.now + lease_ms });
}

abbrev pub set_key : Option String → String → ℕ → LeaseState → Bool × LeaseState
set_key none token lease_ms s = (true, leased token lease_ms s)
set_key (some other) token lease_ms s = (false, s)

-- `redis.set(key, token, 'PX', leaseMs, 'NX')`
unfoldable pub try_acquire : String → ℕ → LeaseState → Bool × LeaseState
try_acquire token lease_ms s = set_key (holder s) token lease_ms s

abbrev pub is_token : String → Option String → Bool
is_token token none = false
is_token token (some other) = other == token

-- `RENEW_SCRIPT`
unfoldable pub renew : String → ℕ → LeaseState → Bool × LeaseState
renew token lease_ms s =
    if is_token token (holder s) then (true, leased token lease_ms s) else (false, s)

-- `RELEASE_SCRIPT`
unfoldable pub release : String → LeaseState → LeaseState
release token s = if is_token token (holder s) then record s { key = none } else s

-- The loop of `acquire`: what happens in each delay is given, and after the last the signal aborts.
abbrev pub acquire_loop :
    List (LeaseState → LeaseState) → ℕ → String → ℕ → LeaseState → Result LeaseError LeaseState
acquire_loop [] deadline token lease_ms s = err aborted
acquire_loop (delay ∷ delays) deadline token lease_ms s =
    let tried = try_acquire token lease_ms s in
    let later = acquire_loop delays deadline token lease_ms (delay tried.1) in
    if not (ltb s.now deadline) then err timed_out else if tried.0 then ok tried.1 else later

-- `acquire`
unfoldable pub acquire :
    List (LeaseState → LeaseState) → String → ℕ → ℕ → LeaseState → Result LeaseError LeaseState
unfolding try_acquire
acquire delays token wait_ms lease_ms s =
    if ltb lease_ms min_lease_ms
    then err lease_too_short
    else acquire_loop delays (s.now + wait_ms) token lease_ms s
