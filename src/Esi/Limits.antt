-- ===== src/Esi/Limits.antt =====
-- `EsiRateLimitState` of backend/app/services/esi/client.py, and what the client knows of a response.
use eve_station_trader.Prelude.{ℕ, ◌+◌, ◌*◌, Bool, Option, none, some, String, ltb, if◌then◌else◌}

-- A response: its status, the headers that the client reads, and its body.
pub record Response (B : Type 0) : Type 0 where
  pub status_code : ℕ
  pub error_limit_remain : Option ℕ
  pub error_limit_reset : Option ℕ
  pub etag : Option String
  pub pages : Option ℕ
  pub body : B

pub record EsiRateLimitState : Type 0 where
  pub error_limit_remain : ℕ
  pub error_limit_reset : ℕ
  pub last_updated : ℕ
  pub total_requests : ℕ
  pub cached_responses : ℕ
  pub error_limited_count : ℕ

-- ERROR_LIMIT_BACKOFF_THRESHOLD, MAX_RETRIES, and INITIAL_BACKOFF_SECONDS in milliseconds.
abbrev pub error_limit_backoff_threshold : ℕ
error_limit_backoff_threshold = 20

abbrev pub max_retries : ℕ
max_retries = 3

abbrev pub initial_backoff : ℕ
initial_backoff = 1000

abbrev pub header_or : Option ℕ → ℕ → ℕ
header_or none old = old
header_or (some new) old = new

-- `update_from_headers`, at time `now`
unfoldable pub update_from_headers :
    {B : Type 0} → ℕ → Response B → EsiRateLimitState → EsiRateLimitState
update_from_headers now r s = record s {
  total_requests = s.total_requests + 1;
  error_limit_remain = header_or r.error_limit_remain s.error_limit_remain;
  error_limit_reset = header_or r.error_limit_reset s.error_limit_reset;
  last_updated = now;
}

unfoldable pub should_backoff : EsiRateLimitState → Bool
should_backoff s = ltb s.error_limit_remain error_limit_backoff_threshold

-- `backoff_seconds`, in milliseconds
unfoldable pub backoff_time : EsiRateLimitState → ℕ
unfolding should_backoff
backoff_time s = if should_backoff s then s.error_limit_reset * 1000 else 0
