-- ===== src/Esi/Request.antt =====
-- `_request_with_rate_limit` and `_authenticated_request` of backend/app/services/esi/client.py.
use eve_station_trader.Prelude.{
  ℕ, zero, suc, ◌+◌, ◌*◌, ◌^◌, Bool, Option, none, some, List, [], ◌∷◌, String, concat, str_eq,
  ◌==◌, leb, ◌||◌, if◌then◌else◌,
}
use eve_station_trader.Esi.Limits.{
  Response, EsiRateLimitState, update_from_headers, backoff_time, max_retries, initial_backoff,
}

-- A request as it is sent: method, URL, parameters, and the two headers set for it.
pub record Request : Type 0 where
  pub method : String
  pub url : String
  pub params : String
  pub authorization : Option String
  pub if_none_match : Option String

-- What `client.request` may do, given how many requests were sent before.
pub data Reply (B : Type 0) : Type 0 where
  response : Response B → Reply B
  network_error : String → Reply B

abbrev pub Server : Type 0 → Type 0
Server B = ℕ → Request → Reply B

-- The state that requests share: the rate limits of the class, the ETag cache of the client, the
-- clock in milliseconds, which `time.sleep` moves, and how many requests were sent.
pub record ClientState : Type 0 where
  pub rate_limit_state : EsiRateLimitState
  pub etag_cache : List (String × String)
  pub clock : ℕ
  pub sent : ℕ

pub data EsiError (B : Type 0) : Type 0 where
  http_status_error : Response B → EsiError B
  request_error : String → EsiError B
  value_error : String → EsiError B
  runtime_error : String → EsiError B

pub data Outcome {ℓ} (B : Type 0) (A : Type ℓ) : Type ℓ where
  return : A → Outcome B A
  raise : EsiError B → Outcome B A

-- self._etag_cache.get(key) and self._etag_cache[key] = value
unfoldable pub cache_get : String → List (String × String) → Option String
cache_get k [] = none
cache_get k ((j, v) ∷ m) = if str_eq j k then some v else cache_get k m

unfoldable pub cache_put : String → String → List (String × String) → List (String × String)
cache_put k v [] = (k, v) ∷ []
cache_put k v ((j, w) ∷ m) = if str_eq j k then (k, v) ∷ m else (j, w) ∷ cache_put k v m

abbrev pub nonempty : Option String → Option String
nonempty none = none
nonempty (some s) = if str_eq s "" then none else some s

abbrev pub keep_etag : String → Option String → List (String × String) → List (String × String)
unfolding cache_put
keep_etag key none cache = cache
keep_etag key (some etag) cache = cache_put key etag cache

abbrev pub sleep : ℕ → ClientState → ClientState
sleep ms st = record st { clock = st.clock + ms }

abbrev pub count_cached : ClientState → ClientState
count_cached st =
    let s = st.rate_limit_state in
    record st { rate_limit_state = record s { cached_responses = s.cached_responses + 1 } }

-- f"{method}:{url}:{params}"
abbrev pub cache_key : Request → String
cache_key q = concat q.method (concat ":" (concat q.url (concat ":" q.params)))

module _ {B : Type 0} where
  -- The state after a response has come: headers read, ETag kept.
  unfoldable pub tracked : String → Response B → ClientState → ClientState
  unfolding update_from_headers cache_put
  tracked key r st = record st {
    rate_limit_state = update_from_headers st.clock r st.rate_limit_state;
    etag_cache = keep_etag key (nonempty r.etag) st.etag_cache;
    sent = st.sent + 1;
  }

  abbrev pub count_limited : Response B → ClientState → ClientState
  count_limited r st =
      let s = st.rate_limit_state in
      let count = s.error_limited_count in
      record st {
        rate_limit_state = record s {
          error_limited_count = if r.status_code == 420 then count + 1 else count;
        };
      }

  -- 420 and the server errors are tried again.
  unfoldable pub is_retried : Response B → Bool
  is_retried r = r.status_code == 420 || leb 500 r.status_code

  abbrev pub last_or : String → Option (Response B) → EsiError B
  last_or text none = runtime_error text
  last_or text (some r) = http_status_error r

  -- One round of the loop, on what the server answered: `continue` is the call of `next`.
  -- `is_error` is the test of `raise_for_status`, which belongs to httpx.
  unfoldable pub one_attempt :
      (ℕ → Bool)
      → String
      → ℕ
      → (Response B → ClientState → Outcome B (Response B) × ClientState)
      → ClientState
      → Reply B
      → Outcome B (Response B) × ClientState
  unfolding tracked is_retried
  one_attempt is_error key attempt next st (network_error text) =
      (raise (request_error text), record st { sent = st.sent + 1 })
  one_attempt is_error key attempt next st (response r) =
      let st' = tracked key r st in
      if r.status_code == 304
      then (return r, count_cached st')
      else if is_retried r
      then next r (sleep (initial_backoff * 2 ^ attempt) (count_limited r st'))
      else if is_error r.status_code
      then (raise (http_status_error r), st')
      else (return r, st')

  -- `for attempt in range(MAX_RETRIES + 1)`, with `left` rounds to go.
  unfoldable pub attempts :
      (ℕ → Bool)
      → Server B
      → String
      → Request
      → ℕ
      → ℕ
      → Option (Response B)
      → ClientState
      → Outcome B (Response B) × ClientState
  unfolding one_attempt
  attempts is_error server failed q zero attempt last st = (raise (last_or failed last), st)
  attempts is_error server failed q (suc left) attempt last st =
      one_attempt is_error (cache_key q) attempt
        (λ r. attempts is_error server failed q left (attempt + 1) (some r)) st (server st.sent q)

  -- The whole of a request: back off near the error limit, look the ETag up, then the attempts.
  unfoldable pub limited_request :
      (ℕ → Bool) → Server B → String → Request → ClientState → Outcome B (Response B) × ClientState
  unfolding attempts backoff_time cache_get
  limited_request is_error server failed q st =
      let st' = sleep (backoff_time st.rate_limit_state) st in
      let etag = nonempty (cache_get (cache_key q) st'.etag_cache) in
      attempts is_error server failed (record q { if_none_match = etag }) (max_retries + 1) 0 none
        st'

  -- `_request_with_rate_limit`
  unfoldable pub request_with_rate_limit :
      (ℕ → Bool)
      → Server B
      → String
      → String
      → String
      → ClientState
      → Outcome B (Response B) × ClientState
  unfolding limited_request
  request_with_rate_limit is_error server method url params st =
      limited_request is_error server "ESI request failed after retries"
        (record {
          method = method;
          url = url;
          params = params;
          authorization = none;
          if_none_match = none;
        })
        st

  -- `_authenticated_request`
  unfoldable pub authenticated_request :
      (ℕ → Bool)
      → Server B
      → String
      → String
      → String
      → String
      → ClientState
      → Outcome B (Response B) × ClientState
  unfolding limited_request
  authenticated_request is_error server access_token method url params st =
      limited_request is_error server "ESI authenticated request failed after retries"
        (record {
          method = method;
          url = url;
          params = params;
          authorization = some (concat "Bearer " access_token);
          if_none_match = none;
        })
        st
