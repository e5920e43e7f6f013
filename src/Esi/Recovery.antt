-- ===== src/Esi/Recovery.antt =====
-- Requests that the server asks to try again, or refuses: what they end with, and after how many tries.
use eve_station_trader.Prelude.{
  ℕ, zero, suc, ◌+◌, ◌*◌, ◌^◌, ◌≤◌, ◌≡◌, refl, Bool, true, false, Option, none, some, String, ◌⊎◌,
  inl, inr, ◌==◌, arith, ==_iff, Bool-cases,
}
use eve_station_trader.Esi.Retries.{IsSettled}
use eve_station_trader.Esi.Limits.{Response, backoff_time, initial_backoff}
use eve_station_trader.Esi.Request.{
  Request, response, Server, ClientState, http_status_error, Outcome, return, raise, cache_key,
  sleep, tracked, is_retried, one_attempt, attempts, limited_request, cache_get, nonempty,
  count_limited,
}

module _ {B : Type 0} where
  -- The server asks to try again, by the response `busy`, for the requests from `n` to before `n + k`.
  abbrev pub IsBusy : Server B → (ℕ → Response B) → ℕ → ℕ → Type 0
  IsBusy server busy n zero = Unit
  IsBusy server busy n (suc k) =
      ((q : Request) → server n q ≡ response (busy n))
      × (is_retried (busy n) ≡ true)
      × IsBusy server busy (n + 1) k

  not_cached : (r : Response B) → is_retried r ≡ true → (r.status_code == 304) ≡ false
  unfolding is_retried
  not_cached r h = ground arith

  -- A busy round goes on to the next.
  attempts-busy :
      (is_error : ℕ → Bool) (server : Server B) (failed : String) (q : Request) (left attempt : ℕ)
      (last : Option (Response B)) (st : ClientState) (r : Response B)
      → server st.sent q ≡ response r
      → is_retried r ≡ true
      → attempts is_error server failed q (suc left) attempt last st
        ≡ attempts is_error server failed q left
            (attempt + 1)
            (some r)
            (sleep (initial_backoff * 2 ^ attempt) (count_limited r (tracked (cache_key q) r st)))
  unfolding attempts one_attempt
  attempts-busy is_error server failed q left attempt last st r h f = rw (h, not_cached r f, f) refl

  raises_same :
      (busy : ℕ → Response B) (m n : ℕ) (o : Outcome B (Response B))
      → m ≡ n
      → o ≡ raise (http_status_error (busy m))
      → o ≡ raise (http_status_error (busy n))
  raises_same busy m n o h k = cc

  attempts-exhausted :
      (is_error : ℕ → Bool) (server : Server B) (failed : String) (q : Request) (left attempt : ℕ)
      (last : Option (Response B)) (st : ClientState) (busy : ℕ → Response B)
      → IsBusy server busy st.sent (suc left)
      → ((attempts is_error server failed q (suc left) attempt last st).0
          ≡ raise (http_status_error (busy (st.sent + left))))
        × ((attempts is_error server failed q (suc left) attempt last st).1.sent
            ≡ st.sent + suc left)
  unfolding tracked attempts
  attempts-exhausted is_error server failed q zero attempt last st busy h =
      rw (attempts-busy is_error server failed q zero attempt last st (busy st.sent) (h.0 q) h.1)
        (raises_same busy st.sent (st.sent + 0) _ (omega arith) refl, omega arith)
  attempts-exhausted is_error server failed q (suc left) attempt last st busy h =
      let m =
        sleep (initial_backoff * 2 ^ attempt)
          (count_limited (busy st.sent) (tracked (cache_key q) (busy st.sent) st)) in
      let rest =
        attempts-exhausted is_error server failed q left (attempt + 1) (some (busy st.sent)) m busy
          h.2 in
      rw
        (attempts-busy is_error server failed q (suc left) attempt last st (busy st.sent) (h.0 q)
          h.1)
        (
          raises_same busy (st.sent + 1 + left) (st.sent + suc left) _ (omega arith) rest.0,
          omega (arith, rest.1),
        )

  -- When the server asks four times to try again, a request raises the HTTPStatusError of the fourth
  -- response after exactly four requests.
  pub limited_request-exhausted :
      (is_error : ℕ → Bool) (server : Server B) (failed : String) (q : Request) (st : ClientState)
      (busy : ℕ → Response B)
      → IsBusy server busy st.sent 4
      → ((limited_request is_error server failed q st).0
          ≡ raise (http_status_error (busy (st.sent + 3))))
        × ((limited_request is_error server failed q st).1.sent ≡ st.sent + 4)
  unfolding limited_request
  limited_request-exhausted is_error server failed q st busy h =
      let s = sleep (backoff_time st.rate_limit_state) st in
      let sent_q = record q { if_none_match = nonempty (cache_get (cache_key q) s.etag_cache) } in
      attempts-exhausted is_error server failed sent_q 3 0 none s busy h

  answered :
      (is_error : ℕ → Bool) (server : Server B) (failed : String) (q : Request) (left attempt : ℕ)
      (last : Option (Response B)) (st : ClientState) (r : Response B)
      → server st.sent q ≡ response r
      → (r.status_code ≡ 304) ⊎ ((is_retried r ≡ false) × (is_error r.status_code ≡ false))
      → ((attempts is_error server failed q (suc left) attempt last st).0 ≡ return r)
        × ((attempts is_error server failed q (suc left) attempt last st).1.sent ≡ st.sent + 1)
  unfolding tracked attempts one_attempt
  answered is_error server failed q left attempt last st r h (inl e) =
      rw (h, (==_iff r.status_code 304).1 e) (refl, refl)
  answered is_error server failed q left attempt last st r h (inr (f, g)) =
      rw h (elim (Bool-cases (r.status_code == 304)) [
        | inl e ↦ rw e (refl, refl)
        | inr e ↦ rw (e, f, g) (refl, refl)
      ])

  answers_at :
      (server : Server B) (q : Request) (r : Response B) (m n : ℕ)
      → m ≡ n
      → server m q ≡ response r
      → server n q ≡ response r
  answers_at server q r m n h k = cc

  attempts-recovers :
      (is_error : ℕ → Bool) (server : Server B) (failed : String) (q : Request) (k left attempt : ℕ)
      (last : Option (Response B)) (st : ClientState) (busy : ℕ → Response B) (r : Response B)
      → k ≤ left
      → IsBusy server busy st.sent k
      → server (st.sent + k) q ≡ response r
      → (r.status_code ≡ 304) ⊎ ((is_retried r ≡ false) × (is_error r.status_code ≡ false))
      → ((attempts is_error server failed q (suc left) attempt last st).0 ≡ return r)
        × ((attempts is_error server failed q (suc left) attempt last st).1.sent ≡ st.sent + suc k)
  unfolding tracked
  attempts-recovers is_error server failed q zero left attempt last st busy r bound h answer good =
      answered is_error server failed q left attempt last st r
        (answers_at server q r (st.sent + 0) st.sent (omega arith) answer) good
  attempts-recovers is_error server failed q (suc k) zero attempt last st busy r bound h answer
        good =
      absurd (omega arith)
  attempts-recovers is_error server failed q (suc k) (suc left) attempt last st busy r bound h
        answer good =
      let m =
        sleep (initial_backoff * 2 ^ attempt)
          (count_limited (busy st.sent) (tracked (cache_key q) (busy st.sent) st)) in
      let rest =
        attempts-recovers is_error server failed q k left (attempt + 1) (some (busy st.sent)) m busy
          r (omega arith) h.2
          (answers_at server q r (st.sent + suc k) (st.sent + 1 + k) (omega arith) answer) good in
      rw
        (attempts-busy is_error server failed q (suc left) attempt last st (busy st.sent) (h.0 q)
          h.1)
        (rest.0, omega (arith, rest.1))

  -- When the server asks `k` times to try again, `k` at most 3, and then answers what a caller may
  -- get, a request returns that answer after exactly `k + 1` requests.
  pub limited_request-recovers :
      (is_error : ℕ → Bool) (server : Server B) (failed : String) (q : Request) (st : ClientState)
      (k : ℕ) (busy : ℕ → Response B) (r : Response B)
      → k ≤ 3
      → IsBusy server busy st.sent k
      → ((etag : Option String)
          → server (st.sent + k) (record q { if_none_match = etag }) ≡ response r)
      → IsSettled is_error (return r)
      → ((limited_request is_error server failed q st).0 ≡ return r)
        × ((limited_request is_error server failed q st).1.sent ≡ st.sent + suc k)
  unfolding limited_request
  limited_request-recovers is_error server failed q st k busy r bound h answer good =
      let s = sleep (backoff_time st.rate_limit_state) st in
      let sent_q = record q { if_none_match = nonempty (cache_get (cache_key q) s.etag_cache) } in
      attempts-recovers is_error server failed sent_q k 3 0 none s busy r bound h
        (answer sent_q.if_none_match) good

  -- A server that answers at once with an error that is not to be tried again makes a request raise the
  -- error after one request.
  pub limited_request-refused :
      (is_error : ℕ → Bool) (server : Server B) (failed : String) (q : Request) (st : ClientState)
      (r : Response B)
      → ((etag : Option String) → server st.sent (record q { if_none_match = etag }) ≡ response r)
      → (r.status_code == 304) ≡ false
      → is_retried r ≡ false
      → is_error r.status_code ≡ true
      → ((limited_request is_error server failed q st).0 ≡ raise (http_status_error r))
        × ((limited_request is_error server failed q st).1.sent ≡ st.sent + 1)
  unfolding limited_request attempts one_attempt tracked
  limited_request-refused is_error server failed q st r answer fresh calm bad =
      let s = sleep (backoff_time st.rate_limit_state) st in
      rw (answer (nonempty (cache_get (cache_key q) s.etag_cache)), fresh, calm, bad) (refl, refl)
