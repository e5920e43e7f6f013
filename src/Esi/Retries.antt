-- ===== src/Esi/Retries.antt =====
-- What the retries of a request amount to: how many there are, how long they wait, what they return.
use eve_station_trader.Prelude.{
  ℕ, zero, suc, ◌+◌, ◌*◌, ◌^◌, ◌≤◌, ◌≡◌, refl, Bool, true, false, Option, none, some, String, ◌⊎◌,
  inl, inr, ◌==◌, arith, ==_iff, Bool-cases,
}
use eve_station_trader.Esi.Limits.{Response, backoff_time, initial_backoff}
use eve_station_trader.Esi.Request.{
  Request, Reply, response, network_error, Server, ClientState, http_status_error, request_error,
  Outcome, return, raise, cache_key, sleep, tracked, is_retried, one_attempt, attempts,
  limited_request, cache_get, nonempty, count_cached, count_limited,
}

-- The time that `left` rounds from `attempt` on sleep when each is to be tried again.
abbrev pub total_wait : ℕ → ℕ → ℕ
total_wait zero attempt = 0
total_wait (suc left) attempt = initial_backoff * 2 ^ attempt + total_wait left (attempt + 1)

-- The requests sent and the time slept from `s` to `t`: at most `rounds` and `wait`.
abbrev pub IsWithin : ℕ → ℕ → ClientState → ClientState → Type 0
IsWithin rounds wait s t =
    (s.sent ≤ t.sent)
    × (t.sent ≤ s.sent + rounds)
    × (s.clock ≤ t.clock)
    × (t.clock ≤ s.clock + wait)

IsWithin-next :
    (left wait pause : ℕ) (s m t : ClientState)
    → m.sent ≡ s.sent + 1
    → m.clock ≡ s.clock + pause
    → IsWithin left wait m t
    → IsWithin (suc left) (pause + wait) s t
IsWithin-next left wait pause s m t h k w = (omega arith, omega arith, omega arith, omega arith)

module _ {B : Type 0} where
  -- What a request may give its caller.
  abbrev pub IsSettled : (ℕ → Bool) → Outcome B (Response B) → Type 0
  IsSettled is_error (return r) =
      (r.status_code ≡ 304) ⊎ ((is_retried r ≡ false) × (is_error r.status_code ≡ false))
  IsSettled is_error (raise e) = Unit

  -- One round, by what the server answered.
  pub one_attempt-cases {κ} :
      (P : Outcome B (Response B) × ClientState → Type κ) (is_error : ℕ → Bool) (key : String)
      (attempt : ℕ) (next : Response B → ClientState → Outcome B (Response B) × ClientState)
      (st : ClientState) (reply : Reply B)
      → ((text : String) → P (raise (request_error text), record st { sent = st.sent + 1 }))
      → ((r : Response B) → r.status_code ≡ 304 → P (return r, count_cached (tracked key r st)))
      → ((r : Response B)
          → is_retried r ≡ true
          → P (next r (sleep (initial_backoff * 2 ^ attempt) (count_limited r (tracked key r st)))))
      → ((r : Response B)
          → is_error r.status_code ≡ true
          → P (raise (http_status_error r), tracked key r st))
      → ((r : Response B)
          → is_retried r ≡ false
          → is_error r.status_code ≡ false
          → P (return r, tracked key r st))
      → P (one_attempt is_error key attempt next st reply)
  unfolding one_attempt
  one_attempt-cases P is_error key attempt next st (network_error text) broken cached again bad
        good =
      broken text
  one_attempt-cases P is_error key attempt next st (response r) broken cached again bad good =
      elim (Bool-cases (r.status_code == 304)) [
        | inl e ↦ rw e (cached r ((==_iff r.status_code 304).0 e))
        | inr e ↦ elim (Bool-cases (is_retried r)) [
          | inl f ↦ rw (e, f) (again r f)
          | inr f ↦ elim (Bool-cases (is_error r.status_code)) [
            | inl g ↦ rw (e, f, g) (bad r g)
            | inr g ↦ rw (e, f, g) (good r f g)
          ]
        ]
      ]

  attempts-IsSettled :
      (is_error : ℕ → Bool) (server : Server B) (failed : String) (q : Request) (left attempt : ℕ)
      (last : Option (Response B)) (st : ClientState)
      → IsSettled is_error (attempts is_error server failed q left attempt last st).0
  unfolding attempts
  attempts-IsSettled is_error server failed q zero attempt last st = tt
  attempts-IsSettled is_error server failed q (suc left) attempt last st =
      one_attempt-cases (λ (o : Outcome B (Response B) × ClientState). IsSettled is_error o.0)
        is_error (cache_key q) attempt
        (λ r. attempts is_error server failed q left (attempt + 1) (some r)) st (server st.sent q)
        (λ text. tt) (λ r e. inl e)
        (λ r f. attempts-IsSettled is_error server failed q left (attempt + 1) (some r) _)
        (λ r g. tt) (λ r f g. inr (f, g))

  -- A request returns a response only when it is a 304, or neither one to try again (420 or from 500
  -- on) nor an error of `raise_for_status`. All else is raised.
  pub limited_request-IsSettled :
      (is_error : ℕ → Bool) (server : Server B) (failed : String) (q : Request) (st : ClientState)
      → IsSettled is_error (limited_request is_error server failed q st).0
  unfolding limited_request
  limited_request-IsSettled is_error server failed q st =
      attempts-IsSettled is_error server failed _ 4 0 none _

  attempts-IsWithin :
      (is_error : ℕ → Bool) (server : Server B) (failed : String) (q : Request) (left attempt : ℕ)
      (last : Option (Response B)) (st : ClientState)
      → IsWithin left
          (total_wait left attempt)
          st
          (attempts is_error server failed q left attempt last st).1
  unfolding attempts tracked
  attempts-IsWithin is_error server failed q zero attempt last st =
      (omega arith, omega arith, omega arith, omega arith)
  attempts-IsWithin is_error server failed q (suc left) attempt last st =
      let wait = initial_backoff * 2 ^ attempt + total_wait left (attempt + 1) in
      one_attempt-cases
        (λ (o : Outcome B (Response B) × ClientState). IsWithin (suc left) wait st o.1) is_error
        (cache_key q) attempt (λ r. attempts is_error server failed q left (attempt + 1) (some r))
        st (server st.sent q) (λ text. (omega arith, omega arith, omega arith, omega arith))
        (λ r e. (omega arith, omega arith, omega arith, omega arith))
        (λ r f.
          let m =
            sleep (initial_backoff * 2 ^ attempt) (count_limited r (tracked (cache_key q) r st)) in
          IsWithin-next left (total_wait left (attempt + 1)) (initial_backoff * 2 ^ attempt) st m
            (attempts is_error server failed q left (attempt + 1) (some r) m).1 refl refl
            (attempts-IsWithin is_error server failed q left (attempt + 1) (some r) m))
        (λ r g. (omega arith, omega arith, omega arith, omega arith))
        (λ r f g. (omega arith, omega arith, omega arith, omega arith))

  -- A request is sent at most four times. It sleeps no longer than the wait near the error limit
  -- and 15 seconds of retries, and the clock never goes back.
  pub limited_request-IsWithin :
      (is_error : ℕ → Bool) (server : Server B) (failed : String) (q : Request) (st : ClientState)
      → IsWithin 4
          (backoff_time st.rate_limit_state + 15000)
          st
          (limited_request is_error server failed q st).1
  unfolding limited_request
  limited_request-IsWithin is_error server failed q st =
      let s = sleep (backoff_time st.rate_limit_state) st in
      let sent_q = record q { if_none_match = nonempty (cache_get (cache_key q) s.etag_cache) } in
      let (a, b, c, d) = attempts-IsWithin is_error server failed sent_q 4 0 none s in
      (a, b, omega arith, omega arith)
