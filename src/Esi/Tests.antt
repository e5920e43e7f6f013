-- ===== src/Esi/Tests.antt =====
-- Runs of the client at concrete servers.
use eve_station_trader.Prelude.{
  ℕ, ◌+◌, ◌≡◌, refl, Bool, true, false, none, some, List, [], ◌∷◌, String, concat, str_eq, ltb, leb,
  inr, if◌then◌else◌, arith, map,
}
use eve_station_trader.Prelude.Texts.{decimal}
use eve_station_trader.Esi.Limits.{Response, EsiRateLimitState, backoff_time}
use eve_station_trader.Esi.Request.{
  Request, response, Server, ClientState, http_status_error, Outcome, return, raise, value_error,
  limited_request, is_retried,
}
use eve_station_trader.Esi.Retries.{
  IsSettled, IsWithin, limited_request-IsSettled, limited_request-IsWithin,
}
use eve_station_trader.Esi.Recovery.{limited_request-exhausted, limited_request-recovers}
use eve_station_trader.Esi.Pages.{
  fetch_structure_orders, fetch_character_assets, fetch_regional_orders, is_cached, never_cached,
}
use eve_station_trader.Esi.Paging.{whole_book}
use eve_station_trader.Esi.Fetches.{
  fetch_structure_orders-book, fetch_character_assets-book, fetch_regional_orders-book,
  fetch_structure_orders-refused,
}
use eve_station_trader.Prelude.Int.{ℤ, pos}
use eve_station_trader.Esi.Payloads.{
  mapping, other_entry, rows, RegionalOrderRecord, StructureOrderRecord,
  parse_regional_orders_payload, parse_structure_orders_payload,
}
use eve_station_trader.Esi.Records.{regional_row, parse_regional_orders_payload-rows}
use eve_station_trader.Esi.Rows.{
  structure_fields, no_price, faulty_row, parse_structure_orders_payload-rows,
  parse_structure_orders_payload-faulty,
}

abbrev limits : EsiRateLimitState
limits = record {
  error_limit_remain = 5;
  error_limit_reset = 7;
  last_updated = 0;
  total_requests = 0;
  cached_responses = 0;
  error_limited_count = 0;
}

abbrev client : ClientState
client = record { rate_limit_state = limits; etag_cache = []; clock = 100; sent = 0 }

abbrev answer : ℕ → ℕ → Response ℕ
answer status body = record {
  status_code = status;
  error_limit_remain = some 90;
  error_limit_reset = none;
  etag = some "v1";
  pages = some 2;
  body = body;
}

abbrev is_bad : ℕ → Bool
is_bad status = leb 400 status

abbrev request : Request
request = record {
  method = "GET";
  url = "/markets/10/orders/";
  params = "page=1";
  authorization = none;
  if_none_match = none;
}

-- A server that fails `k` times and then answers 200.
abbrev flaky : ℕ → Server ℕ
flaky k n q = if ltb n k then response (answer 503 n) else response (answer 200 n)

limited_request-IsSettled_example :
    IsSettled is_bad (limited_request is_bad (flaky 2) "failed" request client).0
limited_request-IsSettled_example =
    limited_request-IsSettled is_bad (flaky 2) "failed" request client

limited_request-IsWithin_example :
    IsWithin 4
      (backoff_time limits + 15000)
      client
      (limited_request is_bad (flaky 9) "failed" request client).1
limited_request-IsWithin_example = limited_request-IsWithin is_bad (flaky 9) "failed" request client

limited_request-exhausted_example :
    ((limited_request is_bad (flaky 9) "failed" request client).0
      ≡ raise (http_status_error (answer 503 3)))
    × ((limited_request is_bad (flaky 9) "failed" request client).1.sent ≡ 4)
unfolding is_retried
limited_request-exhausted_example =
    limited_request-exhausted is_bad (flaky 9) "failed" request client (answer 503)
      ((λ q. refl), refl, ((λ q. refl), refl, ((λ q. refl), refl, ((λ q. refl), refl, tt))))

limited_request-recovers_example :
    ((limited_request is_bad (flaky 2) "failed" request client).0 ≡ return (answer 200 2))
    × ((limited_request is_bad (flaky 2) "failed" request client).1.sent ≡ 3)
unfolding is_retried
limited_request-recovers_example =
    limited_request-recovers is_bad (flaky 2) "failed" request client 2 (answer 503) (answer 200 2)
      (omega arith) ((λ q. refl), refl, ((λ q. refl), refl, tt)) (λ etag. refl) (inr (refl, refl))

-- A server whose page 1 differs from the others, told apart by the parameters `first`.
abbrev two_pages : String → Server ℕ
two_pages first n q =
    if str_eq q.params first then response (answer 200 1) else response (answer 200 2)

abbrev page_at : String → (ℕ → String) → ℕ → Response ℕ
page_at first params p = if str_eq (params p) first then answer 200 1 else answer 200 2

abbrev double : ℕ → Outcome ℕ (List ℕ)
double n = return (n ∷ n ∷ [])

served :
    (first : String) (params : ℕ → String) (n p : ℕ) (q : Request)
    → q.params ≡ params p
    → two_pages first n q ≡ response (page_at first params p)
served first params n p q h = rw h (pick (str_eq (params p) first))
  where
    pick :
        (b : Bool)
        → (if b then response (answer 200 1) else response (answer 200 2))
          ≡ response (if b then answer 200 1 else answer 200 2)
    pick true = refl
    pick false = refl

settled :
    (first : String) (params : ℕ → String) (p : ℕ)
    → IsSettled is_bad (return (page_at first params p))
unfolding is_retried
settled first params p = pick (str_eq (params p) first)
  where
    pick : (b : Bool) → IsSettled is_bad (return (if b then answer 200 1 else answer 200 2))
    pick true = inr (refl, refl)
    pick false = inr (refl, refl)

abbrev rows_at : String → (ℕ → String) → ℕ → List ℕ
rows_at first params p = (page_at first params p).body ∷ (page_at first params p).body ∷ []

abbrev page_text : ℕ → String
page_text p = concat "page=" (decimal p)

abbrev region_text : ℕ → String
region_text p = concat "order_type=all&page=" (decimal p)

fetch_structure_orders-book_example :
    (fetch_structure_orders is_bad (two_pages "page=1") decimal double "token" 10 client).0
    ≡ return (some (whole_book is_cached (page_at "page=1" page_text) (rows_at "page=1" page_text)))
fetch_structure_orders-book_example =
    fetch_structure_orders-book is_bad (two_pages "page=1") decimal double "token" 10 client
      (page_at "page=1" page_text) (rows_at "page=1" page_text)
      ((λ n p q _. served "page=1" page_text n p q), settled "page=1" page_text) (λ p _. refl)

fetch_character_assets-book_example :
    (fetch_character_assets is_bad (two_pages "page=1") decimal double "token" 10 client).0
    ≡ return (whole_book is_cached (page_at "page=1" page_text) (rows_at "page=1" page_text))
fetch_character_assets-book_example =
    fetch_character_assets-book is_bad (two_pages "page=1") decimal double "token" 10 client
      (page_at "page=1" page_text) (rows_at "page=1" page_text)
      ((λ n p q _. served "page=1" page_text n p q), settled "page=1" page_text) (λ p _. refl)

fetch_regional_orders-book_example :
    (fetch_regional_orders is_bad (two_pages "order_type=all&page=1") decimal double 10 client).0
    ≡ return (
        whole_book never_cached
          (page_at "order_type=all&page=1" region_text)
          (rows_at "order_type=all&page=1" region_text))
fetch_regional_orders-book_example =
    fetch_regional_orders-book is_bad (two_pages "order_type=all&page=1") decimal double 10 client
      (page_at "order_type=all&page=1" region_text) (rows_at "order_type=all&page=1" region_text)
      (
        (λ n p q _. served "order_type=all&page=1" region_text n p q),
        settled "order_type=all&page=1" region_text,
      )
      (λ p. refl)

-- The whole book above is the rows of both pages.
two_pages_book :
    whole_book is_cached (page_at "page=1" page_text) (rows_at "page=1" page_text)
    ≡ 1 ∷ 1 ∷ 2 ∷ 2 ∷ []
unfolding whole_book decimal
two_pages_book = refl

-- Prices are whole here, and every time is in UTC.
abbrev order : ℕ → RegionalOrderRecord ℤ
order n = record {
  order_id = pos n;
  type_id = pos 34;
  location_id = pos 60003760;
  system_id = pos 30000142;
  is_buy_order = true;
  price = pos 5;
  volume_total = pos 100;
  volume_remain = pos 40;
  min_volume = pos 1;
  range = "station";
  issued = "2026-01-01T00:00:00+00:00";
  duration = pos 90;
}

parse_regional_orders_payload-rows_example :
    parse_regional_orders_payload {B = ℕ}
      (λ n. n)
      some
      (rows (map regional_row (order 1 ∷ order 2 ∷ [])))
    ≡ return (order 1 ∷ order 2 ∷ [])
parse_regional_orders_payload-rows_example =
    parse_regional_orders_payload-rows (λ n. n) some (order 1 ∷ order 2 ∷ []) (refl, (refl, tt))

-- A row without a time and a duration.
abbrev sale : StructureOrderRecord ℤ
sale = record {
  order_id = pos 1;
  type_id = pos 34;
  is_buy_order = false;
  price = pos 5;
  volume_total = pos 10;
  volume_remain = pos 4;
  min_volume = pos 1;
  range = "region";
  issued = none;
  duration = none;
}

parse_structure_orders_payload-rows_example :
    parse_structure_orders_payload {B = ℕ}
      (λ n. n)
      some
      (rows (
        map
          (λ r. mapping (structure_fields r))
          (sale ∷ record sale { duration = some (pos 90) } ∷ [])))
    ≡ return (sale ∷ record sale { duration = some (pos 90) } ∷ [])
parse_structure_orders_payload-rows_example =
    parse_structure_orders_payload-rows (λ n. n) some
      (sale ∷ record sale { duration = some (pos 90) } ∷ []) (refl, (refl, tt))

parse_structure_orders_payload-faulty_example :
    parse_structure_orders_payload {B = ℕ}
      (λ n. n)
      some
      (rows (mapping (structure_fields sale) ∷ faulty_row no_price sale ∷ other_entry ∷ []))
    ≡ raise (value_error "ESI market history rows must include numeric 'price'.")
parse_structure_orders_payload-faulty_example =
    parse_structure_orders_payload-faulty (λ n. n) some (sale ∷ []) no_price sale (other_entry ∷ [])
      (refl, tt)

fetch_structure_orders-refused_example :
    let (o, st') =
      fetch_structure_orders is_bad
        (λ n q. response (answer 403 0))
        decimal
        double
        "token"
        10
        client in
    (o ≡ return none) × (st'.sent ≡ 1)
unfolding is_retried
fetch_structure_orders-refused_example =
    fetch_structure_orders-refused is_bad (λ n q. response (answer 403 0)) decimal double "token" 10
      client (answer 403 0) (λ q. refl) refl refl refl

-- A server that has one page and knows its ETag: the second fetch on the same client is answered by a
-- 304, and gives an empty list.
abbrev tagged : Server ℕ
tagged n q = elim q.if_none_match [
  | none ↦ response (record (answer 200 1) { pages = none })
  | some etag ↦ response (answer 304 0)
]

second_fetch_is_empty :
    let (first, st) = fetch_structure_orders is_bad tagged decimal double "token" 10 client in
    let second = (fetch_structure_orders is_bad tagged decimal double "token" 10 st).0 in
    (first ≡ return (some (1 ∷ 1 ∷ []))) × (second ≡ return (some []))
unfolding fetch_structure_orders decimal
second_fetch_is_empty = (refl, refl)
