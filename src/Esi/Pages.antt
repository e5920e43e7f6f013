-- ===== src/Esi/Pages.antt =====
-- The routes that come in pages, of backend/app/services/esi/client.py.
use eve_station_trader.Prelude.{
  ℕ, zero, suc, ◌+◌, ◌-◌, Bool, false, Option, none, some, List, [], ◌++◌, String, concat, or_else,
  ◌==◌, ◌||◌, if◌then◌else◌,
}
use eve_station_trader.Esi.Limits.{Response}
use eve_station_trader.Esi.Request.{
  Server, ClientState, http_status_error, Outcome, return, raise, request_with_rate_limit,
  authenticated_request,
}

abbrev pub is_cached : {B : Type 0} → Response B → Bool
is_cached r = r.status_code == 304

-- No answer is a cached one, for the route that does not look.
abbrev pub never_cached : {B : Type 0} → Response B → Bool
never_cached r = false

module _ {B : Type 0} {A : Type 0} where
  -- `orders.extend(parse(response.json()))`, unless the page is skipped.
  unfoldable pub extend :
      (B → Outcome B (List A)) → (Response B → Bool) → List A → Response B → Outcome B (List A)
  extend parse skip acc r =
      if skip r
      then return acc
      else elim (parse r.body) [ return rows ↦ return (acc ++ rows) | raise e ↦ raise e ]

  -- One round of the loop over pages: `next` is the rest of it.
  unfoldable pub one_page :
      (B → Outcome B (List A))
      → (Response B → Bool)
      → (List A → ClientState → Outcome B (List A) × ClientState)
      → List A
      → Outcome B (Response B) × ClientState
      → Outcome B (List A) × ClientState
  unfolding extend
  one_page parse skip next acc (raise e, st) = (raise e, st)
  one_page parse skip next acc (return r, st) = elim (extend parse skip acc r) [
    | return rows ↦ next rows st
    | raise e ↦ (raise e, st)
  ]

  -- `for page in range(2, total_pages + 1)`, with `left` pages to go.
  unfoldable pub later_pages :
      (ℕ → ClientState → Outcome B (Response B) × ClientState)
      → (B → Outcome B (List A))
      → (Response B → Bool)
      → ℕ
      → ℕ
      → List A
      → ClientState
      → Outcome B (List A) × ClientState
  unfolding one_page
  later_pages request parse skip zero page acc st = (return acc, st)
  later_pages request parse skip (suc left) page acc st =
      one_page parse skip (later_pages request parse skip left (page + 1)) acc (request page st)

  -- What the routes do with the first response: its X-Pages header says how many follow.
  unfoldable pub after_first :
      (ℕ → ClientState → Outcome B (Response B) × ClientState)
      → (B → Outcome B (List A))
      → (Response B → Bool)
      → Outcome B (Response B) × ClientState
      → Outcome B (List A) × ClientState
  unfolding later_pages
  after_first request parse skip (raise e, st) = (raise e, st)
  after_first request parse skip (return r, st) =
      let rest =
        λ (rows : List A). later_pages request parse skip (or_else r.pages 1 - 1) 2 rows st in
      if skip r
      then (return [], st)
      else elim (parse r.body) [ return rows ↦ rest rows | raise e ↦ (raise e, st) ]

  unfoldable pub all_pages :
      (ℕ → ClientState → Outcome B (Response B) × ClientState)
      → (B → Outcome B (List A))
      → (Response B → Bool)
      → ClientState
      → Outcome B (List A) × ClientState
  unfolding after_first
  all_pages request parse skip st = after_first request parse skip (request 1 st)

  -- `except httpx.HTTPStatusError`: 403 and 404 are answered by None.
  unfoldable pub or_inaccessible : Outcome B (List A) → Outcome B (Option (List A))
  or_inaccessible (return rows) = return (some rows)
  or_inaccessible (raise (http_status_error r)) =
      if r.status_code == 403 || r.status_code == 404
      then return none
      else raise (http_status_error r)
  or_inaccessible (raise e) = raise e

  module _ (is_error : ℕ → Bool) (server : Server B) (text : ℕ → String)
      (parse : B → Outcome B (List A)) where
    -- `text` is the decimal form of a number.
    unfoldable pub fetch_structure_orders :
        String → ℕ → ClientState → Outcome B (Option (List A)) × ClientState
    unfolding all_pages or_inaccessible authenticated_request
    fetch_structure_orders access_token structure_id st =
        let url = concat "/markets/structures/" (concat (text structure_id) "/") in
        let request = λ (page : ℕ).
          authenticated_request is_error server access_token "GET" url
            (concat "page=" (text page)) in
        let (rows, st') = all_pages request parse is_cached st in (or_inaccessible rows, st')

    -- The character id is read from the token by the caller of this model.
    unfoldable pub fetch_character_assets :
        String → ℕ → ClientState → Outcome B (List A) × ClientState
    unfolding all_pages authenticated_request
    fetch_character_assets access_token character_id st =
        let url = concat "/characters/" (concat (text character_id) "/assets/") in
        let request = λ (page : ℕ).
          authenticated_request is_error server access_token "GET" url
            (concat "page=" (text page)) in
        all_pages request parse is_cached st

    unfoldable pub fetch_regional_orders : ℕ → ClientState → Outcome B (List A) × ClientState
    unfolding all_pages request_with_rate_limit
    fetch_regional_orders region_id st =
        let url = concat "/markets/" (concat (text region_id) "/orders/") in
        let request = λ (page : ℕ).
          request_with_rate_limit is_error server "GET" url
            (concat "order_type=all&page=" (text page)) in
        all_pages request parse never_cached st
