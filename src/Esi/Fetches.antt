-- ===== src/Esi/Fetches.antt =====
-- What the routes in pages return to their callers.
use eve_station_trader.Prelude.{
  ℕ, ◌+◌, ◌≡◌, ◌==◌, ◌||◌, refl, ap, Bool, true, false, none, some, List, String, concat,
  if◌then◌else◌,
}
use eve_station_trader.Esi.Limits.{Response}
use eve_station_trader.Esi.Request.{
  Request, response, Server, ClientState, Outcome, return, raise, http_status_error, is_retried,
  limited_request, authenticated_request, request_with_rate_limit,
}
use eve_station_trader.Esi.Recovery.{limited_request-refused}
use eve_station_trader.Esi.Paging.{
  IsPaged, paged_request, authenticated_pages-book, all_pages-book, whole_book,
}
use eve_station_trader.Esi.Pages.{
  is_cached, after_first, all_pages, or_inaccessible, fetch_structure_orders,
  fetch_character_assets, fetch_regional_orders, never_cached,
}

module _ {B : Type 0} {A : Type 0} where
  -- Let the server answer every request for page `p` of the orders of a structure by `pages p`, a
  -- response that a caller may get, and let the body of each page but the 304s parse to `rows p`.
  -- Then the fetch returns the rows of the pages in their order: page 1, then as many more as its
  -- X-Pages header says, 304s left out; and no row at all when page 1 is a 304.
  pub fetch_structure_orders-book :
      (is_error : ℕ → Bool) (server : Server B) (text : ℕ → String) (parse : B → Outcome B (List A))
      (access_token : String) (structure_id : ℕ) (st : ClientState) (pages : ℕ → Response B)
      (rows : ℕ → List A)
      → IsPaged is_error server
          (concat "/markets/structures/" (concat (text structure_id) "/"))
          (λ p. concat "page=" (text p))
          pages
      → ((p : ℕ) → is_cached (pages p) ≡ false → parse (pages p).body ≡ return (rows p))
      → (fetch_structure_orders is_error server text parse access_token structure_id st).0
        ≡ return (some (whole_book is_cached pages rows))
  unfolding fetch_structure_orders
  fetch_structure_orders-book is_error server text parse token structure_id st pages rows paged
        parsed =
      let url = concat "/markets/structures/" (concat (text structure_id) "/") in
      ap or_inaccessible (
        authenticated_pages-book is_error server token url (λ p. concat "page=" (text p)) parse
          pages rows st paged parsed)

  -- The same of the assets of a character.
  pub fetch_character_assets-book :
      (is_error : ℕ → Bool) (server : Server B) (text : ℕ → String) (parse : B → Outcome B (List A))
      (access_token : String) (character_id : ℕ) (st : ClientState) (pages : ℕ → Response B)
      (rows : ℕ → List A)
      → IsPaged is_error server
          (concat "/characters/" (concat (text character_id) "/assets/"))
          (λ p. concat "page=" (text p))
          pages
      → ((p : ℕ) → is_cached (pages p) ≡ false → parse (pages p).body ≡ return (rows p))
      → (fetch_character_assets is_error server text parse access_token character_id st).0
        ≡ return (whole_book is_cached pages rows)
  unfolding fetch_character_assets
  fetch_character_assets-book is_error server text parse token character_id st pages rows paged
        parsed =
      authenticated_pages-book is_error server token
        (concat "/characters/" (concat (text character_id) "/assets/"))
        (λ p. concat "page=" (text p)) parse pages rows st paged parsed

  -- The orders of a region leave no page out: the bodies of all pages are parsed, of a 304 as well.
  pub fetch_regional_orders-book :
      (is_error : ℕ → Bool) (server : Server B) (text : ℕ → String) (parse : B → Outcome B (List A))
      (region_id : ℕ) (st : ClientState) (pages : ℕ → Response B) (rows : ℕ → List A)
      → IsPaged is_error server
          (concat "/markets/" (concat (text region_id) "/orders/"))
          (λ p. concat "order_type=all&page=" (text p))
          pages
      → ((p : ℕ) → parse (pages p).body ≡ return (rows p))
      → (fetch_regional_orders is_error server text parse region_id st).0
        ≡ return (whole_book never_cached pages rows)
  unfolding fetch_regional_orders request_with_rate_limit
  fetch_regional_orders-book is_error server text parse region_id st pages rows paged parsed =
      let url = concat "/markets/" (concat (text region_id) "/orders/") in
      all_pages-book
        (λ p.
          request_with_rate_limit is_error server "GET" url
            (concat "order_type=all&page=" (text p)))
        parse never_cached pages rows st
        (
          (λ p s.
              paged_request is_error server "ESI request failed after retries" url
                (λ n. concat "order_type=all&page=" (text n)) pages p
                (record {
                  method = "GET";
                  url = url;
                  params = concat "order_type=all&page=" (text p);
                  authorization = none;
                  if_none_match = none;
                })
                s paged refl refl),
          λ p _. parsed p,
        )

  -- Let the server answer the first request for the orders of a structure by an error that is not to be
  -- tried again. A 403 or 404 means that the structure is inaccessible: the fetch returns no list. Any
  -- other error is raised. No second request is sent.
  pub fetch_structure_orders-refused :
      (is_error : ℕ → Bool) (server : Server B) (text : ℕ → String) (parse : B → Outcome B (List A))
      (access_token : String) (structure_id : ℕ) (st : ClientState) (r : Response B)
      → ((q : Request) → server st.sent q ≡ response r)
      → (r.status_code == 304) ≡ false
      → is_retried r ≡ false
      → is_error r.status_code ≡ true
      → let (o, st') =
          fetch_structure_orders is_error server text parse access_token structure_id st in
        (o ≡ (
          if r.status_code == 403 || r.status_code == 404
          then return none
          else raise (http_status_error r)))
        × (st'.sent ≡ st.sent + 1)
  unfolding fetch_structure_orders all_pages authenticated_request or_inaccessible
  fetch_structure_orders-refused is_error server text parse token structure_id st r answer fresh
        calm bad =
      let q : Request = record {
        method = "GET";
        url = concat "/markets/structures/" (concat (text structure_id) "/");
        params = concat "page=" (text 1);
        authorization = some (concat "Bearer " token);
        if_none_match = none;
      } in
      let refused =
        limited_request-refused is_error server "ESI authenticated request failed after retries" q
          st r (λ etag. answer (record q { if_none_match = etag })) fresh calm bad in
      after (limited_request is_error server "ESI authenticated request failed after retries" q st)
        refused.0 refused.1
    where
      after :
          (answer : Outcome B (Response B) × ClientState)
          → answer.0 ≡ raise (http_status_error r)
          → answer.1.sent ≡ st.sent + 1
          → (or_inaccessible
                (after_first
                  (λ p.
                    authenticated_request is_error server token "GET"
                      (concat "/markets/structures/" (concat (text structure_id) "/"))
                      (concat "page=" (text p)))
                  parse
                  is_cached
                  answer).0
              ≡ (if r.status_code == 403 || r.status_code == 404
                  then return none
                  else raise (http_status_error r)))
            × ((after_first
                  (λ p.
                    authenticated_request is_error server token "GET"
                      (concat "/markets/structures/" (concat (text structure_id) "/"))
                      (concat "page=" (text p)))
                  parse
                  is_cached
                  answer).1.sent
                ≡ st.sent + 1)
      after (o, m) h k = rw h (refl, k)
