-- ===== src/Esi/Paging.antt =====
-- What the routes in pages return: the rows of the pages in their order.
use eve_station_trader.Prelude.{
  ℕ, zero, suc, ◌+◌, ◌-◌, ◌≡◌, refl, ◌∙◌, ap, Bool, false, none, some, List, [], ◌++◌, String,
  concat, or_else, inl, inr, if◌then◌else◌, arith, Bool-cases,
}
use mathlib.Core.List.{append-nil, append_assoc}
use eve_station_trader.Esi.Limits.{Response}
use eve_station_trader.Esi.Request.{
  Request, response, Server, ClientState, Outcome, return, limited_request, authenticated_request,
}
use eve_station_trader.Esi.Retries.{IsSettled}
use eve_station_trader.Esi.Recovery.{limited_request-recovers}
use eve_station_trader.Esi.Pages.{is_cached, later_pages, one_page, extend, after_first, all_pages}

-- The server answers each request for a page of the URL by that page, and the caller may get it.
abbrev pub IsPaged :
    {B : Type 0} → (ℕ → Bool) → Server B → String → (ℕ → String) → (ℕ → Response B) → Type 0
IsPaged is_error server url params pages =
    ((n page : ℕ) (q : Request)
      → q.url ≡ url
      → q.params ≡ params page
      → server n q ≡ response (pages page))
    × ((page : ℕ) → IsSettled is_error (return (pages page)))

pub paged_request :
    {B : Type 0} (is_error : ℕ → Bool) (server : Server B) (failed url : String)
    (params : ℕ → String) (pages : ℕ → Response B) (page : ℕ) (q : Request) (st : ClientState)
    → IsPaged is_error server url params pages
    → q.url ≡ url
    → q.params ≡ params page
    → (limited_request is_error server failed q st).0 ≡ return (pages page)
paged_request is_error server failed url params pages page q st paged h k =
    (limited_request-recovers is_error server failed q st 0 (λ n. pages page) (pages page)
      (omega arith) tt (λ etag. paged.0 (st.sent + 0) page (record q { if_none_match = etag }) h k)
      (paged.1 page)).0

module _ {B : Type 0} {A : Type 0} where
  -- The rows of `left` pages from `page` on: those that are skipped add none.
  unfoldable pub book : (Response B → Bool) → (ℕ → Response B) → (ℕ → List A) → ℕ → ℕ → List A
  book skip pages rows zero page = []
  book skip pages rows (suc left) page =
      (if skip (pages page) then [] else rows page) ++ book skip pages rows left (page + 1)

  -- Every request for a page is answered by that page, and every page that is not skipped parses.
  abbrev pub IsServed :
      (ℕ → ClientState → Outcome B (Response B) × ClientState)
      → (B → Outcome B (List A))
      → (Response B → Bool)
      → (ℕ → Response B)
      → (ℕ → List A)
      → Type 0
  IsServed request parse skip pages rows =
      ((page : ℕ) (st : ClientState) → (request page st).0 ≡ return (pages page))
      × ((page : ℕ) → skip (pages page) ≡ false → parse (pages page).body ≡ return (rows page))

  one_page-next :
      (parse : B → Outcome B (List A)) (skip : Response B → Bool)
      (next : List A → ClientState → Outcome B (List A) × ClientState) (acc : List A)
      (answer : Outcome B (Response B) × ClientState) (r : Response B) (rows : List A)
      → answer.0 ≡ return r
      → (skip r ≡ false → parse r.body ≡ return rows)
      → one_page parse skip next acc answer ≡ next (acc ++ (if skip r then [] else rows)) answer.1
  unfolding one_page extend
  one_page-next parse skip next acc (o, st) r rows h parsed = elim (Bool-cases (skip r)) [
    | inl e ↦ rw (h, e, append-nil acc) refl
    | inr e ↦ rw (h, e, parsed e) refl
  ]

  later_pages-book :
      (request : ℕ → ClientState → Outcome B (Response B) × ClientState)
      (parse : B → Outcome B (List A)) (skip : Response B → Bool) (pages : ℕ → Response B)
      (rows : ℕ → List A) (left page : ℕ) (acc : List A) (st : ClientState)
      → IsServed request parse skip pages rows
      → (later_pages request parse skip left page acc st).0
        ≡ return (acc ++ book skip pages rows left page)
  unfolding later_pages book
  later_pages-book request parse skip pages rows zero page acc st served = rw (append-nil acc) refl
  later_pages-book request parse skip pages rows (suc left) page acc st served =
      let here = if skip (pages page) then [] else rows page in
      rw
        (one_page-next parse skip (later_pages request parse skip left (page + 1)) acc
          (request page st) (pages page) (rows page) (served.0 page st) (served.1 page))
        (later_pages-book request parse skip pages rows left (page + 1) (acc ++ here)
            (request page st).1 served
          ∙ ap return (append_assoc acc here (book skip pages rows left (page + 1))))

  -- The rows of all pages: X-Pages of the first says how many, and it is 1 when it is missing.
  unfoldable pub whole_book : (Response B → Bool) → (ℕ → Response B) → (ℕ → List A) → List A
  unfolding book
  whole_book skip pages rows =
      if skip (pages 1)
      then []
      else rows 1 ++ book skip pages rows (or_else (pages 1).pages 1 - 1) 2

  after_first-book :
      (request : ℕ → ClientState → Outcome B (Response B) × ClientState)
      (parse : B → Outcome B (List A)) (skip : Response B → Bool) (pages : ℕ → Response B)
      (rows : ℕ → List A) (answer : Outcome B (Response B) × ClientState)
      → IsServed request parse skip pages rows
      → answer.0 ≡ return (pages 1)
      → (after_first request parse skip answer).0 ≡ return (whole_book skip pages rows)
  unfolding after_first whole_book
  after_first-book request parse skip pages rows (o, m) served h =
      elim (Bool-cases (skip (pages 1))) [
        | inl e ↦ rw (h, e) refl
        | inr e ↦
            rw (h, e, served.1 1 e)
              (later_pages-book request parse skip pages rows (or_else (pages 1).pages 1 - 1) 2
                (rows 1) m served)
      ]

  pub all_pages-book :
      (request : ℕ → ClientState → Outcome B (Response B) × ClientState)
      (parse : B → Outcome B (List A)) (skip : Response B → Bool) (pages : ℕ → Response B)
      (rows : ℕ → List A) (st : ClientState)
      → IsServed request parse skip pages rows
      → (all_pages request parse skip st).0 ≡ return (whole_book skip pages rows)
  unfolding all_pages
  all_pages-book request parse skip pages rows st served =
      after_first-book request parse skip pages rows (request 1 st) served (served.0 1 st)

  pub authenticated_pages-book :
      (is_error : ℕ → Bool) (server : Server B) (token url : String) (params : ℕ → String)
      (parse : B → Outcome B (List A)) (pages : ℕ → Response B) (rows : ℕ → List A)
      (st : ClientState)
      → IsPaged is_error server url params pages
      → ((p : ℕ) → is_cached (pages p) ≡ false → parse (pages p).body ≡ return (rows p))
      → (all_pages
          (λ p. authenticated_request is_error server token "GET" url (params p))
          parse
          is_cached
          st).0
        ≡ return (whole_book is_cached pages rows)
  unfolding authenticated_request
  authenticated_pages-book is_error server token url params parse pages rows st paged parsed =
      all_pages-book (λ p. authenticated_request is_error server token "GET" url (params p)) parse
        is_cached pages rows st
        (
          (λ p s.
              paged_request is_error server "ESI authenticated request failed after retries" url
                params pages p
                (record {
                  method = "GET";
                  url = url;
                  params = params p;
                  authorization = some (concat "Bearer " token);
                  if_none_match = none;
                })
                s paged refl refl),
          parsed,
        )
