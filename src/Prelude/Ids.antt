-- ===== src/Prelude/Ids.antt =====
-- Tables with an integer primary key: `session.get`, changes of the row that it returns, and
-- appended rows. `ident` is the primary key.
use eve_station_trader.Prelude.{
  ℕ, ◌+◌, ◌≤◌, ◌<◌, ◌≡◌, refl, sym, subst, Bool, true, false, Option, none, some, List, [], ◌∷◌,
  ◌++◌, arith, ◌==◌, if◌then◌else◌, All, All-append, update_where, find_first, count_where, inl,
  inr, Bool-cases, All-update_where, select, eq_of_some,
}
use mathlib.Core.Option

module _ {ℓ} {A : Type ℓ} (ident : A → ℕ) where
  abbrev pub get : ℕ → List A → Option A
  get i rows = find_first (λ r. ident r == i) rows

  abbrev pub set_row : ℕ → (A → A) → List A → List A
  set_row i f rows = update_where (λ r. ident r == i) f rows

  abbrev pub IsUnique : List A → Type 0
  IsUnique [] = Unit
  IsUnique (x ∷ rows) = All (λ r. (ident r == ident x) ≡ false) rows × IsUnique rows

  -- The keys that the sequence has handed out lie below its next value.
  abbrev pub IsBelow : ℕ → List A → Type 0
  IsBelow n = All (λ r. ident r < n)

  set_row-absent :
      (i : ℕ) (f : A → A) (rows : List A)
      → All (λ r. (ident r == i) ≡ false) rows
      → set_row i f rows ≡ rows
  set_row-absent i f [] h = refl
  set_row-absent i f (x ∷ rows) h = rw (h.0, set_row-absent i f rows h.1)

  same_ids :
      (i : ℕ) (x : A) (rows : List A)
      → (ident x == i) ≡ true
      → All (λ r. (ident r == ident x) ≡ false) rows
      → All (λ r. (ident r == i) ≡ false) rows
  same_ids i x [] e h = tt
  same_ids i x (r ∷ rows) e h = (ground (arith, h.0), same_ids i x rows e h.1)

  pub All-set_row {κ} :
      (P : A → Type κ) (i : ℕ) (f : A → A) (j : A) (rows : List A)
      → IsUnique rows
      → get i rows ≡ some j
      → P (f j)
      → All P rows
      → All P (set_row i f rows)
  All-set_row P i f j [] u e k h = tt
  All-set_row P i f j (x ∷ rows) u e k h = elim (Bool-cases (ident x == i)) [
    | inl m ↦
        let same : x ≡ j = eq_of_some (rw m at e) in
        rw (m, set_row-absent i f rows (same_ids i x rows m u.0))
          (subst (λ y. P (f y)) (sym same) k, h.1)
    | inr m ↦ rw m (h.0, All-set_row P i f j rows u.1 (rw m at e) k h.1)
  ]

  -- What holds of every row holds of the row that is found.
  pub All-get {κ} :
      (P : A → Type κ) (i : ℕ) (j : A) (rows : List A) → get i rows ≡ some j → All P rows → P j
  All-get P i j [] e h = absurd (absent e)
    where
      absent : ◌≡◌ {A = Option A} none (some j) → ⊥
      absent e' = cc
  All-get P i j (x ∷ rows) e h = elim (Bool-cases (ident x == i)) [
    | inl m ↦ subst P (eq_of_some (rw m at e)) h.0
    | inr m ↦ All-get P i j rows (rw m at e) h.1
  ]

  -- No more rows pass a test than before, where the changed row does not come to pass it.
  pub count-set_row :
      (q : A → Bool) (i : ℕ) (f : A → A) (j : A) (rows : List A)
      → IsUnique rows
      → get i rows ≡ some j
      → (q (f j) ≡ true → q j ≡ true)
      → count_where q (set_row i f rows) ≤ count_where q rows
  count-set_row q i f j [] u e k = omega arith
  count-set_row q i f j (x ∷ rows) u e k = elim (Bool-cases (ident x == i)) [
    | inl m ↦
        let same : x ≡ j = eq_of_some (rw m at e) in
        let k' : q (f x) ≡ true → q x ≡ true =
          subst (λ y. q (f y) ≡ true → q y ≡ true) (sym same) k in
        rw (m, set_row-absent i f rows (same_ids i x rows m u.0))
          (count_le (q (f x)) (q x) (count_where q rows) k')
    | inr m ↦ rw m (omega (arith, count-set_row q i f j rows u.1 (rw m at e) k))
  ]
    where
      count_le :
          (a b : Bool) (n : ℕ)
          → (a ≡ true → b ≡ true)
          → (if a then 1 else 0) + n ≤ (if b then 1 else 0) + n
      count_le true b n h = rw (h refl) (omega arith)
      count_le false b n h = ground arith

  -- A change that keeps the key keeps the keys.
  module _ (f : A → A) (keeps : (r : A) → ident (f r) ≡ ident r) where
    update_where-fresh :
        (p : A → Bool) (k : ℕ) (rows : List A)
        → All (λ r. (ident r == k) ≡ false) rows
        → All (λ r. (ident r == k) ≡ false) (update_where p f rows)
    update_where-fresh p k rows h =
        All-update_where (λ r. (ident r == k) ≡ false) p f rows (λ r e. rw (keeps r) e) h

    pub update_where-IsUnique :
        (p : A → Bool) (rows : List A) → IsUnique rows → IsUnique (update_where p f rows)
    update_where-IsUnique p [] u = tt
    update_where-IsUnique p (x ∷ rows) u = elim (Bool-cases (p x)) [
      | inl m ↦
          rw m (
            rw (keeps x) (update_where-fresh p (ident x) rows u.0),
            update_where-IsUnique p rows u.1,
          )
      | inr m ↦ rw m (update_where-fresh p (ident x) rows u.0, update_where-IsUnique p rows u.1)
    ]

    pub update_where-IsBelow :
        (p : A → Bool) (n : ℕ) (rows : List A) → IsBelow n rows → IsBelow n (update_where p f rows)
    update_where-IsBelow p n rows h =
        All-update_where (λ r. ident r < n) p f rows (λ r b. rw (keeps r) b) h

    -- A row that fails the test is found as it was.
    pub get-update_where_fails :
        (p : A → Bool) (i : ℕ) (j : A) (rows : List A)
        → get i rows ≡ some j
        → p j ≡ false
        → get i (update_where p f rows) ≡ some j
    get-update_where_fails p i j [] e n = cc
    get-update_where_fails p i j (x ∷ rows) e n =
        ground (arith, get-update_where_fails p i j rows, keeps x)

    pub get-set_row : (i : ℕ) (rows : List A) → get i (set_row i f rows) ≡ Option.map f (get i rows)
    get-set_row i [] = refl
    get-set_row i (x ∷ rows) = ground (arith, get-set_row i rows, keeps x)

    pub get-set_row_ne :
        (i k : ℕ) (rows : List A) → (k == i) ≡ false → get k (set_row i f rows) ≡ get k rows
    get-set_row_ne i k [] d = refl
    get-set_row_ne i k (x ∷ rows) d = ground (arith, get-set_row_ne i k rows, keeps x)

  IsBelow-fresh : (n : ℕ) (rows : List A) → IsBelow n rows → All (λ r. (ident r == n) ≡ false) rows
  IsBelow-fresh n [] h = tt
  IsBelow-fresh n (x ∷ rows) h = (ground (arith, h.0), IsBelow-fresh n rows h.1)

  pub IsBelow-append :
      (n : ℕ) (r : A) (rows : List A)
      → ident r ≡ n
      → IsBelow n rows
      → IsBelow (n + 1) (rows ++ r ∷ [])
  IsBelow-append n r [] e h = (omega arith, tt)
  IsBelow-append n r (x ∷ rows) e h = (omega (arith, h.0), IsBelow-append n r rows e h.1)

  pub append-IsUnique :
      (n : ℕ) (r : A) (rows : List A)
      → ident r ≡ n
      → IsBelow n rows
      → IsUnique rows
      → IsUnique (rows ++ r ∷ [])
  append-IsUnique n r [] e b u = (tt, tt)
  append-IsUnique n r (x ∷ rows) e b u = (
    All-append (λ y. (ident y == ident x) ≡ false) rows (r ∷ []) u.0 (ground (arith, b.0), tt),
    append-IsUnique n r rows e b.1 u.1,
  )

  -- A row that is found is found behind an appended one too.
  pub get-append_found :
      (i : ℕ) (j r : A) (rows : List A) → get i rows ≡ some j → get i (rows ++ r ∷ []) ≡ some j
  get-append_found i j r [] e = absurd (absent e)
    where
      absent : ◌≡◌ {A = Option A} none (some j) → ⊥
      absent e' = cc
  get-append_found i j r (x ∷ rows) e = elim (Bool-cases (ident x == i)) [
    | inl m ↦ rw m (rw m at e)
    | inr m ↦ rw m (get-append_found i j r rows (rw m at e))
  ]

  pub get-append :
      (n : ℕ) (r : A) (rows : List A)
      → ident r ≡ n
      → IsBelow n rows
      → get n (rows ++ r ∷ []) ≡ some r
  get-append n r [] e b = ground arith
  get-append n r (x ∷ rows) e b = ground (arith, b.0, get-append n r rows e b.1)

module _ {ℓ} {A : Type ℓ} where
  -- Rows that a statement changes so that they fail a test do not add to those that pass it.
  pub count-update_where :
      (q p : A → Bool) (f : A → A) (rows : List A)
      → ((r : A) → q (f r) ≡ false)
      → count_where q (update_where p f rows) ≤ count_where q rows
  count-update_where q p f [] h = omega arith
  count-update_where q p f (x ∷ rows) h = ground (arith, count-update_where q p f rows h, h x)

  pub count-append :
      (q : A → Bool) (xs ys : List A)
      → count_where q (xs ++ ys) ≡ count_where q xs + count_where q ys
  count-append q [] ys = omega arith
  count-append q (x ∷ xs) ys = ground (arith, count-append q xs ys)

  -- No row passes the test.
  pub count-select_nil :
      (q : A → Bool) (rows : List A) → select q rows ≡ [] → count_where q rows ≡ 0
  count-select_nil q [] h = refl
  count-select_nil q (x ∷ rows) h = ground (arith, count-select_nil q rows)

  pub select-count_zero :
      (q : A → Bool) (rows : List A) → count_where q rows ≡ 0 → select q rows ≡ []
  select-count_zero q [] h = refl
  select-count_zero q (x ∷ rows) h = ground (arith, select-count_zero q rows)

  -- A row that passes the test, and that the statement changes, is one less that passes it.
  pub count-update_where_lt :
      (ident : A → ℕ) (q p : A → Bool) (f : A → A) (i : ℕ) (j : A) (rows : List A)
      → ((r : A) → q (f r) ≡ false)
      → get ident i rows ≡ some j
      → q j ≡ true
      → p j ≡ true
      → count_where q (update_where p f rows) + 1 ≤ count_where q rows
  count-update_where_lt ident q p f i j [] h e t u = cc
  count-update_where_lt ident q p f i j (x ∷ rows) h e t u = elim (Bool-cases (ident x == i)) [
    | inl m ↦
        let same : x ≡ j = eq_of_some (rw m at e) in
        ground (arith, same, h x, count-update_where q p f rows h)
    | inr m ↦ ground (arith, h x, count-update_where_lt ident q p f i j rows h (rw m at e) t u)
  ]

-- Rows replaced by rows with the same key, and a row appended whose key is not found.
module _ {ℓ} {A : Type ℓ} (ident : A → ℕ) where
  set_row-fresh :
      (i k : ℕ) (f : A → A) (rows : List A)
      → ((r : A) → ident (f r) ≡ i)
      → All (λ r. (ident r == k) ≡ false) rows
      → All (λ r. (ident r == k) ≡ false) (set_row ident i f rows)
  set_row-fresh i k f [] keeps h = tt
  set_row-fresh i k f (x ∷ rows) keeps h = elim (Bool-cases (ident x == i)) [
    | inl e ↦ rw e (ground (arith, keeps x, h.0), set_row-fresh i k f rows keeps h.1)
    | inr e ↦ rw e (h.0, set_row-fresh i k f rows keeps h.1)
  ]

  pub set_row-IsUnique :
      (i : ℕ) (f : A → A) (rows : List A)
      → ((r : A) → ident (f r) ≡ i)
      → IsUnique ident rows
      → IsUnique ident (set_row ident i f rows)
  set_row-IsUnique i f [] keeps u = tt
  set_row-IsUnique i f (x ∷ rows) keeps u = elim (Bool-cases (ident x == i)) [
    | inl e ↦
        let m : ident x ≡ i = ground arith in
        let fresh : All (λ r. (ident r == i) ≡ false) rows =
          subst (λ k. All (λ r. (ident r == k) ≡ false) rows) m u.0 in
        rw (e, keeps x) (set_row-fresh i i f rows keeps fresh, set_row-IsUnique i f rows keeps u.1)
    | inr e ↦ rw e (set_row-fresh i (ident x) f rows keeps u.0, set_row-IsUnique i f rows keeps u.1)
  ]

  pub append-IsUnique_fresh :
      (r : A) (rows : List A)
      → get ident (ident r) rows ≡ none
      → IsUnique ident rows
      → IsUnique ident (rows ++ r ∷ [])
  append-IsUnique_fresh r [] e u = (tt, tt)
  append-IsUnique_fresh r (x ∷ rows) e u = elim (Bool-cases (ident x == ident r)) [
    | inl m ↦ absurd (found m (rw m at e))
    | inr m ↦ (
      All-append (λ y. (ident y == ident x) ≡ false) rows (r ∷ []) u.0 (ground arith, tt),
      append-IsUnique_fresh r rows (rw m at e) u.1,
    )
  ]
    where
      found : (ident x == ident r) ≡ true → some x ≡ none → ⊥
      found m c = cc
