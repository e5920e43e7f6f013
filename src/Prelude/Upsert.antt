-- ===== src/Prelude/Upsert.antt =====
-- INSERT ... ON CONFLICT (key) DO UPDATE on a table with a unique key: one law for a lookup
-- afterwards, and the key stays unique. `same a b` compares the keys of two rows.
use eve_station_trader.Prelude.{
  ◌≡◌, refl, Bool, true, false, Option, none, some, List, [], ◌∷◌, ◌++◌, arith, if◌then◌else◌, All,
  update_where, find_first, any_row, inl, inr, Bool-cases, All-map_of, All-update_where, All-append,
  ◌∙◌,
}

-- What the unique index of the table compares.
pub record KeyOf {ℓ} (R : Type ℓ) : Type ℓ where
  pub same : R → R → Bool
  pub same_refl : (a : R) → same a a ≡ true
  pub same_sym : (a b : R) → same a b ≡ true → same b a ≡ true
  pub same_trans : (a b c : R) → same a b ≡ true → same b c ≡ true → same a c ≡ true

module _ {ℓ} {R : Type ℓ} (k : KeyOf R) where
  -- The row of the table with the key of `r`.
  abbrev pub stored : R → List R → Option R
  stored r rows = find_first (k.same r) rows

  unfoldable pub upsert : R → List R → List R
  upsert r rows =
      if any_row (k.same r) rows then update_where (k.same r) (λ _. r) rows else rows ++ r ∷ []

  unfoldable pub upsert_all : List R → List R → List R
  unfolding upsert
  upsert_all [] rows = rows
  upsert_all (r ∷ rs) rows = upsert_all rs (upsert r rows)

  -- No key stands twice.
  abbrev pub IsKeyed : List R → Type 0
  IsKeyed [] = Unit
  IsKeyed (r ∷ rs) = All (λ x. k.same r x ≡ false) rs × IsKeyed rs

  same_left : (a b c : R) → k.same a b ≡ true → k.same a c ≡ k.same b c
  same_left a b c h = ground (arith, k.same_sym a b, k.same_trans a b c, k.same_trans b a c)

  same_right : (a b c : R) → k.same b c ≡ true → k.same a b ≡ k.same a c
  same_right a b c h = ground (arith, k.same_sym b c, k.same_trans a b c, k.same_trans a c b)

  stored-update_where :
      (q r : R) (rows : List R)
      → stored q (update_where (k.same r) (λ _. r) rows)
        ≡ (if k.same q r then (if any_row (k.same r) rows then some r else none) else stored q rows)
  stored-update_where q r [] = ground arith
  stored-update_where q r (x ∷ rows) = elim (Bool-cases (k.same r x)) [
    | inl e ↦ ground (arith, stored-update_where q r rows, same_right q r x e)
    | inr e ↦ ground (
      arith,
      stored-update_where q r rows,
      k.same_sym q r,
      k.same_trans r q x,
      k.same_trans q r x,
    )
  ]

  stored-append :
      (q r : R) (rows : List R)
      → stored q (rows ++ r ∷ [])
        ≡ (if any_row (k.same q) rows then stored q rows else if k.same q r then some r else none)
  stored-append q r [] = refl
  stored-append q r (x ∷ rows) = ground (arith, stored-append q r rows)

  pub any_row-same :
      (q r : R) (rows : List R)
      → k.same q r ≡ true
      → any_row (k.same q) rows ≡ any_row (k.same r) rows
  any_row-same q r [] h = refl
  any_row-same q r (x ∷ rows) h = ground (arith, any_row-same q r rows, same_left q r x h)

  stored-absent : (q : R) (rows : List R) → any_row (k.same q) rows ≡ false → stored q rows ≡ none
  stored-absent q [] h = refl
  stored-absent q (x ∷ rows) h = ground (arith, stored-absent q rows)

  -- The row with the key of `q`, after the upsert of `r`.
  pub stored-upsert :
      (q r : R) (rows : List R)
      → stored q (upsert r rows) ≡ (if k.same q r then some r else stored q rows)
  unfolding upsert
  stored-upsert q r rows = elim (Bool-cases (any_row (k.same r) rows)) [
    | inl e ↦ rw e (rw (stored-update_where q r rows, e) refl)
    | inr e ↦
        rw e (ground (arith, stored-append q r rows, any_row-same q r rows, stored-absent q rows))
  ]

  same_false_sym : (a b : R) → k.same a b ≡ false → k.same b a ≡ false
  same_false_sym a b h = ground (arith, k.same_sym b a)

  update_where-fresh :
      (r : R) (rows : List R)
      → All (λ x. k.same r x ≡ false) rows
      → update_where (k.same r) (λ _. r) rows ≡ rows
  update_where-fresh r [] h = refl
  update_where-fresh r (x ∷ rows) h = rw (h.0, update_where-fresh r rows h.1)

  update_where-IsKeyed :
      (r : R) (rows : List R) → IsKeyed rows → IsKeyed (update_where (k.same r) (λ _. r) rows)
  update_where-IsKeyed r [] h = tt
  update_where-IsKeyed r (x ∷ rows) h = elim (Bool-cases (k.same r x)) [
    | inl e ↦
        let others : All (λ y. k.same r y ≡ false) rows =
          All-map_of (λ y. k.same x y ≡ false) rows (λ y d. same_left r x y e ∙ d) h.0 in
        rw (e, update_where-fresh r rows others) (others, h.1)
    | inr e ↦ rw e (
      All-update_where (λ y. k.same x y ≡ false) (k.same r) (λ _. r) rows
          (λ y _. same_false_sym r x e) h.0,
      update_where-IsKeyed r rows h.1,
    )
  ]

  append-IsKeyed :
      (r : R) (rows : List R)
      → any_row (k.same r) rows ≡ false
      → IsKeyed rows
      → IsKeyed (rows ++ r ∷ [])
  append-IsKeyed r [] e h = (tt, tt)
  append-IsKeyed r (x ∷ rows) e h = (
    All-append (λ y. k.same x y ≡ false) rows (r ∷ []) h.0 (same_false_sym r x (ground arith), tt),
    append-IsKeyed r rows (ground arith) h.1,
  )

  pub upsert-IsKeyed : (r : R) (rows : List R) → IsKeyed rows → IsKeyed (upsert r rows)
  unfolding upsert
  upsert-IsKeyed r rows h = elim (Bool-cases (any_row (k.same r) rows)) [
    | inl e ↦ rw e (update_where-IsKeyed r rows h)
    | inr e ↦ rw e (append-IsKeyed r rows e h)
  ]

  pub upsert_all-IsKeyed : (rs rows : List R) → IsKeyed rows → IsKeyed (upsert_all rs rows)
  unfolding upsert_all
  upsert_all-IsKeyed [] rows h = h
  upsert_all-IsKeyed (r ∷ rs) rows h =
      upsert_all-IsKeyed rs (upsert r rows) (upsert-IsKeyed r rows h)

  -- A key that none of the rows has keeps its row.
  pub stored-upsert_all_fresh :
      (q : R) (rs rows : List R)
      → any_row (k.same q) rs ≡ false
      → stored q (upsert_all rs rows) ≡ stored q rows
  unfolding upsert_all
  stored-upsert_all_fresh q [] rows h = refl
  stored-upsert_all_fresh q (r ∷ rs) rows h =
      ground (arith, stored-upsert_all_fresh q rs (upsert r rows), stored-upsert q r rows)

  -- With distinct keys in one statement, a key has the row that the statement has for it.
  pub stored-upsert_all :
      (q r : R) (rs rows : List R)
      → IsKeyed rs
      → stored q rs ≡ some r
      → stored q (upsert_all rs rows) ≡ some r
  unfolding upsert_all
  stored-upsert_all q r [] rows u h = cc
  stored-upsert_all q r (x ∷ rs) rows u h = elim (Bool-cases (k.same q x)) [
    | inl e ↦
        stored-upsert_all_fresh q rs (upsert x rows)
          (any_row-same q x rs e ∙ any_row-fresh x rs u.0)
        ∙ stored-upsert q x rows
        ∙ rw e (rw e at h)
    | inr e ↦ stored-upsert_all q r rs (upsert x rows) u.1 (rw e at h)
  ]
    where
      any_row-fresh :
          (x : R) (rs : List R) → All (λ y. k.same x y ≡ false) rs → any_row (k.same x) rs ≡ false
      any_row-fresh x [] h = refl
      any_row-fresh x (y ∷ ys) h = rw h.0 (any_row-fresh x ys h.1)
