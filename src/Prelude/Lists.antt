-- ===== src/Prelude/Lists.antt =====
-- Lists measured by native numbers, predicates on all entries, and the list forms of the SQL
-- statements that the program sends: SELECT ... WHERE, UPDATE ... WHERE and a lookup of one row.
use Prim.Native.Nat.{ℕ, suc, ◌+◌}
use mathlib.Core.Path.{◌≡◌, refl, sym, ap, ◌∙◌}
use mathlib.Core.Bool.{Bool, true, false, ◌||◌}
use mathlib.Core.List.{List, [], ◌∷◌, ◌++◌}
use mathlib.Core.Option.{Option, none, some}
use native.Mathlib.Omega.{arith}
use eve_station_trader.Prelude.Tests.{if◌then◌else◌, eq_of_some, ◌==◌, Bool-cases}
use mathlib.Core.Logic.{inl, inr}

module _ {ℓ} {A : Type ℓ} where
  abbrev pub length : List A → ℕ
  length [] = 0
  length (x ∷ xs) = suc (length xs)

  -- `P` holds of every entry.
  abbrev pub All {κ} : (A → Type κ) → List A → Type κ
  All P [] = Unit
  All P (x ∷ xs) = P x × All P xs

  -- SELECT ... WHERE: the rows that pass the test, in their order.
  abbrev pub select : (A → Bool) → List A → List A
  select p [] = []
  select p (x ∷ xs) = if p x then x ∷ select p xs else select p xs

  -- DELETE ... WHERE
  abbrev pub delete : (A → Bool) → List A → List A
  delete p [] = []
  delete p (x ∷ xs) = if p x then delete p xs else x ∷ delete p xs

  -- UPDATE ... WHERE
  abbrev pub update_where : (A → Bool) → (A → A) → List A → List A
  update_where p f [] = []
  update_where p f (x ∷ xs) = (if p x then f x else x) ∷ update_where p f xs

  -- The first row that passes the test.
  abbrev pub find_first : (A → Bool) → List A → Option A
  find_first p [] = none
  find_first p (x ∷ xs) = if p x then some x else find_first p xs

  -- Some row passes the test.
  abbrev pub any_row : (A → Bool) → List A → Bool
  any_row p [] = false
  any_row p (x ∷ xs) = p x || any_row p xs

  -- SELECT COUNT(*) ... WHERE
  abbrev pub count_where : (A → Bool) → List A → ℕ
  count_where p [] = 0
  count_where p (x ∷ xs) = (if p x then 1 else 0) + count_where p xs

module _ {ℓ} {A : Type ℓ} where
  pub length-append : (xs ys : List A) → length (xs ++ ys) ≡ length xs + length ys
  length-append [] ys = omega arith
  length-append (x ∷ xs) ys = omega (arith, length-append xs ys)

module _ {ℓ κ} {A : Type ℓ} (P : A → Type κ) where
  pub All-append : (xs ys : List A) → All P xs → All P ys → All P (xs ++ ys)
  All-append [] ys h k = k
  All-append (x ∷ xs) ys h k = (h.0, All-append xs ys h.1 k)

  pub All-map_of {μ} : {Q : A → Type μ} (xs : List A) → ((x : A) → P x → Q x) → All P xs → All Q xs
  All-map_of [] f h = tt
  All-map_of (x ∷ xs) f h = (f x h.0, All-map_of xs f h.1)

  pub All-update_where :
      (p : A → Bool) (f : A → A) (xs : List A)
      → ((x : A) → P x → P (f x))
      → All P xs
      → All P (update_where p f xs)
  All-update_where p f [] keep h = tt
  All-update_where p f (x ∷ xs) keep h = (pick (p x), All-update_where p f xs keep h.1)
    where
      pick : (b : Bool) → P (if b then f x else x)
      pick true = keep x h.0
      pick false = h.0

module _ {ℓ} {A : Type ℓ} where
  -- What is found passes the test.
  pub find_first-passes :
      (p : A → Bool) (xs : List A) (a : A) → find_first p xs ≡ some a → p a ≡ true
  find_first-passes p [] a h = cc
  find_first-passes p (x ∷ xs) a h = pick (p x) refl h (find_first-passes p xs a)
    where
      pick :
          (b : Bool)
          → p x ≡ b
          → (if b then some x else find_first p xs) ≡ some a
          → (find_first p xs ≡ some a → p a ≡ true)
          → p a ≡ true
      pick true e k rest = ap p (sym (eq_of_some k)) ∙ e
      pick false e k rest = rest k

  -- A row at the end is found where no row before it is.
  pub find_first-append_some :
      (p : A → Bool) (xs ys : List A) (a : A)
      → find_first p xs ≡ some a
      → find_first p (xs ++ ys) ≡ some a
  find_first-append_some p [] ys a h = cc
  find_first-append_some p (x ∷ xs) ys a h = ground (arith, find_first-append_some p xs ys a)

  pub find_first-append_none :
      (p : A → Bool) (xs ys : List A)
      → find_first p xs ≡ none
      → find_first p (xs ++ ys) ≡ find_first p ys
  find_first-append_none p [] ys h = refl
  find_first-append_none p (x ∷ xs) ys h = ground (arith, find_first-append_none p xs ys)

  pub length-update_where :
      (p : A → Bool) (f : A → A) (xs : List A) → length (update_where p f xs) ≡ length xs
  length-update_where p f [] = refl
  length-update_where p f (x ∷ xs) = omega (arith, length-update_where p f xs)

  -- A DELETE takes the rows that a SELECT of the same test gives.
  pub length-delete :
      (p : A → Bool) (xs : List A) → length (delete p xs) + length (select p xs) ≡ length xs
  length-delete p [] = omega arith
  length-delete p (x ∷ xs) = ground (arith, length-delete p xs)

  pub find_first-append_fails :
      (p : A → Bool) (xs : List A) (x : A)
      → p x ≡ false
      → find_first p (xs ++ x ∷ []) ≡ find_first p xs
  find_first-append_fails p [] x d = rw d refl
  find_first-append_fails p (y ∷ xs) x d = ground (arith, find_first-append_fails p xs x d)

  -- A SELECT within the scope of a DELETE finds just the rows that were inserted.
  pub select-replaced :
      (p scope : A → Bool) (rows old : List A)
      → ((x : A) → p x ≡ true → scope x ≡ true)
      → All (λ x. p x ≡ true) rows
      → select p (delete scope old ++ rows) ≡ rows
  select-replaced p scope [] [] within h = refl
  select-replaced p scope (r ∷ rows) [] within h =
      rw (h.0, select-replaced p scope rows [] within h.1) refl
  select-replaced p scope rows (o ∷ old) within h = elim (Bool-cases (scope o)) [
    | inl e ↦ rw e (select-replaced p scope rows old within h)
    | inr e ↦ elim (Bool-cases (p o)) [
      | inl f ↦ absurd (clash (within o f) e)
      | inr f ↦ rw (e, f) (select-replaced p scope rows old within h)
    ]
  ]
    where
      clash : scope o ≡ true → scope o ≡ false → ⊥
      clash g d = cc

-- id IN (...)
abbrev pub among : ℕ → List ℕ → Bool
among a xs = any_row (λ x. x == a) xs
