-- ===== src/Opportunities/Floats.antt =====
-- Python's floats, as far as backend/app/domain/rules.py uses them: the operations are open, and the
-- laws are those of IEEE 754 on numbers that are not NaN.
use eve_station_trader.Prelude.{ℕ, ◌≡◌, Bool, true, false, if◌then◌else◌}

pub record Float (F : Type 0) : Type 0 where
  pub zero : F
  pub epsilon : F
  pub add : F → F → F
  pub sub : F → F → F
  pub mul : F → F → F
  pub div : F → F → F
  pub lt : F → F → Bool
  pub ceil : F → F
  pub of_ℕ : ℕ → F
  pub trunc : F → ℕ

module _ {F : Type 0} (f : Float F) where
  -- min(a, b) and max(a, b) give the first of equal values.
  abbrev pub min_of : F → F → F
  min_of a b = if f.lt b a then b else a

  abbrev pub max_of : F → F → F
  max_of a b = if f.lt a b then b else a

  abbrev pub abs_of : F → F
  abs_of a = if f.lt a f.zero then f.sub f.zero a else a

  -- a is at most b.
  abbrev pub IsAtMost : F → F → Type 0
  IsAtMost a b = f.lt b a ≡ false

  -- Not NaN: the order is total, and a number that is not negative does not make a
  -- difference larger, and a quotient of such numbers is not negative.
  pub record IsOrdered : Type 0 where
    pub asymmetric : (a b : F) → f.lt a b ≡ true → f.lt b a ≡ false
    pub transitive : (a b c : F) → IsAtMost a b → IsAtMost b c → IsAtMost a c
    pub sub_below : (a b : F) → IsAtMost f.zero b → IsAtMost (f.sub a b) a
    pub div_nonneg : (a b : F) → IsAtMost f.zero a → IsAtMost f.zero b → IsAtMost f.zero (f.div a b)
    pub of_ℕ_nonneg : (n : ℕ) → IsAtMost f.zero (f.of_ℕ n)
