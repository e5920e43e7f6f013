-- ===== src/Opportunities/Whole.antt =====
-- Whole numbers as floats: an instance of the interface and its laws, on which the tests run.
use eve_station_trader.Prelude.{ℕ, ◌+◌, ◌-◌, ◌*◌, ◌/◌, ◌≡◌, false, ltb, arith}
use eve_station_trader.Opportunities.Floats.{Float, IsOrdered}

abbrev pub whole : Float ℕ
whole = record {
  zero = 0;
  epsilon = 1;
  add = λ a b. a + b;
  sub = λ a b. a - b;
  mul = λ a b. a * b;
  div = λ a b. a / b;
  lt = ltb;
  ceil = λ a. a;
  of_ℕ = λ a. a;
  trunc = λ a. a;
}

never_below : (a : ℕ) → ltb a 0 ≡ false
never_below a = ground arith

pub whole_laws : IsOrdered whole
whole_laws = record {
  asymmetric = λ a b h. ground arith;
  transitive = λ a b c h k. ground arith;
  sub_below = λ a b h. ground arith;
  div_nonneg = λ a b h k. never_below (a / b);
  of_ℕ_nonneg = never_below;
}
