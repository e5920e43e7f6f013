-- ===== src/Demand/Ratios.antt =====
-- The share of a day's volume that is taken for sales from sell orders.
use eve_station_trader.Prelude.{Bool-cases, inl, inr}
use eve_station_trader.Opportunities.Floats.{Float, min_of, max_of, IsAtMost, IsOrdered}
use eve_station_trader.Opportunities.Inventory.{min_of-right, max_of-right}
use eve_station_trader.Demand.Estimate.{estimate_buy_from_sell_ratio}

module _ {F : Type 0} (f : Float F) (laws : IsOrdered f) where
  min_of-greatest : (a b c : F) → IsAtMost f c a → IsAtMost f c b → IsAtMost f c (min_of f a b)
  min_of-greatest a b c h k = elim (Bool-cases (f.lt b a)) [ inl e ↦ rw e k | inr e ↦ rw e h ]

  -- Where a half lies between zero and one, the ratio lies between them for any prices, also where the
  -- median is outside of the range of the day or the range is empty.
  pub estimate_buy_from_sell_ratio-IsAtMost :
      (median lowest highest : F)
      → IsAtMost f (f.div (f.of_ℕ 1) (f.of_ℕ 2)) (f.of_ℕ 1)
      → let ratio = estimate_buy_from_sell_ratio f median lowest highest in
        IsAtMost f f.zero ratio × IsAtMost f ratio (f.of_ℕ 1)
  unfolding estimate_buy_from_sell_ratio
  estimate_buy_from_sell_ratio-IsAtMost median lowest highest half =
      let raw = f.div (f.sub median lowest) (f.sub highest lowest) in
      elim (Bool-cases (f.lt lowest highest)) [
        | inl e ↦ rw e (
          min_of-greatest (max_of f raw f.zero) (f.of_ℕ 1) f.zero (max_of-right f laws raw f.zero)
              (laws.of_ℕ_nonneg 1),
          min_of-right f laws (max_of f raw f.zero) (f.of_ℕ 1),
        )
        | inr e ↦ rw e (laws.div_nonneg _ _ (laws.of_ℕ_nonneg 1) (laws.of_ℕ_nonneg 2), half)
      ]
