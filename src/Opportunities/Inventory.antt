-- ===== src/Opportunities/Inventory.antt =====
-- The units that are bought: never negative, and no more than the source has or the target needs.
use eve_station_trader.Prelude.{Bool-cases, inl, inr}
use eve_station_trader.Opportunities.Floats.{Float, min_of, max_of, IsAtMost, IsOrdered}
use eve_station_trader.Opportunities.Rules.{calculate_purchase_units, calculate_net_purchase_units}

module _ {F : Type 0} (f : Float F) (laws : IsOrdered f) where
  IsAtMost-self : (a : F) → IsAtMost f a a
  IsAtMost-self a = elim (Bool-cases (f.lt a a)) [ inl e ↦ laws.asymmetric a a e | inr e ↦ e ]

  min_of-left : (a b : F) → IsAtMost f (min_of f a b) a
  min_of-left a b = elim (Bool-cases (f.lt b a)) [
    | inl e ↦ rw e (laws.asymmetric b a e)
    | inr e ↦ rw e (IsAtMost-self a)
  ]

  pub min_of-right : (a b : F) → IsAtMost f (min_of f a b) b
  min_of-right a b = elim (Bool-cases (f.lt b a)) [
    | inl e ↦ rw e (IsAtMost-self b)
    | inr e ↦ rw e e
  ]

  max_of-least : (a b c : F) → IsAtMost f a c → IsAtMost f b c → IsAtMost f (max_of f a b) c
  max_of-least a b c h k = elim (Bool-cases (f.lt a b)) [ inl e ↦ rw e k | inr e ↦ rw e h ]

  pub max_of-right : (a b : F) → IsAtMost f b (max_of f a b)
  max_of-right a b = elim (Bool-cases (f.lt a b)) [
    | inl e ↦ rw e (IsAtMost-self b)
    | inr e ↦ rw e e
  ]

  -- With inventory and offers that are not negative, the net units to buy are not negative, at most
  -- the units offered at the source, and at most the demand of a day where that is not negative.
  pub calculate_net_purchase_units-IsAtMost :
      (offered demand assets orders transit : F)
      → IsAtMost f f.zero offered
      → IsAtMost f f.zero demand
      → IsAtMost f f.zero assets
      → IsAtMost f f.zero orders
      → IsAtMost f f.zero transit
      → let units =
          calculate_net_purchase_units f
            (calculate_purchase_units f offered demand)
            assets
            orders
            transit in
        IsAtMost f f.zero units × IsAtMost f units offered × IsAtMost f units demand
  unfolding calculate_net_purchase_units calculate_purchase_units
  calculate_net_purchase_units-IsAtMost offered demand assets orders transit ho hd ha hs ht =
      let gross = min_of f offered demand in
      let one = f.sub gross assets in
      let two = f.sub one orders in
      let rest = f.sub two transit in
      let below : IsAtMost f rest gross =
        laws.transitive rest two gross (laws.sub_below two transit ht) (
          laws.transitive two one gross (laws.sub_below one orders hs)
            (laws.sub_below gross assets ha)) in
      (
        max_of-right rest f.zero,
        max_of-least rest f.zero offered
            (laws.transitive rest gross offered below (min_of-left offered demand)) ho,
        max_of-least rest f.zero demand
            (laws.transitive rest gross demand below (min_of-right offered demand)) hd,
      )
