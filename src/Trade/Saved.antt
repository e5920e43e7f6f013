-- ===== src/Trade/Saved.antt =====
-- What an upsert of goods in transit leaves in the table, and when it cannot read them back (proofs).
use eve_station_trader.Prelude.{
  ℕ, ◌==◌, ◌≡◌, refl, ap, ◌∙◌, Bool, true, false, ◌&&◌, Option, none, some, List, [], ◌∷◌, arith,
  find_first, update_where, if◌then◌else◌, inl, inr, Bool-cases, String, find_first-append_none,
  find_first-append_fails, eq_iff,
}
use eve_station_trader.Prelude.Int.{ℤ, pos, ltb_ℤ, eq_ℤ, eq_ℤ→eq}
use eve_station_trader.Trade.Rows.{resolve_location_id, resolve_type_id}
use eve_station_trader.Trade.Transit.{
  InTransitAsset, UpsertRequest, TransitTables, clean_note, same_note, same_triple, assigned,
  new_asset, saved_asset, save_in_transit, save_resolved, upsert_in_transit_asset,
}

same_note→eq : (a b : Option String) → same_note a b ≡ true → a ≡ b
unfolding same_note
same_note→eq none none h = refl
same_note→eq none (some s) h = cc
same_note→eq (some s) none h = cc
same_note→eq (some s) (some u) h = ap some ((eq_iff s u).0 h)

-- An asset with the two values of a request.
abbrev pub HasValues : ℤ → Option String → InTransitAsset → Type 0
HasValues quantity note a = (a.quantity ≡ quantity) × (a.note ≡ note)

assigned-HasValues :
    (now : ℕ) (quantity : ℤ) (note : Option String) (a : InTransitAsset)
    → HasValues quantity note (assigned now quantity note a)
unfolding assigned
assigned-HasValues now quantity note a = elim (Bool-cases (eq_ℤ a.quantity quantity)) [
  | inr e ↦ rw e (refl, refl)
  | inl e ↦ elim (Bool-cases (same_note a.note note)) [
    | inr f ↦ rw (e, f) (refl, refl)
    | inl f ↦ rw (e, f) (eq_ℤ→eq a.quantity quantity e, same_note→eq a.note note f)
  ]
]

assigned-same_triple :
    (now : ℕ) (quantity : ℤ) (note : Option String) (s d i : ℕ) (a : InTransitAsset)
    → same_triple s d i (assigned now quantity note a) ≡ same_triple s d i a
unfolding assigned
assigned-same_triple now quantity note s d i a =
    elim (Bool-cases (eq_ℤ a.quantity quantity && same_note a.note note)) [
      | inl e ↦ rw e refl
      | inr e ↦ rw e refl
    ]

module _ (now source target type_id : ℕ) (quantity : ℤ) (note : Option String) where
  updated-found :
      (a : InTransitAsset) (rows : List InTransitAsset)
      → find_first (same_triple source target type_id) rows ≡ some a
      → (b : InTransitAsset) × (find_first
            (same_triple source target type_id)
            (update_where (same_triple source target type_id) (assigned now quantity note) rows)
          ≡ some b)
        × HasValues quantity note b
  updated-found a [] h = cc
  updated-found a (x ∷ rows) h = elim (Bool-cases (same_triple source target type_id x)) [
    | inl e ↦
        rw (e, assigned-same_triple now quantity note source target type_id x, e)
          (assigned now quantity note x, refl, assigned-HasValues now quantity note x)
    | inr e ↦ rw (e, e) (updated-found a rows (rw e at h))
  ]

  -- Two triples that are not the same.
  updated-others :
      (s d i : ℕ) (rows : List InTransitAsset)
      → ((a : InTransitAsset)
          → same_triple s d i a ≡ true
          → same_triple source target type_id a ≡ false)
      → find_first
          (same_triple s d i)
          (update_where (same_triple source target type_id) (assigned now quantity note) rows)
        ≡ find_first (same_triple s d i) rows
  updated-others s d i [] h = refl
  updated-others s d i (x ∷ rows) h = elim (Bool-cases (same_triple s d i x)) [
    | inl e ↦ rw (h x e, e) refl
    | inr e ↦ elim (Bool-cases (same_triple source target type_id x)) [
      | inl f ↦
          rw (f, assigned-same_triple now quantity note s d i x, e) (updated-others s d i rows h)
      | inr f ↦ rw (f, e) (updated-others s d i rows h)
    ]
  ]

  saved-found :
      (t : TransitTables) (o : Option InTransitAsset)
      → find_first (same_triple source target type_id) t.assets ≡ o
      → (b : InTransitAsset) × (find_first
            (same_triple source target type_id)
            (saved_asset now source target type_id quantity note o t).assets
          ≡ some b)
        × HasValues quantity note b
  unfolding saved_asset
  saved-found t (some a) h = updated-found a t.assets h
  saved-found t none h = (
    new_asset t.next_asset now source target type_id quantity note,
    find_first-append_none (same_triple source target type_id) t.assets
          (new_asset t.next_asset now source target type_id quantity note ∷ []) h
        ∙ ground arith,
    (refl, refl),
  )

  saved-others :
      (s d i : ℕ) (t : TransitTables) (o : Option InTransitAsset)
      → (s == source && d == target && i == type_id) ≡ false
      → find_first
          (same_triple s d i)
          (saved_asset now source target type_id quantity note o t).assets
        ≡ find_first (same_triple s d i) t.assets
  unfolding saved_asset
  saved-others s d i t (some a) h = updated-others s d i t.assets (λ a e. ground arith)
  saved-others s d i t none h =
      find_first-append_fails (same_triple s d i) t.assets
        (new_asset t.next_asset now source target type_id quantity note) (ground arith)

  -- What the table then has at each triple.
  saved-each :
      (t : TransitTables) (o : Option InTransitAsset)
      → find_first (same_triple source target type_id) t.assets ≡ o
      → (b : InTransitAsset) × HasValues quantity note b
        × ((s d i : ℕ)
            → find_first
                (same_triple s d i)
                (saved_asset now source target type_id quantity note o t).assets
              ≡ (if s == source && d == target && i == type_id
                  then some b
                  else find_first (same_triple s d i) t.assets))
  saved-each t o h = let (b, f, v) = saved-found t o h in (b, v, λ s d i. at_triple b f s d i)
    where
      at_triple :
          (b : InTransitAsset)
          → find_first
              (same_triple source target type_id)
              (saved_asset now source target type_id quantity note o t).assets
            ≡ some b
          → (s d i : ℕ)
          → find_first
              (same_triple s d i)
              (saved_asset now source target type_id quantity note o t).assets
            ≡ (if s == source && d == target && i == type_id
                then some b
                else find_first (same_triple s d i) t.assets)
      at_triple b f s d i = elim (Bool-cases (s == source && d == target && i == type_id)) [
        | inl e ↦
            let x : s ≡ source = ground arith in
            let y : d ≡ target = ground arith in
            let z : i ≡ type_id = ground arith in rw e (rw (x, y, z) f)
        | inr e ↦ rw e (saved-others s d i t o e)
      ]

-- A request for at least one unit, whose references are resolved: at the source, the target and the
-- type that they are resolved to, the table then has an asset with the quantity and the stripped note
-- of the request; at every other triple it has what it had.
pub upsert_in_transit_asset-saved :
    (name_before : String → String → Bool) (now : ℕ) (q : UpsertRequest) (t : TransitTables)
    (source target type_id : ℕ)
    → resolve_location_id q.source_location_id t.locations ≡ some source
    → resolve_location_id q.target_location_id t.locations ≡ some target
    → resolve_type_id q.type_id t.items ≡ some type_id
    → ltb_ℤ q.quantity (pos 1) ≡ false
    → (b : InTransitAsset) × HasValues q.quantity (clean_note q.note) b
      × ((s d i : ℕ)
          → find_first (same_triple s d i) (upsert_in_transit_asset name_before now q t).1.assets
            ≡ (if s == source && d == target && i == type_id
                then some b
                else find_first (same_triple s d i) t.assets))
unfolding upsert_in_transit_asset save_resolved save_in_transit
upsert_in_transit_asset-saved name_before now q t source target type_id hs ht hi hq =
    rw (hs, ht, hi, hq)
      (saved-each now source target type_id q.quantity (clean_note q.note) t
        (find_first (same_triple source target type_id) t.assets) refl)
