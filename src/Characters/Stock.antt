-- ===== src/Characters/Stock.antt =====
-- What characters own after a sync: nothing that was fetched is lost or counted twice.
use eve_station_trader.Prelude.{
  ℕ, ◌+◌, ◌≡◌, refl, ap, ◌∙◌, Bool, true, false, ◌&&◌, Option, none, some, List, [], ◌∷◌, ◌++◌, map,
  ◌==◌, ==_iff, delete, if◌then◌else◌, Bool-cases, inl, inr, arith,
}
use eve_station_trader.Prelude.Int.{pos_part}
use eve_station_trader.Characters.Assets.{
  AssetRecord, CharacterAsset, Named, Entry, same_location, resolve, add_quantity, add_asset,
  aggregate, asset_row, sync_character_assets,
}

-- What the rows of a character hold of a type at a location.
unfoldable pub stock : ℕ → ℕ → Option ℕ → List CharacterAsset → ℕ
stock character ty loc [] = 0
stock character ty loc (r ∷ rs) =
    (if r.character_id == character && (r.type_id == ty && same_location r.external_location_id loc)
      then r.quantity
      else 0)
    + stock character ty loc rs

-- What was fetched of it: negative quantities count as zero.
abbrev pub is_type : Option ℕ → ℕ → Bool
is_type none ty = false
is_type (some t) ty = t == ty

unfoldable pub fetched_total : List Named → ℕ → Option ℕ → List AssetRecord → ℕ
unfolding resolve
fetched_total items ty loc [] = 0
fetched_total items ty loc (a ∷ rest) =
    (if is_type (resolve items a.type_id) ty && same_location a.location_id loc
      then pos_part a.quantity
      else 0)
    + fetched_total items ty loc rest

held : ℕ → Option ℕ → List Entry → ℕ
held ty loc [] = 0
held ty loc (e ∷ es) =
    (if e.type_id == ty && same_location e.location_id loc then e.quantity else 0) + held ty loc es

same_location_eq : (a b : Option ℕ) → same_location a b ≡ true → a ≡ b
same_location_eq none none h = refl
same_location_eq none (some b) h = cc
same_location_eq (some a) none h = cc
same_location_eq (some a) (some b) h = ap some ((==_iff a b).0 h)

both : (p q : Bool) → (p && q) ≡ true → (p ≡ true) × (q ≡ true)
both true true h = (refl, refl)
both true false h = cc
both false q h = cc

same_test :
    (a b ty : ℕ) (x y loc : Option ℕ)
    → (a == b && same_location x y) ≡ true
    → (b == ty && same_location y loc) ≡ (a == ty && same_location x loc)
same_test a b ty x y loc h =
    let (p, q) = both (a == b) (same_location x y) h in
    let e = (==_iff a b).0 p in let g = same_location_eq x y q in cc

added :
    (b : Bool) (m n rest : ℕ)
    → (if b then m + n else 0) + rest ≡ (if b then n else 0) + ((if b then m else 0) + rest)
added true m n rest = omega arith
added false m n rest = omega arith

held-add_quantity :
    (ty : ℕ) (loc : Option ℕ) (t : ℕ) (l : Option ℕ) (n : ℕ) (es : List Entry)
    → held ty loc (add_quantity t l n es)
      ≡ (if t == ty && same_location l loc then n else 0) + held ty loc es
unfolding held add_quantity
held-add_quantity ty loc t l n [] = refl
held-add_quantity ty loc t l n (e ∷ es) =
    elim (Bool-cases (e.type_id == t && same_location e.location_id l)) [
      | inl k ↦
          rw (k, same_test e.type_id t ty e.location_id l loc k)
            (added (e.type_id == ty && same_location e.location_id loc) e.quantity n
              (held ty loc es))
      | inr k ↦ rw k (omega (arith, held-add_quantity ty loc t l n es))
    ]

held-aggregate :
    (items : List Named) (ty : ℕ) (loc : Option ℕ) (fetched : List AssetRecord) (es : List Entry)
    → held ty loc (aggregate items fetched es) ≡ fetched_total items ty loc fetched + held ty loc es
unfolding aggregate fetched_total
held-aggregate items ty loc [] es = omega arith
held-aggregate items ty loc (a ∷ rest) es =
    held-aggregate items ty loc rest (add_asset (resolve items a.type_id) a es)
    ∙ pick (resolve items a.type_id)
  where
    pick :
        (o : Option ℕ)
        → fetched_total items ty loc rest + held ty loc (add_asset o a es)
          ≡ (if is_type o ty && same_location a.location_id loc then pos_part a.quantity else 0)
            + fetched_total items ty loc rest
            + held ty loc es
    pick none = omega arith
    pick (some t) = omega (arith, held-add_quantity ty loc t a.location_id (pos_part a.quantity) es)

module _ (character : ℕ) where
  stock-append :
      (ty : ℕ) (loc : Option ℕ) (xs ys : List CharacterAsset)
      → stock character ty loc (xs ++ ys) ≡ stock character ty loc xs + stock character ty loc ys
  unfolding stock
  stock-append ty loc [] ys = omega arith
  stock-append ty loc (x ∷ xs) ys = omega (arith, stock-append ty loc xs ys)

  stock-deleted :
      (ty : ℕ) (loc : Option ℕ) (rows : List CharacterAsset)
      → stock character ty loc (delete (λ r. r.character_id == character) rows) ≡ 0
  unfolding stock
  stock-deleted ty loc [] = refl
  stock-deleted ty loc (r ∷ rows) = elim (Bool-cases (r.character_id == character)) [
    | inl e ↦ rw e (stock-deleted ty loc rows)
    | inr e ↦ rw (e, e) (omega (arith, stock-deleted ty loc rows))
  ]

  stock-asset_row :
      (ty : ℕ) (loc : Option ℕ) (locations : List Named) (es : List Entry)
      → stock character ty loc (map (asset_row character locations) es) ≡ held ty loc es
  unfolding stock asset_row held
  stock-asset_row ty loc locations [] = refl
  stock-asset_row ty loc locations (e ∷ es) =
      rw ((==_iff character character).1 refl, stock-asset_row ty loc locations es) refl

  others-kept :
      (locations : List Named) (es : List Entry) (rows : List CharacterAsset)
      → delete
          (λ r. r.character_id == character)
          (delete (λ r. r.character_id == character) rows ++ map (asset_row character locations) es)
        ≡ delete (λ r. r.character_id == character) rows
  unfolding asset_row
  others-kept locations [] [] = refl
  others-kept locations (e ∷ es) [] =
      rw ((==_iff character character).1 refl) (others-kept locations es [])
  others-kept locations es (r ∷ rows) = elim (Bool-cases (r.character_id == character)) [
    | inl e ↦ rw e (others-kept locations es rows)
    | inr e ↦ rw (e, e) (ap (λ (xs : List CharacterAsset). r ∷ xs) (others-kept locations es rows))
  ]

  -- After a sync of the assets of a character, its rows hold of each type of item at each location just
  -- what was fetched of it: the sum of the quantities whose type is known, negative ones as zero. The
  -- rows of all other characters are as they were.
  pub sync_character_assets-stock :
      (items locations : List Named) (fetched : List AssetRecord) (assets : List CharacterAsset)
      → let synced = sync_character_assets character items locations fetched assets in
        ((ty : ℕ) (loc : Option ℕ)
          → stock character ty loc synced ≡ fetched_total items ty loc fetched)
        × (delete (λ r. r.character_id == character) synced
            ≡ delete (λ r. r.character_id == character) assets)
  unfolding sync_character_assets held
  sync_character_assets-stock items locations fetched assets =
      let es = aggregate items fetched [] in
      (
        (λ ty loc. omega (
          arith,
          stock-append ty loc (delete (λ r. r.character_id == character) assets)
              (map (asset_row character locations) es),
          stock-deleted ty loc assets,
          stock-asset_row ty loc locations es,
          held-aggregate items ty loc fetched [],
        )),
        others-kept locations es assets,
      )
