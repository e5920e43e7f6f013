-- ===== src/Ingest/Places.antt =====
-- What one call of `_ensure_station_location` leaves of the locations (proofs).
use eve_station_trader.Prelude.{
  ℕ, ◌+◌, ◌==◌, leb, ◌≡◌, refl, sym, ap, ◌∙◌, Bool, true, false, ◌||◌, Option, none, some, List, [],
  ◌∷◌, arith, length, length-append, find_first, find_first-append_some, find_first-append_none,
  if◌then◌else◌, inl, inr, Bool-cases,
}
use eve_station_trader.Ingest.Rows.{
  Region, System, Station, Location, StationSeed, Fetched, found, status_error, Places, Result,
  done, raise, find_region, find_system, find_location,
}
use eve_station_trader.Ingest.Stations.{
  first_structure, or_id, station_location, with_station, clashes, in_region, add_station,
  fetched_station, ensured, ensure_station_location,
}

-- The answers for which a station is passed over.
unfoldable pub is_missing : Fetched → Bool
is_missing (found seed) = false
is_missing (status_error code) = code == 400 || code == 404

-- fetch_station answers with the station that is asked for.
abbrev pub IsHonest : (ℕ → Fetched) → Type 0
IsHonest universe = (n : ℕ) (seed : StationSeed) → universe n ≡ found seed → seed.station_id ≡ n

module _ (universe : ℕ → Fetched) where
  unfoldable pub refuses : ℕ → Bool
  unfolding is_missing
  refuses n = leb first_structure n || is_missing (universe n)

  -- Locations are only added, and none for an id that is refused.
  pub record Grows (p q : Places) : Type 0 where
    pub items : q.items ≡ p.items
    pub regions : q.regions ≡ p.regions
    pub systems : q.systems ≡ p.systems
    pub keeps : (n : ℕ) (l : Location) → find_location n p ≡ some l → find_location n q ≡ some l
    pub absent : (n : ℕ) → refuses n ≡ true → find_location n p ≡ none → find_location n q ≡ none

  pub Grows-self : (p : Places) → Grows p p
  Grows-self p = record {
    items = refl;
    regions = refl;
    systems = refl;
    keeps = λ n l h. h;
    absent = λ n r h. h;
  }

  pub Grows-trans : (p q r : Places) → Grows p q → Grows q r → Grows p r
  Grows-trans p q r g h = record {
    items = h.items ∙ g.items;
    regions = h.regions ∙ g.regions;
    systems = h.systems ∙ g.systems;
    keeps = λ n l e. h.keeps n l (g.keeps n l e);
    absent = λ n e f. h.absent n e (g.absent n e f);
  }

  -- The call for station `n` gives what the table then has for it, and a new row exactly if it says so.
  pub record IsEnsured (n : ℕ) (p : Places) (o : Option Location) (created : Bool) (q : Places)
      : Type 0 where
    pub grows : Grows p q
    pub located : find_location n q ≡ o
    pub refused : o ≡ none → (refuses n ≡ true) × (created ≡ false)
    pub counted : length q.locations ≡ length p.locations + (if created then 1 else 0)

  abbrev pub Ensures : ℕ → Places → Result (Option Location × Bool × Places) → Type 0
  Ensures n p (done (o, created, q)) = IsEnsured n p o created q
  Ensures n p (raise e) = Unit

  -- One more location, with the id `n` that had none.
  added-IsEnsured :
      (eve_region_id n : ℕ) (l : Location) (stations : List Station) (p : Places)
      → l.location_id ≡ n
      → refuses n ≡ false
      → find_location n p ≡ none
      → (o : Option Region) → Ensures n p (in_region eve_region_id n l stations o p)
  unfolding in_region
  added-IsEnsured eve_region_id n l stations p e f h none = tt
  added-IsEnsured eve_region_id n l stations p e f h (some region) =
      let l' : Location = record l { region_id = region.id } in
      record {
        grows = record {
          items = refl;
          regions = refl;
          systems = refl;
          keeps =
              λ k a g. find_first-append_some (λ l. l.location_id == k) p.locations (l' ∷ []) a g;
          absent = λ k r g.
              find_first-append_none (λ l. l.location_id == k) p.locations (l' ∷ []) g
              ∙ other k l' (ne k r);
        };
        located =
            find_first-append_none (λ l. l.location_id == n) p.locations (l' ∷ []) h ∙ self l' e;
        refused = λ c. absurd (clash l' c);
        counted = omega (arith, length-append p.locations (l' ∷ []));
      }
    where
      ne : (k : ℕ) → refuses k ≡ true → (l.location_id == k) ≡ false
      ne k r = elim (Bool-cases (l.location_id == k)) [
        | inr d ↦ d
        | inl d ↦ let m : n ≡ k = ground arith in absurd (both (sym f ∙ ap refuses m ∙ r))
      ]
        where
          both : ◌≡◌ {A = Bool} false true → ⊥
          both c = cc

      other :
          (k : ℕ) (a : Location)
          → (a.location_id == k) ≡ false
          → find_first (λ (l : Location). l.location_id == k) (a ∷ []) ≡ none
      other k a d = rw d

      self :
          (a : Location)
          → a.location_id ≡ n
          → find_first (λ (l : Location). l.location_id == n) (a ∷ []) ≡ some a
      self a d = ground arith

      clash : (a : Location) → some a ≡ none → ⊥
      clash a c = cc

  same-IsEnsured :
      (n : ℕ) (p : Places) (o : Option Location)
      → find_location n p ≡ o
      → (o ≡ none → refuses n ≡ true)
      → IsEnsured n p o false p
  same-IsEnsured n p o h r = record {
    grows = Grows-self p;
    located = h;
    refused = λ c. (r c, refl);
    counted = omega arith;
  }

  add_station-IsEnsured :
      (eve_region_id n target : ℕ) (seed : StationSeed) (p : Places)
      → seed.station_id ≡ n
      → refuses n ≡ false
      → find_location n p ≡ none
      → (o : Option System) → Ensures n p (add_station eve_region_id n target seed o p)
  unfolding add_station station_location
  add_station-IsEnsured eve_region_id n target seed p e f h none = tt
  add_station-IsEnsured eve_region_id n target seed p e f h (some system) =
      elim (Bool-cases (clashes n seed p)) [
        | inl c ↦ rw c tt
        | inr c ↦ rw c (
            added-IsEnsured eve_region_id n (station_location seed system p)
              (with_station n seed system p.stations) p e f h (find_region eve_region_id p))
      ]

  fetched_station-IsEnsured :
      (eve_region_id n system_id : ℕ) (p : Places)
      → IsHonest universe
      → leb first_structure n ≡ false
      → find_location n p ≡ none
      → (answer : Fetched) → universe n ≡ answer
      → Ensures n p (fetched_station eve_region_id n system_id answer p)
  unfolding fetched_station refuses
  fetched_station-IsEnsured eve_region_id n system_id p honest s h (found seed) u =
      let target = or_id seed.system_id system_id in
      let r : refuses n ≡ false = rw (s, u) refl in
      add_station-IsEnsured eve_region_id n target seed p (honest n seed u) r h
        (find_system target p)
  fetched_station-IsEnsured eve_region_id n system_id p honest s h (status_error code) u =
      elim (Bool-cases (code == 400 || code == 404)) [
        | inl c ↦
            let r : refuses n ≡ true = rw (s, u) c in rw c (same-IsEnsured n p none h (λ _. r))
        | inr c ↦ rw c tt
      ]

  ensured-IsEnsured :
      (eve_region_id n system_id : ℕ) (p : Places)
      → IsHonest universe
      → (o : Option Location) → find_location n p ≡ o
      → Ensures n p (ensured universe eve_region_id n system_id o p)
  unfolding ensured refuses
  ensured-IsEnsured eve_region_id n system_id p honest (some l) h =
      same-IsEnsured n p (some l) h (λ c. absurd (clash c))
    where
      clash : some l ≡ none → ⊥
      clash c = cc
  ensured-IsEnsured eve_region_id n system_id p honest none h =
      elim (Bool-cases (leb first_structure n)) [
        | inl s ↦ let r : refuses n ≡ true = rw s refl in rw s (same-IsEnsured n p none h (λ _. r))
        | inr s ↦
            rw s
              (fetched_station-IsEnsured eve_region_id n system_id p honest s h (universe n) refl)
      ]

  -- Whatever a call returns is the table's row for the station, if the client is honest.
  pub ensure_station_location-IsEnsured :
      (eve_region_id n system_id : ℕ) (p : Places)
      → IsHonest universe
      → Ensures n p (ensure_station_location universe eve_region_id n system_id p)
  unfolding ensure_station_location
  ensure_station_location-IsEnsured eve_region_id n system_id p honest =
      ensured-IsEnsured eve_region_id n system_id p honest (find_location n p) refl
