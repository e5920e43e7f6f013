-- ===== src/Scheduler/Keys.antt =====
-- The dicts by job type of backend/app/workers/tasks/sync_tasks.py (proofs).
use eve_station_trader.Prelude.{
  ◌≡◌, refl, sym, ◌∙◌, Bool, true, false, Option, none, some, List, [], ◌∷◌, String, str_eq, eq_iff,
  if◌then◌else◌, Bool-cases, inl, inr, delete,
}
use eve_station_trader.Scheduler.Schedule.{get_key, put_key}

apart : (j i k : String) → str_eq j k ≡ false → str_eq j i ≡ true → str_eq k i ≡ false
apart j i k e h = elim (Bool-cases (str_eq k i)) [
  | inl g ↦ let same = (eq_iff j k).1 ((eq_iff j i).0 h ∙ sym ((eq_iff k i).0 g)) in cc
  | inr g ↦ g
]

module _ {V : Type 0} where
  -- What is found after a key was set.
  pub get_key-put_key :
      (k i : String) (v : V) (m : List (String × V))
      → get_key i (put_key k v m) ≡ (if str_eq k i then some v else get_key i m)
  unfolding get_key put_key
  get_key-put_key k i v [] = refl
  get_key-put_key k i v ((j, w) ∷ m) = elim (Bool-cases (str_eq j k)) [
    | inl e ↦ rw (e, (eq_iff j k).0 e) (twice (str_eq k i))
    | inr e ↦ elim (Bool-cases (str_eq j i)) [
      | inl g ↦ rw (e, g, apart j i k e g) refl
      | inr g ↦ rw (e, g) (get_key-put_key k i v m)
    ]
  ]
    where
      twice :
          (b : Bool)
          → (if b then some v else get_key i m)
            ≡ (if b then some v else if b then some w else get_key i m)
      twice true = refl
      twice false = refl

  -- What is found after a key was removed.
  pub get_key-delete :
      (k i : String) (m : List (String × V))
      → get_key i (delete (λ e. str_eq e.0 k) m) ≡ (if str_eq k i then none else get_key i m)
  unfolding get_key
  get_key-delete k i [] = gone (str_eq k i)
    where
      gone : (b : Bool) → ◌≡◌ {A = Option V} none (if b then none else none)
      gone true = refl
      gone false = refl
  get_key-delete k i ((j, w) ∷ m) = elim (Bool-cases (str_eq j k)) [
    | inl e ↦ rw (e, get_key-delete k i m, (eq_iff j k).0 e) (still (str_eq k i))
    | inr e ↦ elim (Bool-cases (str_eq j i)) [
      | inl g ↦ rw (e, g, apart j i k e g) refl
      | inr g ↦ rw (e, g) (get_key-delete k i m)
    ]
  ]
    where
      still :
          (b : Bool)
          → (if b then none else get_key i m)
            ≡ (if b then none else if b then some w else get_key i m)
      still true = refl
      still false = refl
