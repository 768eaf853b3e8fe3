-- ===== src/Validator/Groups/Missing.antt =====
-- The members of a group that have not reported, and the table of those that have.
use flx.Proxy.Float.{Float}
use flx.Base.{
  ap₂, [], inr, inl, refl, zero, Bool-cases, nat_eq, ◌+◌, none, suc, if◌then◌else◌, true, false,
  arith, some, set, ◌∷◌, ◌≡◌, replicate, ◌≤◌, leb, Option, get_elem?, length, ◌<◌, ℕ, List,
}
use flx.Validator.Groups.{group_key_eq_iff, group_key_eq, GroupKey, GroupWorkResult, Health}
use flx.Validator.Groups.History.{Message, result_of, table, reported, missing}
use flx.Proxy.Model.{Proxy}

module _ (f : Float) (health : Health f) (m : GroupWorkResult f) (past : List (Message f)) where
  abbrev next : List (Message f)
  next = (health, m) ∷ past

  -- A message of another group changes nothing for a group.
  pub missing_other :
      (k : GroupKey) (n : ℕ)
      → group_key_eq m.key k ≡ false
      → missing f k n next ≡ missing f k n past
  unfolding missing reported
  missing_other k zero h = refl
  missing_other k (suc n) h = ground (arith, missing_other k n h)

  -- The first report of a member is one less that is missing.
  above : (n : ℕ) → leb n m.slot ≡ true → missing f m.key n next ≡ missing f m.key n past
  unfolding missing reported
  above zero h = refl
  above (suc n) h = ground (arith, above n)

  pub missing_one :
      (n : ℕ)
      → m.slot < n
      → reported f m.key m.slot past ≡ false
      → missing f m.key n past ≡ missing f m.key n next + 1
  unfolding missing reported
  missing_one zero h fresh = absurd (omega arith)
  missing_one (suc n) h fresh = elim (Bool-cases (nat_eq n m.slot)) [
    | inl last ↦ ground (arith, last, fresh, above n, (group_key_eq_iff m.key m.key).1 refl)
    | inr before ↦ ground (arith, before, missing_one n (ground (arith, h, before)) fresh)
  ]

module _ (f : Float) where
  pub missing_bound : (k : GroupKey) (n : ℕ) (past : List (Message f)) → missing f k n past ≤ n
  unfolding missing
  missing_bound k zero past = omega arith
  missing_bound k (suc n) past = ground (arith, missing_bound k n past)

  pub missing_all :
      (k : GroupKey) (n : ℕ) (past : List (Message f)) (i : ℕ)
      → missing f k n past ≡ n
      → i < n
      → reported f k i past ≡ false
  unfolding missing
  missing_all k zero past i h b = absurd (omega arith)
  missing_all k (suc n) past i h b = elim (Bool-cases (nat_eq n i)) [
    | inl last ↦ ground (arith, last, h, missing_bound k n past)
    | inr before ↦ ground (arith, missing_all k n past i, before, h, b, missing_bound k n past)
  ]

  pub unreported :
      (k : GroupKey) (i : ℕ) (past : List (Message f))
      → reported f k i past ≡ false
      → result_of f k i past ≡ none
  unfolding reported result_of
  unreported k i [] h = refl
  unreported k i ((health, m) ∷ past) h = ground (arith, unreported k i past)

  -- A list that has the results at its places is the table.
  pub table_lem :
      (k : GroupKey) (past : List (Message f)) (n start : ℕ) (results : List (Option (Proxy f)))
      → length results ≡ n
      → ((i : ℕ) → i < n → get_elem? results i ≡ some (result_of f k (start + i) past))
      → results ≡ table f k start n past
  unfolding table
  table_lem k past zero start [] e h = refl
  table_lem k past zero start (r ∷ results) e h = absurd (omega (arith, e))
  table_lem k past (suc n) start [] e h = absurd (omega (arith, e))
  table_lem k past (suc n) start (r ∷ results) e h =
      let first : some r ≡ some (result_of f k (start + 0) past) = h 0 (omega arith) in
      let rest = table_lem k past n (start + 1) results (omega (arith, e)) (λ (i : ℕ) (b : i < n).
        let s : start + 1 + i ≡ start + suc i = omega arith in rw s (h (suc i) (omega arith))) in
      let z : start + 0 ≡ start = omega arith in ap₂ (λ a l. a ∷ l) (ground (arith, first, z)) rest

module _ {ℓ} {A : Type ℓ} where
  pub get_elem?-set :
      (xs : List A) (i j : ℕ) (v : A)
      → i < length xs
      → get_elem? (set xs i v) j ≡ (if nat_eq i j then some v else get_elem? xs j)
  get_elem?-set [] i j v h = absurd (omega arith)
  get_elem?-set (x ∷ xs) zero zero v h = refl
  get_elem?-set (x ∷ xs) zero (suc j) v h = ground arith
  get_elem?-set (x ∷ xs) (suc i) zero v h = ground arith
  get_elem?-set (x ∷ xs) (suc i) (suc j) v h = ground (arith, get_elem?-set xs i j v (omega arith))

  pub get_elem?-replicate : (n i : ℕ) (v : A) → i < n → get_elem? (replicate n v) i ≡ some v
  get_elem?-replicate zero i v h = absurd (omega arith)
  get_elem?-replicate (suc n) zero v h = refl
  get_elem?-replicate (suc n) (suc i) v h = get_elem?-replicate n i v (omega arith)

pub missing_none : (f : Float) (k : GroupKey) (n : ℕ) → missing f k n [] ≡ n
unfolding missing reported
missing_none f k zero = refl
missing_none f k (suc n) = omega (arith, missing_none f k n)
