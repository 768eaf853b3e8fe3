-- ===== src/Validator/JudgePool/Candidates.antt =====
-- The judges that `candidates` offers for a probe.
use flx.Base.{
  ℕ, zero, suc, ◌+◌, ◌%◌, ◌^◌, ◌≤◌, ◌<◌, ◌≡◌, refl, ap, sym, ◌∙◌, Bool, true, false, ◌&&◌, List, [],
  ◌∷◌, if◌then◌else◌, nat_eq, ltb, leb, length, filter, any, arith, get_elem?, get_elem?-of_lt, inl,
  inr, Bool-cases, some, none, Option,
}
use flx.Base.Outcome.{Outcome, returned, ◌>>=◌, index}
use flx.Filters.Ordered.{count, count-sort_by}
use flx.Filters.Sort.{sort_by, insert_by}
use flx.Validator.JudgePool.{Judge, JudgePool, is_healthy, key, by_key, fallback, candidates}
use native.Mathlib.Nat.{mod-lt}

module _ {T : Type 0} where
  -- The keys do not fall.
  abbrev pub is_sorted : List (Judge T) → Bool
  is_sorted [] = true
  is_sorted (a ∷ []) = true
  is_sorted (a ∷ b ∷ rest) = leb (key a) (key b) && is_sorted (b ∷ rest)

  insert-is_sorted :
      (j : Judge T) (xs : List (Judge T))
      → is_sorted xs ≡ true
      → is_sorted (insert_by by_key j xs) ≡ true
  unfolding insert_by
  insert-is_sorted j [] h = refl
  insert-is_sorted j (a ∷ []) h = ground arith
  insert-is_sorted j (a ∷ b ∷ rest) h = ground (arith, insert-is_sorted j (b ∷ rest))

  sort-is_sorted : (xs : List (Judge T)) → is_sorted (sort_by by_key xs) ≡ true
  unfolding sort_by
  sort-is_sorted [] = refl
  sort-is_sorted (j ∷ xs) = insert-is_sorted j (sort_by by_key xs) (sort-is_sorted xs)

  count-filter :
      (p : Judge T → Bool) (now : ℕ) (xs : List (Judge T))
      → count p (filter (is_healthy now) xs) ≤ count p xs
  count-filter p now [] = omega arith
  count-filter p now (x ∷ xs) = ground (arith, count-filter p now xs)

  abbrev one_of : (Judge T → Bool) → Option (Judge T) → ℕ
  one_of p none = 0
  one_of p (some j) = if p j then 1 else 0

  count-of_get :
      (p : Judge T → Bool) (xs : List (Judge T)) (i : ℕ) (j : Judge T)
      → get_elem? xs i ≡ some j
      → count p (j ∷ []) ≤ count p xs
  count-of_get p [] i j h = absurd (ground (arith, h))
  count-of_get p (x ∷ xs) zero j h = ground (arith, ap (one_of p) h)
  count-of_get p (x ∷ xs) (suc i) j h = ground (arith, count-of_get p xs i j h)

  -- What a call offers: judges of the pool, in the order of their keys; the healthy ones if there are
  -- any, and else one judge of the pool if it has one.
  pub record IsOffer (now : ℕ) (judges out : List (Judge T)) : Type 0 where
    pub sorted : is_sorted out ≡ true
    pub healthy :
        any (is_healthy now) judges ≡ true
        → (p : Judge T → Bool) → count p out ≡ count p (filter (is_healthy now) judges)
    pub one :
        any (is_healthy now) judges ≡ false
        → length out ≡ (if nat_eq (length judges) 0 then 0 else 1)
    pub of_pool : (p : Judge T → Bool) → count p out ≤ count p judges

  -- Whether a judge is healthy, and how many are.
  any-filter :
      (now : ℕ) (xs : List (Judge T))
      → any (is_healthy now) xs ≡ ltb 0 (length (filter (is_healthy now) xs))
  any-filter now [] = refl
  any-filter now (x ∷ xs) = ground (arith, any-filter now xs)

  pub Offers : ℕ → JudgePool T → Outcome (List (Judge T) × JudgePool T) → Type 0
  Offers now pool o =
      (out : List (Judge T)) × ((pool' : JudgePool T) × ((o ≡ returned (out, pool'))
          × ((pool'.judges ≡ pool.judges) × IsOffer now pool.judges out)))

  healthy_lem :
      (now : ℕ) (judges : List (Judge T)) (j : Judge T) (rest : List (Judge T))
      → filter (is_healthy now) judges ≡ j ∷ rest
      → IsOffer now judges (sort_by by_key (j ∷ rest))
  healthy_lem now judges j rest e = record {
    sorted = sort-is_sorted (j ∷ rest);
    healthy = λ h p. count-sort_by p by_key (j ∷ rest) ∙ ap (count p) (sym e);
    one = λ h. absurd (ground (arith, h, any-filter now judges, ap length e));
    of_pool = λ p.
        omega (arith, count-sort_by p by_key (j ∷ rest), ap (count p) e, count-filter p now judges);
  }

  one_lem :
      (now : ℕ) (judges : List (Judge T)) (i : ℕ) (j : Judge T)
      → filter (is_healthy now) judges ≡ []
      → get_elem? judges i ≡ some j
      → nat_eq (length judges) 0 ≡ false
      → IsOffer now judges (j ∷ [])
  one_lem now judges i j e at many = record {
    sorted = refl;
    healthy = λ h. absurd (ground (arith, h, any-filter now judges, ap length e));
    one = λ h. ground (arith, many);
    of_pool = λ p. count-of_get p judges i j at;
  }

  none_lem :
      (now : ℕ) (judges : List (Judge T))
      → filter (is_healthy now) judges ≡ []
      → nat_eq (length judges) 0 ≡ true
      → IsOffer now judges []
  none_lem now judges e empty = record {
    sorted = refl;
    healthy = λ h. absurd (ground (arith, h, any-filter now judges, ap length e));
    one = λ h. ground (arith, empty);
    of_pool = λ p. omega arith;
  }

  offer_lem :
      (now : ℕ) (pool : JudgePool T) (healthy : List (Judge T))
      → filter (is_healthy now) pool.judges ≡ healthy
      → Offers now pool
          (fallback healthy pool >>= λ found. returned (sort_by by_key found.0, found.1))
  unfolding Offers fallback sort_by insert_by index
  offer_lem now pool (j ∷ rest) e =
      (sort_by by_key (j ∷ rest), (pool, (refl, (refl, healthy_lem now pool.judges j rest e))))
  offer_lem now pool [] e = elim (Bool-cases (nat_eq (length pool.judges) 0)) [
    | inl k ↦ ([], (pool, (rw k refl, (refl, none_lem now pool.judges e k))))
    | inr k ↦
        let i = pool.cursor % length pool.judges in
        let some_judge : 0 < length pool.judges = ground (arith, k) in
        let (j, at) = get_elem?-of_lt pool.judges i (mod-lt pool.cursor some_judge) in
        let pool' = record pool { cursor = (pool.cursor + 1) % 2 ^ 64 } in
        (j ∷ [], (pool', (rw (k, at) refl, (refl, one_lem now pool.judges i j e at k))))
  ]

  -- At every time `candidates` returns and keeps the judges. It offers judges of the pool only, in the
  -- order of their average times with the unmeasured last: exactly the healthy ones if there are any,
  -- and else one judge, unless the pool is empty.
  pub candidates_lem : (now : ℕ) (pool : JudgePool T) → Offers now pool (candidates now pool)
  unfolding candidates
  candidates_lem now pool = offer_lem now pool (filter (is_healthy now) pool.judges) refl
