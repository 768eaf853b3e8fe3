-- ===== src/Rotator/Pool/Pick.antt =====
-- `pick`: which entry it returns, and how round robin goes round.
use flx.Base.{
  ◌∙◌, ◌-◌, leb, ℕ, zero, suc, ◌+◌, ◌%◌, ◌<◌, ◌≤◌, ◌≡◌, refl, ap, true, false, List, Option, none,
  some, arith, length, Bool-cases, inl, inr, nat_eq, get_elem?, get_elem?-of_lt,
}
use native.Mathlib.Nat.{mod-eq_of_lt}
use flx.Base.Bytes.{Bytes}
use flx.Base.Outcome.{returned, index, index_result}
use flx.Rotator.Pool.{
  random, round_robin, Strategy, RotatorPool, start_of, pick, PoolEntry, is_available,
  find_available,
}

module _ {P : Type 0} (as_text : P → Bytes) where
  -- The entry `k` places after `start`, going round.
  abbrev pub At : List (PoolEntry as_text) → ℕ → ℕ → PoolEntry as_text → Type 0
  At entries start k e = get_elem? entries ((start + k) % length entries) ≡ some e

  abbrev pub AllCooling : ℕ → List (PoolEntry as_text) → ℕ → ℕ → ℕ → Type 0
  AllCooling now entries start lo hi =
      (k : ℕ)
      → lo ≤ k
      → k < hi
      → (e : PoolEntry as_text) → At entries start k e
      → is_available as_text now e ≡ false

  -- The first available entry from the `lo`-th place to before the `hi`-th, or that there is none.
  abbrev pub First : ℕ → List (PoolEntry as_text) → ℕ → ℕ → ℕ → Option P → Type 0
  First now entries start lo hi none = AllCooling now entries start lo hi
  First now entries start lo hi (some p) =
      (k : ℕ) × (e : PoolEntry as_text) × (lo ≤ k)
      × (k < hi)
      × At entries start k e
      × (is_available as_text now e ≡ true)
      × (e.proxy ≡ p)
      × AllCooling now entries start lo k

  module _ (now : ℕ) (entries : List (PoolEntry as_text)) (start : ℕ) where
    cooling_from :
        (lo hi : ℕ) (e : PoolEntry as_text)
        → At entries start lo e
        → is_available as_text now e ≡ false
        → AllCooling now entries start (lo + 1) hi
        → AllCooling now entries start lo hi
    cooling_from lo hi e at off rest k lo-le lt x atx = elim (Bool-cases (nat_eq k lo)) [
      | inl same ↦ let q : k ≡ lo = ground arith in ground (arith, q, at, atx, off)
      | inr after ↦ rest k (ground arith) lt x atx
    ]

    First-next :
        (lo left : ℕ) (e : PoolEntry as_text) (o : Option P)
        → At entries start lo e
        → is_available as_text now e ≡ false
        → First now entries start (lo + 1) (lo + 1 + left) o
        → First now entries start lo (lo + suc left) o
    First-next lo left e none at off h =
        cooling_from lo (lo + suc left) e at off (λ k a b x ax. h k a (omega arith) x ax)
    First-next lo left e (some p) at off (k, x, a, b, ax, on, px, cold) =
        (k, x, omega arith, omega arith, ax, on, px, cooling_from lo k e at off cold)

    abbrev Finds : ℕ → ℕ → Type 0
    Finds left lo =
        (o : Option P) × (find_available as_text now entries start (length entries) left lo
          ≡ returned o)
        × First now entries start lo (lo + left) o

    find_available_step :
        (left lo : ℕ) (e : PoolEntry as_text)
        → At entries start lo e
        → Finds left (lo + 1)
        → Finds (suc left) lo
    unfolding find_available
    find_available_step left lo e at (o, eo, f) =
        let ei : index entries ((start + lo) % length entries) ≡ returned e =
          unfold index in ap index_result at in
        elim (Bool-cases (is_available as_text now e)) [
          | inl on ↦ (
            some e.proxy,
            rw ei (ground (arith, on)),
            (lo, e, omega arith, omega arith, at, on, refl, λ k a b x ax. absurd (omega arith)),
          )
          | inr off ↦ (o, rw ei (ground (arith, off, eo)), First-next lo left e o at off f)
        ]

    find_available_lem : (left lo : ℕ) → 0 < length entries → Finds left lo
    unfolding find_available
    find_available_lem zero lo h = (none, refl, λ k a b x ax. absurd (omega arith))
    find_available_lem (suc left) lo h =
        let (e, at) = get_elem?-of_lt entries ((start + lo) % length entries) (omega arith) in
        find_available_step left lo e at (find_available_lem left (lo + 1) h)

    -- Going round from `start` meets every entry.
    reach :
        (i : ℕ)
        → start < length entries
        → i < length entries
        → (k : ℕ) × (k < length entries) × ((start + k) % length entries ≡ i)
    reach i s h = elim (Bool-cases (leb start i)) [
      | inl up ↦
          let le : start ≤ i = ground arith in
          (
            i - start,
            omega arith,
            ap (λ x. x % length entries) (omega arith)
                ∙ mod-eq_of_lt {n = i} {m = length entries} h,
          )
      | inr down ↦
          let lt : i < start = ground arith in
          (
            i + length entries - start,
            omega arith,
            ap (λ x. x % length entries) (omega arith) ∙ wrap,
          )
    ]
      where
        wrap : (i + length entries) % length entries ≡ i
        wrap = grind arith

    all_cooling :
        start < length entries
        → AllCooling now entries start 0 (length entries)
        → (i : ℕ) (e : PoolEntry as_text) → get_elem? entries i ≡ some e
        → i < length entries
        → is_available as_text now e ≡ false
    all_cooling s h i e at lt = let (k, lk, ek) = reach i s lt in h k (omega arith) lk e (rw ek at)

  start_lt :
      (chance : ℕ) (pool : RotatorPool as_text) (s : Strategy)
      → 0 < length pool.entries
      → (start_of as_text chance pool s).0 < length pool.entries
  unfolding start_of
  start_lt chance pool random h = omega arith
  start_lt chance pool round_robin h = omega arith

  start_keeps :
      (chance : ℕ) (pool : RotatorPool as_text) (s : Strategy)
      → (start_of as_text chance pool s).1.entries ≡ pool.entries
  unfolding start_of
  start_keeps chance pool random = refl
  start_keeps chance pool round_robin = refl

  -- What a pick may return: no proxy, and no entry is available; or the proxy of an available entry,
  -- the first such entry going round from the place where the strategy starts.
  abbrev pub IsPicked : ℕ → ℕ → RotatorPool as_text → Option P → Type 0
  IsPicked now chance pool none =
      (i : ℕ) (e : PoolEntry as_text)
      → get_elem? pool.entries i ≡ some e
      → i < length pool.entries
      → is_available as_text now e ≡ false
  IsPicked now chance pool (some p) =
      First now pool.entries (start_of as_text chance pool pool.strategy).0 0 (length pool.entries)
        (some p)

  First-IsPicked :
      (now chance : ℕ) (pool : RotatorPool as_text) (o : Option P)
      → 0 < length pool.entries
      → First now pool.entries
          (start_of as_text chance pool pool.strategy).0
          0
          (0 + length pool.entries)
          o
      → IsPicked now chance pool o
  First-IsPicked now chance pool none h f =
      all_cooling now pool.entries (start_of as_text chance pool pool.strategy).0
        (start_lt chance pool pool.strategy h) (λ k a b x ax. f k a (omega arith) x ax)
  First-IsPicked now chance pool (some p) h (k, e, a, b, at, on, px, cold) =
      (k, e, a, omega arith, at, on, px, cold)

  -- `pick` never indexes out of bounds, and leaves the entries alone. It returns `None` only if every
  -- entry cools down, and otherwise the proxy of the first available entry going round from the start
  -- that the strategy chose.
  pub pick_lem :
      (now chance : ℕ) (pool : RotatorPool as_text)
      → (o : Option P) × (pool' : RotatorPool as_text) × (pick as_text now chance pool
          ≡ returned (o, pool'))
        × (pool'.entries ≡ pool.entries)
        × IsPicked now chance pool o
  unfolding pick
  pick_lem now chance pool = elim (Bool-cases (nat_eq (length pool.entries) 0)) [
    | inl empty ↦ (none, pool, rw empty, refl, λ i e at lt. absurd (ground arith))
    | inr some_entry ↦
        let n : 0 < length pool.entries = ground arith in
        let found = start_of as_text chance pool pool.strategy in
        let (o, eo, f) = find_available_lem now pool.entries found.0 (length pool.entries) 0 n in
        (
          o,
          found.1,
          rw (some_entry, eo),
          start_keeps chance pool pool.strategy,
          First-IsPicked now chance pool o n f,
        )
  ]
