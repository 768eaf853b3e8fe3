-- ===== src/Rotator/Pool/Invariant.antt =====
-- The invariant of the pool, kept by each of its methods.
use flx.Base.{
  ℕ_eq, ℕ, ◌+◌, ◌≤◌, ◌≡◌, refl, List, [], ◌∷◌, Option, none, some, arith, length, list_eq_iff, any,
  length-append, length-set, Bool-cases, inl, inr, leb, get_elem?,
}
use flx.Base.Bytes.{Bytes}
use flx.Base.Outcome.{returned, index}
use flx.Rotator.Pool.{
  PoolEntry, RotatorPool, Strategy, has_text, fresh, new, add, update_first, healthy,
  report_success, position, failed, fail_at, report_failure, max_pool_size,
  max_consecutive_failures,
}
use flx.Rotator.Pool.Find.{text_of, IsDistinct, Positioned, position_lem, any-eq-find}
use flx.Rotator.Pool.Find.{find-update_first}
use flx.Rotator.Pool.Entries.{
  AllBelow, AllBelow-snoc, IsDistinct-snoc, set-AllBelow, set-IsDistinct, swap_remove-IsDistinct,
  swap_remove-AllBelow, length-swap_remove,
}

module _ {P : Type 0} (as_text : P → Bytes) where
  pub record IsValid (pool : RotatorPool as_text) : Type 0 where
    pub bound : length pool.entries ≤ max_pool_size
    pub distinct : IsDistinct as_text pool.entries
    pub below : AllBelow as_text pool.entries

  pub new-IsValid : (s : Strategy) → IsValid (new as_text s)
  unfolding new
  new-IsValid s = record { bound = omega arith; distinct = tt; below = tt }

  -- `add` keeps the invariant.
  add-IsValid : (p : P) (pool : RotatorPool as_text) → IsValid pool → IsValid (add as_text p pool).0
  unfolding add
  add-IsValid p pool v = elim (Bool-cases (leb max_pool_size (length pool.entries))) [
    | inl full ↦ rw full v
    | inr room ↦ elim (Bool-cases (any (has_text as_text (as_text p)) pool.entries)) [
      | inl known ↦ rw (room, known) v
      | inr new ↦
          rw (room, new)
            (record {
              bound = ground (arith, length-append pool.entries (fresh as_text p ∷ []));
              distinct =
                  IsDistinct-snoc as_text pool.entries (fresh as_text p) v.distinct
                    (ground (arith, any-eq-find as_text (as_text p) pool.entries));
              below = AllBelow-snoc as_text pool.entries (fresh as_text p) v.below (omega arith);
            })
    ]
  ]

  length-update_first :
      (t : Bytes) (g : PoolEntry as_text → PoolEntry as_text) (xs : List (PoolEntry as_text))
      → length (update_first as_text t g xs) ≡ length xs
  unfolding update_first
  length-update_first t g [] = refl
  length-update_first t g (x ∷ xs) = ground (arith, length-update_first t g xs)

  success-IsDistinct :
      (t : Bytes) (xs : List (PoolEntry as_text))
      → IsDistinct as_text xs
      → IsDistinct as_text (update_first as_text t (healthy as_text) xs)
  unfolding update_first
  success-IsDistinct t [] d = tt
  success-IsDistinct t (x ∷ xs) d = elim (Bool-cases (has_text as_text t x)) [
    | inl here ↦ rw here d
    | inr later ↦ rw later (
      ground (
        arith,
        find-update_first as_text (healthy as_text) (λ e. refl) t (text_of as_text x) xs,
        d.0,
        list_eq_iff t (text_of as_text x),
        list_eq_iff (text_of as_text x) t,
      ),
      success-IsDistinct t xs d.1,
    )
  ]

  success-AllBelow :
      (t : Bytes) (xs : List (PoolEntry as_text))
      → AllBelow as_text xs
      → AllBelow as_text (update_first as_text t (healthy as_text) xs)
  unfolding update_first
  success-AllBelow t [] d = tt
  success-AllBelow t (x ∷ xs) d = elim (Bool-cases (has_text as_text t x)) [
    | inl here ↦ rw here (omega arith, d.1)
    | inr later ↦ rw later (d.0, success-AllBelow t xs d.1)
  ]

  report_success-IsValid :
      (p : P) (pool : RotatorPool as_text) → IsValid pool → IsValid (report_success as_text p pool)
  unfolding report_success
  report_success-IsValid p pool v = record {
    bound = omega (arith, v.bound, length-update_first (as_text p) (healthy as_text) pool.entries);
    distinct = success-IsDistinct (as_text p) pool.entries v.distinct;
    below = success-AllBelow (as_text p) pool.entries v.below;
  }

  fail_at-IsValid :
      (now : ℕ) (pool : RotatorPool as_text) (i : ℕ) (e : PoolEntry as_text)
      → get_elem? pool.entries i ≡ some e
      → IsValid pool
      → IsValid (fail_at as_text now pool i e)
  fail_at-IsValid now pool i e h v =
      elim (Bool-cases (leb max_consecutive_failures (e.failures + 1))) [
        | inl dead ↦ rw dead (record {
          bound = omega (arith, v.bound, length-swap_remove as_text pool.entries i);
          distinct = swap_remove-IsDistinct as_text pool.entries i e h v.distinct;
          below = swap_remove-AllBelow as_text pool.entries i v.below;
        })
        | inr alive ↦ rw alive (record {
          bound = omega (arith, v.bound, length-set pool.entries i (failed as_text now e));
          distinct =
              set-IsDistinct as_text pool.entries i e (failed as_text now e) h refl v.distinct;
          below = set-AllBelow as_text pool.entries i (failed as_text now e) v.below (ground arith);
        })
      ]

  report_failure_at-IsValid :
      (now : ℕ) (p : P) (pool : RotatorPool as_text) (o : Option ℕ)
      → position as_text (as_text p) pool.entries ≡ o
      → Positioned as_text (as_text p) pool.entries o
      → IsValid pool
      → (pool' : RotatorPool as_text) × (report_failure as_text now p pool ≡ returned pool')
        × IsValid pool'
  unfolding report_failure index
  report_failure_at-IsValid now p pool none e h v = (pool, rw (e, report_failure), v)
  report_failure_at-IsValid now p pool (some i) e (x, hx, fx, tx) v =
      (fail_at as_text now pool i x, rw (e, report_failure, hx), fail_at-IsValid now pool i x hx v)

  -- The pool never holds more than `MAX_POOL_SIZE` entries, two entries of one text, or an entry that
  -- has failed `MAX_CONSECUTIVE_FAILURES` times in a row: `add`, `report_success` and `report_failure`
  -- keep this, and `report_failure` does not panic.
  pub methods-IsValid :
      (now : ℕ) (p : P) (pool : RotatorPool as_text)
      → IsValid pool
      → IsValid (add as_text p pool).0
        × IsValid (report_success as_text p pool)
        × ((pool' : RotatorPool as_text) × (report_failure as_text now p pool ≡ returned pool')
            × IsValid pool')
  methods-IsValid now p pool v = (
    add-IsValid p pool v,
    report_success-IsValid p pool v,
    report_failure_at-IsValid now p pool (position as_text (as_text p) pool.entries) refl
        (position_lem as_text (as_text p) pool.entries) v,
  )
