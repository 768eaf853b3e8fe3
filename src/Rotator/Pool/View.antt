-- ===== src/Rotator/Pool/View.antt =====
-- What the pool knows of each endpoint: a map from its text to its entry. The order of the entries,
-- which `swap_remove` changes, is forgotten.
use flx.Base.{
  ◌+◌, length, leb, ltb, not, ◌&&◌, is_some, ℕ, ◌≡◌, refl, [], ◌∷◌, Option, none, some,
  if◌then◌else◌, arith, list_eq, list_eq_iff, ℕ_eq, get_elem?,
}
use flx.Base.Bytes.{Bytes}
use flx.Base.Outcome.{index, Outcome, returned}
use flx.Rotator.Pool.{
  fresh, failed, max_pool_size, fail_at, max_consecutive_failures, healthy, RotatorPool, add,
  report_success, report_failure, PoolEntry, position,
}
use flx.Rotator.Pool.Find.{
  find-update_first, find, text_of, IsDistinct, map_entry, find-append, any-eq-find, find-set,
  find-swap_remove, Positioned, position_lem,
}

module _ {P : Type 0} (as_text : P → Bytes) where
  -- `add` takes a proxy exactly when the pool is below its cap and has no proxy of the same text, and
  -- answers whether it did. A proxy that it takes is found with no failure and no cooldown; of every
  -- other text, and if the proxy is not taken, the pool finds what it found.
  pub find-add :
      (p : P) (pool : RotatorPool as_text) (u : Bytes)
      → ((add as_text p pool).1 ≡ (
          ltb (length pool.entries) max_pool_size
          && not (is_some (find as_text (as_text p) pool.entries))))
        × (find as_text u (add as_text p pool).0.entries ≡ (
            if (add as_text p pool).1 && list_eq (as_text p) u
            then some (fresh as_text p)
            else find as_text u pool.entries))
  unfolding add
  find-add p pool u = (
    ground (arith, any-eq-find as_text (as_text p) pool.entries),
    ground (
      arith,
      any-eq-find as_text (as_text p) pool.entries,
      find-append as_text u pool.entries (fresh as_text p ∷ []),
      find_fresh,
      list_eq_iff (as_text p) u,
    ),
  )
    where
      find_fresh :
          find as_text u (fresh as_text p ∷ [])
          ≡ (if list_eq (as_text p) u then some (fresh as_text p) else none)
      find_fresh = unfold find in refl

  -- After `report_success` the proxy's entry, if the pool has one, counts no failure and does not cool
  -- down; every other text finds what it found.
  pub find-report_success :
      (p : P) (pool : RotatorPool as_text) (u : Bytes)
      → find as_text u (report_success as_text p pool).entries ≡ (
          if list_eq (as_text p) u
          then map_entry as_text (healthy as_text) (find as_text (as_text p) pool.entries)
          else find as_text u pool.entries)
  unfolding report_success
  find-report_success p pool u =
      find-update_first as_text (healthy as_text) (λ e. refl) (as_text p) u pool.entries

  abbrev pub after_failure : ℕ → Option (PoolEntry as_text) → Option (PoolEntry as_text)
  after_failure now none = none
  after_failure now (some e) =
      if leb max_consecutive_failures (e.failures + 1) then none else some (failed as_text now e)

  find-fail_at :
      (now : ℕ) (pool : RotatorPool as_text) (i : ℕ) (e : PoolEntry as_text) (u : Bytes)
      → get_elem? pool.entries i ≡ some e
      → IsDistinct as_text pool.entries
      → find as_text u (fail_at as_text now pool i e).entries ≡ (
          if list_eq (text_of as_text e) u
          then after_failure now (some e)
          else find as_text u pool.entries)
  find-fail_at now pool i e u h d = ground (
    arith,
    find-swap_remove as_text pool.entries i e u h d,
    find-set as_text pool.entries i e (failed as_text now e) u h d refl,
  )

  abbrev Fails : ℕ → P → RotatorPool as_text → Outcome (RotatorPool as_text) → Type 0
  Fails now p pool out =
      (pool' : RotatorPool as_text) × (out ≡ returned pool')
      × ((u : Bytes)
          → find as_text u pool'.entries ≡ (
              if list_eq (as_text p) u
              then after_failure now (find as_text (as_text p) pool.entries)
              else find as_text u pool.entries))

  report_failure_at :
      (now : ℕ) (p : P) (pool : RotatorPool as_text) (o : Option ℕ)
      → position as_text (as_text p) pool.entries ≡ o
      → Positioned as_text (as_text p) pool.entries o
      → IsDistinct as_text pool.entries
      → Fails now p pool (report_failure as_text now p pool)
  unfolding report_failure index
  report_failure_at now p pool none e h d =
      (pool, rw (e, report_failure), λ u. ground (arith, h, list_eq_iff (as_text p) u))
  report_failure_at now p pool (some i) e (x, hx, fx, tx) d = (
    fail_at as_text now pool i x,
    rw (e, report_failure, hx),
    λ u. rw (find-fail_at now pool i x u hx d, fx, tx),
  )

  -- On a pool of distinct texts `report_failure` does not panic. It counts one more failure of the
  -- proxy's entry, if the pool has one, and cools it down for `COOLDOWN` from now; at the third failure
  -- in a row the entry goes. Every other text finds what it found, though `swap_remove` moves entries.
  pub find-report_failure :
      (now : ℕ) (p : P) (pool : RotatorPool as_text)
      → IsDistinct as_text pool.entries
      → (pool' : RotatorPool as_text) × (report_failure as_text now p pool ≡ returned pool')
        × ((u : Bytes)
            → find as_text u pool'.entries ≡ (
                if list_eq (as_text p) u
                then after_failure now (find as_text (as_text p) pool.entries)
                else find as_text u pool.entries))
  find-report_failure now p pool d =
      report_failure_at now p pool (position as_text (as_text p) pool.entries) refl
        (position_lem as_text (as_text p) pool.entries) d
