-- ===== src/Rotator/Pool/Entries.antt =====
-- Appending, writing and removing an entry: the list facts that the invariant of the pool needs.
use flx.Base.{
  ap, ℕ_eq, ℕ, zero, suc, ◌<◌, ◌≤◌, ◌≡◌, refl, List, [], ◌∷◌, ◌++◌, none, some, arith, length,
  list_eq_iff, set, get_elem?,
}
use flx.Base.Bytes.{Bytes}
use flx.Rotator.Pool.{PoolEntry, split_last, swap_remove, max_consecutive_failures}
use flx.Rotator.Pool.Find.{
  find, text_of, IsDistinct, find-append, find-set, find-swap_remove, find-split_last, find_of_get,
}

module _ {P : Type 0} (as_text : P → Bytes) where
  -- An entry in the pool has failed fewer times in a row than evict it.
  abbrev pub AllBelow : List (PoolEntry as_text) → Type 0
  AllBelow [] = Unit
  AllBelow (e ∷ entries) = (e.failures < max_consecutive_failures) × AllBelow entries

  pub AllBelow-snoc :
      (xs : List (PoolEntry as_text)) (e : PoolEntry as_text)
      → AllBelow xs
      → e.failures < max_consecutive_failures
      → AllBelow (xs ++ e ∷ [])
  AllBelow-snoc [] e h k = (k, tt)
  AllBelow-snoc (x ∷ xs) e h k = (h.0, AllBelow-snoc xs e h.1 k)

  pub IsDistinct-snoc :
      (xs : List (PoolEntry as_text)) (e : PoolEntry as_text)
      → IsDistinct as_text xs
      → find as_text (text_of as_text e) xs ≡ none
      → IsDistinct as_text (xs ++ e ∷ [])
  unfolding find
  IsDistinct-snoc [] e h k = (refl, tt)
  IsDistinct-snoc (x ∷ xs) e h k = (
    ground (
      arith,
      find-append as_text (text_of as_text x) xs (e ∷ []),
      h.0,
      list_eq_iff (text_of as_text x) (text_of as_text e),
      list_eq_iff (text_of as_text e) (text_of as_text x),
    ),
    IsDistinct-snoc xs e h.1 (ground arith),
  )

  pub set-AllBelow :
      (xs : List (PoolEntry as_text)) (i : ℕ) (e : PoolEntry as_text)
      → AllBelow xs
      → e.failures < max_consecutive_failures
      → AllBelow (set xs i e)
  set-AllBelow [] i e h k = tt
  set-AllBelow (x ∷ xs) zero e h k = (k, h.1)
  set-AllBelow (x ∷ xs) (suc i) e h k = (h.0, set-AllBelow xs i e h.1 k)

  pub set-IsDistinct :
      (xs : List (PoolEntry as_text)) (i : ℕ) (e e' : PoolEntry as_text)
      → get_elem? xs i ≡ some e
      → text_of as_text e' ≡ text_of as_text e
      → IsDistinct as_text xs
      → IsDistinct as_text (set xs i e')
  set-IsDistinct [] i e e' h k d = tt
  set-IsDistinct (x ∷ xs) zero e e' h k d =
      let same : x ≡ e = cc in
      let t : text_of as_text e' ≡ text_of as_text x = cc in (rw t d.0, d.1)
  set-IsDistinct (x ∷ xs) (suc i) e e' h k d = (
    ground (
      arith,
      find-set as_text xs i e e' (text_of as_text x) h d.1 k,
      find_of_get as_text xs i e h,
      d.0,
      list_eq_iff (text_of as_text e) (text_of as_text x),
    ),
    set-IsDistinct xs i e e' h k d.1,
  )

  pub split_last-IsDistinct :
      (e : PoolEntry as_text) (xs : List (PoolEntry as_text))
      → IsDistinct as_text (e ∷ xs)
      → IsDistinct as_text ((split_last as_text e xs).0 ∷ (split_last as_text e xs).1)
  unfolding split_last find
  split_last-IsDistinct e [] d = d
  split_last-IsDistinct e (x ∷ xs) d =
      let ih = split_last-IsDistinct x xs d.1 in
      let l = (split_last as_text x xs).0 in
      let apart = find-split_last as_text x xs (text_of as_text e) d.1 in
      (
        ground (
          arith,
          ih.0,
          apart,
          d.0,
          list_eq_iff (text_of as_text e) (text_of as_text l),
          list_eq_iff (text_of as_text l) (text_of as_text e),
        ),
        (ground (arith, apart, d.0), ih.1),
      )

  pub swap_remove-IsDistinct :
      (xs : List (PoolEntry as_text)) (i : ℕ) (e : PoolEntry as_text)
      → get_elem? xs i ≡ some e
      → IsDistinct as_text xs
      → IsDistinct as_text (swap_remove as_text xs i)
  unfolding swap_remove
  swap_remove-IsDistinct [] i e h d = tt
  swap_remove-IsDistinct (x ∷ []) zero e h d = tt
  swap_remove-IsDistinct (x ∷ y ∷ xs) zero e h d = split_last-IsDistinct y xs d.1
  swap_remove-IsDistinct (x ∷ xs) (suc i) e h d = (
    ground (arith, find-swap_remove as_text xs i e (text_of as_text x) h d.1, d.0),
    swap_remove-IsDistinct xs i e h d.1,
  )

  pub split_last-AllBelow :
      (e : PoolEntry as_text) (xs : List (PoolEntry as_text))
      → AllBelow (e ∷ xs)
      → AllBelow ((split_last as_text e xs).0 ∷ (split_last as_text e xs).1)
  unfolding split_last
  split_last-AllBelow e [] b = b
  split_last-AllBelow e (x ∷ xs) b = let ih = split_last-AllBelow x xs b.1 in (ih.0, (b.0, ih.1))

  pub swap_remove-AllBelow :
      (xs : List (PoolEntry as_text)) (i : ℕ) → AllBelow xs → AllBelow (swap_remove as_text xs i)
  unfolding swap_remove
  swap_remove-AllBelow [] i b = tt
  swap_remove-AllBelow (x ∷ []) zero b = tt
  swap_remove-AllBelow (x ∷ y ∷ xs) zero b = split_last-AllBelow y xs b.1
  swap_remove-AllBelow (x ∷ xs) (suc i) b = (b.0, swap_remove-AllBelow xs i b.1)

  pub length-split_last :
      (e : PoolEntry as_text) (xs : List (PoolEntry as_text))
      → length (split_last as_text e xs).1 ≡ length xs
  unfolding split_last
  length-split_last e [] = refl
  length-split_last e (x ∷ xs) = ap suc (length-split_last x xs)

  pub length-swap_remove :
      (xs : List (PoolEntry as_text)) (i : ℕ) → length (swap_remove as_text xs i) ≤ length xs
  unfolding swap_remove
  length-swap_remove [] i = omega arith
  length-swap_remove (x ∷ []) zero = omega arith
  length-swap_remove (x ∷ y ∷ xs) zero = omega (arith, length-split_last y xs)
  length-swap_remove (x ∷ xs) (suc i) = omega (arith, length-swap_remove xs i)
