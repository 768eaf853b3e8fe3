-- ===== src/Rotator/Pool/Find.antt =====
-- Finding an entry of the pool by its text, and what the list operations do to it.
use flx.Base.{
  ◌≢◌, ℕ, zero, suc, ◌≡◌, refl, true, false, List, [], ◌∷◌, ◌++◌, Option, none, some, if◌then◌else◌,
  arith, list_eq, list_eq_iff, any, set, ℕ_eq, Bool-cases, inl, inr, get_elem?,
}
use flx.Base.Bytes.{Bytes}
use flx.Rotator.Pool.{PoolEntry, has_text, update_first, position, split_last, swap_remove}

module _ {P : Type 0} (as_text : P → Bytes) where
  unfoldable pub find : Bytes → List (PoolEntry as_text) → Option (PoolEntry as_text)
  find text [] = none
  find text (e ∷ entries) = if has_text as_text text e then some e else find text entries

  abbrev pub text_of : PoolEntry as_text → Bytes
  text_of e = as_text e.proxy

  -- No two entries have one text.
  abbrev pub IsDistinct : List (PoolEntry as_text) → Type 0
  IsDistinct [] = Unit
  IsDistinct (e ∷ entries) = (find (text_of e) entries ≡ none) × IsDistinct entries

  abbrev pub map_entry :
      (PoolEntry as_text → PoolEntry as_text)
      → Option (PoolEntry as_text)
      → Option (PoolEntry as_text)
  map_entry g none = none
  map_entry g (some e) = some (g e)

  pub find-append :
      (text : Bytes) (xs ys : List (PoolEntry as_text))
      → find text (xs ++ ys) ≡ elim (find text xs) [ none ↦ find text ys | some e ↦ some e ]
  unfolding find
  find-append text [] ys = refl
  find-append text (e ∷ xs) ys = ground (arith, find-append text xs ys)

  pub any-eq-find :
      (text : Bytes) (xs : List (PoolEntry as_text))
      → any (has_text as_text text) xs ≡ elim (find text xs) [ none ↦ false | some e ↦ true ]
  unfolding find
  any-eq-find text [] = refl
  any-eq-find text (e ∷ xs) = ground (arith, any-eq-find text xs)

  -- An update that keeps the text of the entry.
  module _ (g : PoolEntry as_text → PoolEntry as_text)
      (keeps : (e : PoolEntry as_text) → text_of (g e) ≡ text_of e) where
    pub find-update_first :
        (t u : Bytes) (xs : List (PoolEntry as_text))
        → find u (update_first as_text t g xs)
          ≡ (if list_eq t u then map_entry g (find t xs) else find u xs)
    unfolding find update_first
    find-update_first t u [] = ground arith
    find-update_first t u (e ∷ xs) = ground (
      arith,
      find-update_first t u xs,
      keeps e,
      list_eq_iff t u,
      list_eq_iff (text_of e) t,
      list_eq_iff (text_of e) u,
      list_eq_iff (text_of (g e)) u,
    )

  -- An entry that stands in the list is found by its text, perhaps at an earlier place.
  pub find_of_get :
      (xs : List (PoolEntry as_text)) (i : ℕ) (e : PoolEntry as_text)
      → get_elem? xs i ≡ some e
      → find (text_of e) xs ≢ none
  unfolding find
  find_of_get [] i e h = cc
  find_of_get (x ∷ xs) zero e h =
      ground (arith, list_eq_iff (text_of x) (text_of e), list_eq_iff (text_of e) (text_of e))
  find_of_get (x ∷ xs) (suc i) e h = ground (arith, find_of_get xs i e h)

  -- With distinct texts, a place is that of its text.
  pub find-set :
      (xs : List (PoolEntry as_text)) (i : ℕ) (e e' : PoolEntry as_text) (u : Bytes)
      → get_elem? xs i ≡ some e
      → IsDistinct xs
      → text_of e' ≡ text_of e
      → find u (set xs i e') ≡ (if list_eq (text_of e) u then some e' else find u xs)
  unfolding find
  find-set [] i e e' u h d k = cc
  find-set (x ∷ xs) zero e e' u h d k =
      ground
        (arith, list_eq_iff (text_of x) u, list_eq_iff (text_of e) u, list_eq_iff (text_of e') u)
  find-set (x ∷ xs) (suc i) e e' u h d k = ground (
    arith,
    find-set xs i e e' u h d.1 k,
    find_of_get xs i e h,
    list_eq_iff (text_of x) u,
    list_eq_iff (text_of e) u,
  )

  pub find-split_last :
      (e : PoolEntry as_text) (xs : List (PoolEntry as_text)) (u : Bytes)
      → IsDistinct (e ∷ xs)
      → find u ((split_last as_text e xs).0 ∷ (split_last as_text e xs).1) ≡ find u (e ∷ xs)
  unfolding find split_last
  find-split_last e [] u d = refl
  find-split_last e (x ∷ xs) u d = ground (
    arith,
    find-split_last x xs u d.1,
    find-split_last x xs (text_of e) d.1,
    list_eq_iff (text_of (split_last as_text x xs).0) u,
    list_eq_iff (text_of (split_last as_text x xs).0) (text_of e),
    list_eq_iff (text_of e) u,
    list_eq_iff u (text_of e),
  )

  pub find-swap_remove :
      (xs : List (PoolEntry as_text)) (i : ℕ) (e : PoolEntry as_text) (u : Bytes)
      → get_elem? xs i ≡ some e
      → IsDistinct xs
      → find u (swap_remove as_text xs i) ≡ (if list_eq (text_of e) u then none else find u xs)
  unfolding find swap_remove
  find-swap_remove [] i e u h d = cc
  find-swap_remove (x ∷ []) zero e u h d = ground (arith, list_eq_iff (text_of x) u)
  find-swap_remove (x ∷ y ∷ xs) zero e u h d =
      ground
        (arith, find-split_last y xs u d.1, list_eq_iff (text_of x) u, list_eq_iff (text_of e) u)
  find-swap_remove (x ∷ xs) (suc i) e u h d = ground (
    arith,
    find-swap_remove xs i e u h d.1,
    find_of_get xs i e h,
    list_eq_iff (text_of x) u,
    list_eq_iff (text_of e) u,
  )

  abbrev pub Positioned : Bytes → List (PoolEntry as_text) → Option ℕ → Type 0
  Positioned t xs none = find t xs ≡ none
  Positioned t xs (some i) =
      (e : PoolEntry as_text) × (get_elem? xs i ≡ some e) × (find t xs ≡ some e) × (text_of e ≡ t)

  position_next :
      (t : Bytes) (x : PoolEntry as_text) (xs : List (PoolEntry as_text)) (o : Option ℕ)
      → has_text as_text t x ≡ false
      → Positioned t xs o
      → Positioned t (x ∷ xs) (elim o [ none ↦ none | some i ↦ some (suc i) ])
  unfolding find
  position_next t x xs none ne h = rw ne h
  position_next t x xs (some i) ne h = (h.0, h.1, rw ne h.2, h.3)

  pub position_lem :
      (t : Bytes) (xs : List (PoolEntry as_text)) → Positioned t xs (position as_text t xs)
  unfolding find position
  position_lem t [] = refl
  position_lem t (x ∷ xs) = elim (Bool-cases (has_text as_text t x)) [
    | inl here ↦ rw here (x, refl, rw here, (list_eq_iff (text_of x) t).0 here)
    | inr later ↦ rw later (position_next t x xs (position as_text t xs) later (position_lem t xs))
  ]
