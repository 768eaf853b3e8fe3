-- ===== src/Filters/Shuffled.antt =====
-- Facts about `shuffle_proxies`, for every seed.
use flx.Base.{
  ℕ, zero, suc, ◌+◌, ◌-◌, ◌%◌, ◌<◌, ◌≡◌, refl, ap, ◌∙◌, Bool, List, [], ◌∷◌, Option, some, none,
  if◌then◌else◌, set, length, length-set, get_elem?, get_elem?-of_lt, arith,
}
use native.Mathlib.Nat.{mod-lt}
use flx.Base.Outcome.{Outcome, returned, index}
use flx.Filters.Ordered.{count}
use flx.Filters.Shuffle.{swap, shuffle_from, shuffle, next, seed}

module _ {ℓ} {A : Type ℓ} where
  abbrev one : (A → Bool) → A → ℕ
  one p x = if p x then 1 else 0

  abbrev one_of : (A → Bool) → Option A → ℕ
  one_of p none = 0
  one_of p (some x) = one p x

  count-set :
      (p : A → Bool) (xs : List A) (i : ℕ) (v x : A)
      → get_elem? xs i ≡ some x
      → count p (set xs i v) + one p x ≡ count p xs + one p v
  count-set p [] i v x h = absurd (ground (arith, h))
  count-set p (y ∷ xs) zero v x h = ground (arith, ap (one_of p) h)
  count-set p (y ∷ xs) (suc i) v x h = ground (arith, count-set p xs i v x h)

  get_elem?-set :
      (xs : List A) (i j : ℕ) (y : A) → get_elem? xs j ≡ some y → get_elem? (set xs i y) j ≡ some y
  get_elem?-set [] i j y h = h
  get_elem?-set (x ∷ xs) zero zero y h = refl
  get_elem?-set (x ∷ xs) zero (suc j) y h = h
  get_elem?-set (x ∷ xs) (suc i) zero y h = h
  get_elem?-set (x ∷ xs) (suc i) (suc j) y h = get_elem?-set xs i j y h

  -- The outcome is a list with the same items, each as often.
  pub IsShuffle : List A → Outcome (List A) → Type ℓ
  IsShuffle xs o =
      (out : List A) × ((o ≡ returned out)
        × ((length out ≡ length xs) × ((p : A → Bool) → count p out ≡ count p xs)))

  swap-IsShuffle :
      (xs : List A) (i j : ℕ) → i < length xs → j < length xs → IsShuffle xs (swap xs i j)
  unfolding IsShuffle swap index
  swap-IsShuffle xs i j h k =
      let (x, ex) = get_elem?-of_lt xs i h in
      let (y, ey) = get_elem?-of_lt xs j k in
      (
        set (set xs i y) j x,
        (
          rw (ex, ey) refl,
          (
            length-set (set xs i y) j x ∙ length-set xs i y,
            λ p. omega (
              arith,
              count-set p xs i y x ex,
              count-set p (set xs i y) j x y (get_elem?-set xs i j y ey),
            ),
          ),
        ),
      )

  shuffle_from-IsShuffle :
      (i state : ℕ) (xs : List A) → i < length xs → IsShuffle xs (shuffle_from i state xs)
  unfolding IsShuffle shuffle_from
  shuffle_from-IsShuffle zero state xs h = (xs, (refl, (refl, λ p. refl)))
  shuffle_from-IsShuffle (suc i) state xs h =
      let j = next state % (suc i + 1) in
      let small : j < suc i + 1 = mod-lt (next state) (omega arith) in
      let inside : j < length xs = omega (arith, small, h) in
      let (ys, (e, (n, c))) = swap-IsShuffle xs (suc i) j h inside in
      let (out, (e', (n', c'))) = shuffle_from-IsShuffle i (next state) ys (omega (arith, n, h)) in
      (out, (rw e e', (n' ∙ n, λ p. c' p ∙ c p)))

  -- For every list, time and process id, `shuffle_proxies` indexes inside the list, and its result has
  -- the length of the list and as many items of each property.
  pub shuffle-IsShuffle : (nanos pid : ℕ) (xs : List A) → IsShuffle xs (shuffle nanos pid xs)
  unfolding IsShuffle shuffle shuffle_from
  shuffle-IsShuffle nanos pid [] = ([], (refl, (refl, λ p. refl)))
  shuffle-IsShuffle nanos pid (x ∷ xs) =
      let last : suc (length xs) - 1 ≡ length xs = omega arith in
      rw last (shuffle_from-IsShuffle (length xs) (seed nanos pid) (x ∷ xs) (omega arith))
