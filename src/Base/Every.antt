-- ===== src/Base/Every.antt =====
-- Every element, and the end of a list.
use flx.Base.{
  all, ap, ◌++◌, refl, beq_refl, Eq, map, ◌≡◌, Bool, true, ◌&&◌, List, [], ◌∷◌, contains, arith,
}

pub all-snoc {ℓ} :
    {A : Type ℓ} (p : A → Bool) (xs : List A) (x : A) → all p (xs ++ x ∷ []) ≡ (all p xs && p x)
all-snoc p [] x = ground arith
all-snoc p (y ∷ xs) x = ground (arith, all-snoc p xs x)

pub map-snoc {ℓ κ} :
    {A : Type ℓ} {B : Type κ} (g : A → B) (xs : List A) (x : A)
    → map g (xs ++ x ∷ []) ≡ map g xs ++ g x ∷ []
map-snoc g [] x = refl
map-snoc g (y ∷ xs) x = ap (λ l. g y ∷ l) (map-snoc g xs x)

module _ {ℓ} {A : Type ℓ} ⦃e : Eq A⦄ where
  pub all_weaken :
      (x : A) (xs todo : List A)
      → all (contains xs) todo ≡ true
      → all (contains (x ∷ xs)) todo ≡ true
  all_weaken x xs [] h = refl
  all_weaken x xs (y ∷ todo) h = ground (arith, all_weaken x xs todo)

  pub all-contains : (xs : List A) → all (contains xs) xs ≡ true
  all-contains [] = refl
  all-contains (x ∷ xs) = ground (arith, beq_refl x, all_weaken x xs xs (all-contains xs))
