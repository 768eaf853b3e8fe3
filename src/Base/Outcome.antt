-- ===== src/Base/Outcome.antt =====
-- Code that may panic: an index out of bounds, a slice of the wrong length, an overflow in debug.
use flx.Base.{
  ℕ, ◌+◌, ◌<◌, ◌≡◌, ap, List, ◌++◌, Option, none, some, get_elem?, get_elem?-append,
  get_elem?-of_lt, length,
}

pub data Outcome {ℓ} (A : Type ℓ) : Type ℓ where
  panicked : Outcome A
  returned : A → Outcome A

infixl 5 ◌>>=◌ ◌>>◌
abbrev pub ◌>>=◌ {ℓ κ} : {A : Type ℓ} {B : Type κ} → Outcome A → (A → Outcome B) → Outcome B
panicked >>= f = panicked
returned a >>= f = f a

abbrev pub ◌>>◌ {ℓ} : {B : Type ℓ} → Outcome (Unit {0}) → Outcome B → Outcome B
m >> k = m >>= λ _. k

abbrev pub index_result {ℓ} : {A : Type ℓ} → Option A → Outcome A
index_result none = panicked
index_result (some a) = returned a

-- `xs[i]`
unfoldable pub index {ℓ} : {A : Type ℓ} → List A → ℕ → Outcome A
index xs i = index_result (get_elem? xs i)

module _ {ℓ} {A : Type ℓ} where
  pub index-append : (xs ys : List A) (i : ℕ) → index (xs ++ ys) (length xs + i) ≡ index ys i
  unfolding index
  index-append xs ys i = ap index_result (get_elem?-append xs ys i)

  pub index-of_lt : (xs : List A) (i : ℕ) → i < length xs → (a : A) × (index xs i ≡ returned a)
  unfolding index
  index-of_lt xs i h = let (a, e) = get_elem?-of_lt xs i h in (a, ap index_result e)
