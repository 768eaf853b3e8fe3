-- ===== src/Fetcher/Dedup/Hash.antt =====
-- What the table relies on of `hashbrown::HashSet`.
use flx.Base.{ℕ, ◌+◌, ◌-◌, ◌≡◌, Bool, false, not, ◌||◌, Eq, if◌then◌else◌}

pub record HashSet (K : Type 0) ⦃e : Eq K⦄ : Type 1 where
  pub Set : Type 0
  pub empty : Set
  pub has : Set → K → Bool
  pub len : Set → ℕ
  -- Whether the key is new, and the set with it.
  pub insert : Set → K → Bool × Set
  pub remove : Set → K → Set
  pub has-empty : (k : K) → has empty k ≡ false
  pub len-empty : len empty ≡ 0
  pub insert_fresh : (s : Set) (k : K) → (insert s k).0 ≡ not (has s k)
  pub has-insert : (s : Set) (k j : K) → has (insert s k).1 j ≡ (e.beq k j || has s j)
  pub len-insert : (s : Set) (k : K) → len (insert s k).1 ≡ (if has s k then len s else len s + 1)
  pub has-remove : (s : Set) (k j : K) → has (remove s k) j ≡ (if e.beq k j then false else has s j)
  pub len-remove : (s : Set) (k : K) → len (remove s k) ≡ (if has s k then len s - 1 else len s)
