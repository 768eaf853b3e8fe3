-- ===== src/Base/Dict.antt =====
-- `HashMap` with its keys compared by `Eq`: an association list with one entry for each key. Nothing
-- that is modelled reads the order of the entries.
use flx.Base.{
  ◌+◌, ◌≡◌, refl, List, [], ◌∷◌, Option, none, some, Eq, if◌then◌else◌, length, arith, is_some,
}

abbrev pub Dict {ℓ κ} : Type ℓ → Type κ → Type (ℓ ⊔ κ)
Dict K V = List (K × V)

module _ {ℓ κ} {K : Type ℓ} {V : Type κ} ⦃e : Eq K⦄ where
  unfoldable pub lookup : K → Dict K V → Option V
  lookup key [] = none
  lookup key ((other, v) ∷ rest) = if e.beq other key then some v else lookup key rest

  unfoldable pub insert : K → V → Dict K V → Dict K V
  insert key v [] = (key, v) ∷ []
  insert key v ((other, w) ∷ rest) =
      if e.beq other key then (key, v) ∷ rest else (other, w) ∷ insert key v rest

  unfoldable pub remove : K → Dict K V → Dict K V
  remove key [] = []
  remove key ((other, w) ∷ rest) =
      if e.beq other key then remove key rest else (other, w) ∷ remove key rest

  pub lookup-insert :
      (key other : K) (v : V) (rest : Dict K V)
      → lookup other (insert key v rest) ≡ (if e.beq key other then some v else lookup other rest)
  unfolding lookup insert
  lookup-insert key other v [] = refl
  lookup-insert key other v ((at, w) ∷ rest) = ground (
    arith,
    e.beq_iff key other,
    e.beq_iff at key,
    e.beq_iff at other,
    lookup-insert key other v rest,
  )

  pub lookup-remove :
      (key other : K) (rest : Dict K V)
      → lookup other (remove key rest) ≡ (if e.beq key other then none else lookup other rest)
  unfolding lookup remove
  lookup-remove key other [] = ground arith
  lookup-remove key other ((at, w) ∷ rest) = ground (
    arith,
    e.beq_iff key other,
    e.beq_iff at key,
    e.beq_iff at other,
    lookup-remove key other rest,
  )

  -- An insertion adds an entry only for a key that was absent.
  pub length-insert :
      (key : K) (v : V) (rest : Dict K V)
      → length (insert key v rest)
        ≡ (if is_some (lookup key rest) then length rest else length rest + 1)
  unfolding lookup insert
  length-insert key v [] = omega arith
  length-insert key v ((at, w) ∷ rest) = ground (arith, length-insert key v rest)
