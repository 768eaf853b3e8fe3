-- ===== src/Proxy/Float.antt =====
-- The operations of `f64` that the program uses. The models take the type as a parameter; a comparison
-- with a NaN is false.
use flx.Base.{ℕ, Bool, if◌then◌else◌}

pub record Float : Type 1 where
  pub F : Type 0
  pub zero : F
  pub add : F → F → F
  pub sub : F → F → F
  pub mul : F → F → F
  pub div : F → F → F
  -- A number as a float, as `u64 as f64` and as an integral literal give it.
  pub of_nat : ℕ → F
  -- The literal n / 100, as in `0.60`.
  pub hundredths : ℕ → F
  pub lt : F → F → Bool
  pub le : F → F → Bool
  pub is_finite : F → Bool

module _ (f : Float) where
  open f use {F, lt}

  -- `f64::clamp`
  abbrev pub clamp : F → F → F → F
  clamp x lo hi = if lt x lo then lo else if lt hi x then hi else x
