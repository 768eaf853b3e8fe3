-- ===== src/Filters/Sort.antt =====
-- `sort_proxies` of src/filters.rs. The sort is by insertion, which gives what the stable sort of the
-- standard library does for a total order; for keys with NaN that sort may panic.
use flx.Base.{ℕ, List, [], ◌∷◌, ◌++◌, Option, none, some, if◌then◌else◌, ltb}
use flx.Base.Bytes.{Bytes}
use flx.Filters.{proxy_anonymity_rank}
use flx.Proxy.Float.{Float}
use flx.Proxy.Model.{Proxy, HealthScore, avg_response_time}

pub data SortKey : Type 0 where
  avg_response_time_key country anonymity score : SortKey

pub data SortOrder : Type 0 where
  asc desc : SortOrder

pub data Comparison : Type 0 where
  less equal greater : Comparison

abbrev pub turn : Comparison → Comparison
turn less = greater
turn equal = equal
turn greater = less

abbrev pub compare_nat : ℕ → ℕ → Comparison
compare_nat a b = if ltb a b then less else if ltb b a then greater else equal

-- `cmp` of two strings, which compares their bytes, and of two `Option`s.
abbrev pub compare_bytes : Bytes → Bytes → Comparison
compare_bytes [] [] = equal
compare_bytes [] (b ∷ bs) = less
compare_bytes (a ∷ rest) [] = greater
compare_bytes (a ∷ rest) (b ∷ bs) =
    if ltb a b then less else if ltb b a then greater else compare_bytes rest bs

abbrev pub compare_code : Option Bytes → Option Bytes → Comparison
compare_code none none = equal
compare_code none (some b) = less
compare_code (some a) none = greater
compare_code (some a) (some b) = compare_bytes a b

-- `sort_by`, which is stable: an item goes in front of the first that is not less than it.
module _ {ℓ} {A : Type ℓ} where
  unfoldable pub insert_by : (A → A → Comparison) → A → List A → List A
  insert_by cmp x [] = x ∷ []
  insert_by cmp x (y ∷ ys) =
      let rest = insert_by cmp x ys in elim (cmp x y) [ greater ↦ y ∷ rest | _ ↦ x ∷ y ∷ ys ]

  unfoldable pub sort_by : (A → A → Comparison) → List A → List A
  sort_by cmp [] = []
  sort_by cmp (x ∷ xs) = insert_by cmp x (sort_by cmp xs)

  abbrev pub reverse : List A → List A
  reverse [] = []
  reverse (x ∷ xs) = reverse xs ++ x ∷ []

module _ (f : Float) where
  open f use {F, lt}

  -- `partial_cmp(…).unwrap_or(Equal)`
  abbrev pub compare_float : F → F → Comparison
  compare_float a b = if lt a b then less else if lt b a then greater else equal

  abbrev pub directed : SortOrder → Comparison → Comparison
  directed asc c = c
  directed desc c = turn c

  abbrev pub compare_score :
      SortOrder → Option (HealthScore f) → Option (HealthScore f) → Comparison
  compare_score order (some a) (some b) = directed order (compare_float a.total b.total)
  compare_score order (some a) none = less
  compare_score order none (some b) = greater
  compare_score order none none = equal

  abbrev pub comparison : SortKey → SortOrder → Proxy f → Proxy f → Comparison
  comparison avg_response_time_key order a b =
      compare_float (avg_response_time f a) (avg_response_time f b)
  comparison country order a b = compare_code a.geo.iso_code b.geo.iso_code
  comparison anonymity order a b = compare_nat (proxy_anonymity_rank f a) (proxy_anonymity_rank f b)
  comparison score order a b = compare_score order a.health_score b.health_score

  -- The score is turned in the comparison, the others by reversing the list.
  abbrev pub reversed : SortKey → SortOrder → List (Proxy f) → List (Proxy f)
  reversed score order proxies = proxies
  reversed key asc proxies = proxies
  reversed key desc proxies = reverse proxies

  unfoldable pub sort_proxies : List (Proxy f) → SortKey → SortOrder → List (Proxy f)
  unfolding sort_by
  sort_proxies proxies key order = reversed key order (sort_by (comparison key order) proxies)
