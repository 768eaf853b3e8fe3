-- ===== src/Filters/Ordered.antt =====
-- What `sort_proxies` does to the proxies of a list, and to those with a score.
use flx.Base.{
  ℕ, suc, ◌+◌, ◌≡◌, refl, ◌∙◌, Bool, true, List, [], ◌∷◌, ◌++◌, if◌then◌else◌, arith, not, ◌&&◌,
  ◌||◌, is_some,
}
use flx.Filters.Sort.{
  Comparison, SortKey, SortOrder, insert_by, sort_by, reverse, sort_proxies, comparison, reversed,
}
use flx.Proxy.Float.{Float}
use flx.Proxy.Model.{Proxy}

module _ {ℓ} {A : Type ℓ} where
  abbrev pub count : (A → Bool) → List A → ℕ
  count p [] = 0
  count p (x ∷ xs) = if p x then suc (count p xs) else count p xs

  count-append : (p : A → Bool) (xs ys : List A) → count p (xs ++ ys) ≡ count p xs + count p ys
  count-append p [] ys = omega arith
  count-append p (x ∷ xs) ys = ground (arith, count-append p xs ys)

  count-insert_by :
      (p : A → Bool) (cmp : A → A → Comparison) (x : A) (xs : List A)
      → count p (insert_by cmp x xs) ≡ count p (x ∷ xs)
  unfolding insert_by
  count-insert_by p cmp x [] = refl
  count-insert_by p cmp x (y ∷ ys) = ground (arith, count-insert_by p cmp x ys)

  pub count-sort_by :
      (p : A → Bool) (cmp : A → A → Comparison) (xs : List A)
      → count p (sort_by cmp xs) ≡ count p xs
  unfolding sort_by
  count-sort_by p cmp [] = refl
  count-sort_by p cmp (x ∷ xs) =
      ground (arith, count-insert_by p cmp x (sort_by cmp xs), count-sort_by p cmp xs)

  count-reverse : (p : A → Bool) (xs : List A) → count p (reverse xs) ≡ count p xs
  count-reverse p [] = refl
  count-reverse p (x ∷ xs) =
      ground (arith, count-append p (reverse xs) (x ∷ []), count-reverse p xs)

module _ (f : Float) where
  count-reversed :
      (p : Proxy f → Bool) (key : SortKey) (order : SortOrder) (proxies : List (Proxy f))
      → count p (reversed f key order proxies) ≡ count p proxies
  count-reversed p SortKey.score order proxies = refl
  count-reversed p SortKey.avg_response_time_key SortOrder.asc proxies = refl
  count-reversed p SortKey.avg_response_time_key SortOrder.desc proxies = count-reverse p proxies
  count-reversed p SortKey.country SortOrder.asc proxies = refl
  count-reversed p SortKey.country SortOrder.desc proxies = count-reverse p proxies
  count-reversed p SortKey.anonymity SortOrder.asc proxies = refl
  count-reversed p SortKey.anonymity SortOrder.desc proxies = count-reverse p proxies

  -- For every key, order and list, each property holds of as many proxies after the sort as before.
  pub count-sort_proxies :
      (p : Proxy f → Bool) (proxies : List (Proxy f)) (key : SortKey) (order : SortOrder)
      → count p (sort_proxies f proxies key order) ≡ count p proxies
  unfolding sort_proxies
  count-sort_proxies p proxies key order =
      count-reversed p key order _ ∙ count-sort_by p (comparison f key order) proxies

  abbrev pub none_scored : List (Proxy f) → Bool
  none_scored [] = true
  none_scored (p ∷ ps) = not (is_some p.health_score) && none_scored ps

  -- No proxy with a score stands behind one without.
  abbrev pub scored_first : List (Proxy f) → Bool
  scored_first [] = true
  scored_first (p ∷ ps) = (is_some p.health_score || none_scored ps) && scored_first ps

  insert-scored_first :
      (order : SortOrder) (p : Proxy f) (ps : List (Proxy f))
      → scored_first ps ≡ true
      → scored_first (insert_by (comparison f SortKey.score order) p ps) ≡ true
  unfolding insert_by
  insert-scored_first order p [] h = ground arith
  insert-scored_first SortOrder.asc p (q ∷ ps) h =
      ground (arith, insert-scored_first SortOrder.asc p ps)
  insert-scored_first SortOrder.desc p (q ∷ ps) h =
      ground (arith, insert-scored_first SortOrder.desc p ps)

  -- In both orders, a sort by score puts every proxy that has a score before all that have none.
  pub sort-scored_first :
      (order : SortOrder) (proxies : List (Proxy f))
      → scored_first (sort_proxies f proxies SortKey.score order) ≡ true
  unfolding sort_proxies sort_by
  sort-scored_first order [] = refl
  sort-scored_first order (p ∷ proxies) =
      insert-scored_first order p (sort_by (comparison f SortKey.score order) proxies)
        (sort-scored_first order proxies)
