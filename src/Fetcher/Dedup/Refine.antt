-- ===== src/Fetcher/Dedup/Refine.antt =====
-- The table is a queue of distinct keys, of at most `capacity` of them (and of one, at least).
use Prim.Native.Nat.{max}
use flx.Base.{
  ℕ, ◌+◌, ◌≤◌, ◌≡◌, refl, Bool, true, false, ◌||◌, List, [], ◌∷◌, ◌++◌, Eq, contains, length,
  length-append, if◌then◌else◌, ltb, arith, Bool-cases, inl, inr, beq_refl,
}
use flx.Fetcher.Dedup.{DedupTable, with_capacity, evict_oldest, insert}
use flx.Fetcher.Dedup.Hash.{HashSet}

module _ {K : Type 0} ⦃e : Eq K⦄ where
  abbrev pub Distinct : List K → Type 0
  Distinct [] = Unit
  Distinct (x ∷ xs) = (contains xs x ≡ false) × Distinct xs

  -- What the table promises: the queue after a key, and whether the key was new.
  abbrev pub tail : List K → List K
  tail [] = []
  tail (x ∷ xs) = xs

  unfoldable pub push : ℕ → List K → K → List K × Bool
  push cap q k =
      if contains q k
      then (q, false)
      else ((if ltb cap (length q + 1) then tail q else q) ++ k ∷ [], true)

  pub contains-append :
      (xs ys : List K) (a : K) → contains (xs ++ ys) a ≡ (contains xs a || contains ys a)
  contains-append [] ys a = refl
  contains-append (x ∷ xs) ys a = ground (arith, contains-append xs ys a)

  pub Distinct-snoc :
      (xs : List K) (a : K) → Distinct xs → contains xs a ≡ false → Distinct (xs ++ a ∷ [])
  Distinct-snoc [] a d h = (refl, tt)
  Distinct-snoc (x ∷ xs) a d h = (
    ground (arith, contains-append xs (a ∷ []) x, e.beq_iff x a, e.beq_iff a x),
    Distinct-snoc xs a d.1 (ground arith),
  )

  pub Distinct-tail : (xs : List K) → Distinct xs → Distinct (tail xs)
  Distinct-tail [] d = tt
  Distinct-tail (x ∷ xs) d = d.1

  contains-tail : (xs : List K) (a : K) → contains xs a ≡ false → contains (tail xs) a ≡ false
  contains-tail [] a h = refl
  contains-tail (x ∷ xs) a h = ground arith

  pub push-Distinct : (cap : ℕ) (q : List K) (k : K) → Distinct q → Distinct (push cap q k).0
  unfolding push
  push-Distinct cap q k d = elim (Bool-cases (contains q k)) [
    | inl old ↦ rw old d
    | inr new ↦ rw new (elim (Bool-cases (ltb cap (length q + 1))) [
      | inl full ↦ rw full (Distinct-snoc (tail q) k (Distinct-tail q d) (contains-tail q k new))
      | inr room ↦ rw room (Distinct-snoc q k d new)
    ])
  ]

  pub push_bound :
      (cap : ℕ) (q : List K) (k : K) → length q ≤ max cap 1 → length (push cap q k).0 ≤ max cap 1
  unfolding push
  push_bound cap [] k b = ground arith
  push_bound cap (x ∷ q) k b =
      ground (arith, length-append q (k ∷ []), length-append (x ∷ q) (k ∷ []))

module _ {K : Type 0} ⦃e : Eq K⦄ (h : HashSet K) where
  pub record IsValid (t : DedupTable h) : Type 0 where
    pub same : (k : K) → h.has t.seen k ≡ contains t.order k
    pub count : h.len t.seen ≡ length t.order
    pub distinct : Distinct t.order
    pub bound : length t.order ≤ max t.capacity 1

  pub with_capacity-IsValid : (c : ℕ) → IsValid (with_capacity h c)
  unfolding with_capacity
  with_capacity-IsValid c = record {
    same = λ k. h.has-empty k;
    count = h.len-empty;
    distinct = tt;
    bound = omega arith;
  }

  evict_oldest-order : (s : h.Set) (q : List K) → (evict_oldest h s q).1 ≡ tail q
  unfolding evict_oldest
  evict_oldest-order s [] = refl
  evict_oldest-order s (x ∷ q) = refl

  has-evict_oldest :
      (s : h.Set) (q : List K) (k j : K)
      → Distinct q
      → contains q k ≡ false
      → h.has s j ≡ (e.beq k j || contains q j)
      → h.has (evict_oldest h s q).0 j ≡ (e.beq k j || contains (tail q) j)
  unfolding evict_oldest
  has-evict_oldest s [] k j d fresh same = same
  has-evict_oldest s (x ∷ q) k j d fresh same =
      ground (arith, h.has-remove s x j, e.beq_iff x j, e.beq_iff k j, e.beq_iff x k)

  len-evict_oldest :
      (s : h.Set) (q : List K)
      → ((j : K) → contains q j ≡ true → h.has s j ≡ true)
      → h.len s ≡ length q + 1
      → h.len (evict_oldest h s q).0 ≡ length (tail q) + 1
  unfolding evict_oldest
  len-evict_oldest s [] all n = n
  len-evict_oldest s (x ∷ q) all n =
      ground (arith, h.len-remove s x, all x (ground (arith, beq_refl x)))

  module _ (t : DedupTable h) (k : K) (v : IsValid t) where
    insert_order :
        ((insert h t k).0.order ≡ (push t.capacity t.order k).0)
        × ((insert h t k).1 ≡ (push t.capacity t.order k).1)
        × ((insert h t k).0.capacity ≡ t.capacity)
    unfolding insert push
    insert_order = ground (
      arith,
      h.insert_fresh t.seen k,
      v.same k,
      h.len-insert t.seen k,
      v.count,
      evict_oldest-order (h.insert t.seen k).1 t.order,
    )

    insert_same : (j : K) → h.has (insert h t k).0.seen j ≡ contains (push t.capacity t.order k).0 j
    unfolding insert push
    insert_same j = ground (
      arith,
      h.insert_fresh t.seen k,
      v.same k,
      v.same j,
      h.len-insert t.seen k,
      h.has-insert t.seen k j,
      v.count,
      e.beq_iff k j,
      has-evict_oldest (h.insert t.seen k).1 t.order k j v.distinct,
      contains-append t.order (k ∷ []) j,
      contains-append (tail t.order) (k ∷ []) j,
    )

    insert_count : h.len (insert h t k).0.seen ≡ length (push t.capacity t.order k).0
    unfolding insert push
    insert_count = ground (
      arith,
      h.insert_fresh t.seen k,
      v.same k,
      h.len-insert t.seen k,
      v.count,
      len-evict_oldest (h.insert t.seen k).1 t.order (λ (j : K) (m : contains t.order j ≡ true).
          ground (arith, h.has-insert t.seen k j, v.same j)),
      length-append t.order (k ∷ []),
      length-append (tail t.order) (k ∷ []),
    )

  -- On a valid table `insert` answers and evicts as the bounded queue of its keys does: it answers
  -- whether the key is absent, appends a new key, and drops the oldest one only when the capacity is
  -- passed. The capacity stays, and the table stays valid: the hash set holds the queue's keys and no
  -- other, as many of them, with no key twice and at most `max capacity 1` in all.
  pub insert_refines :
      (t : DedupTable h) (k : K)
      → IsValid t
      → ((insert h t k).0.order ≡ (push t.capacity t.order k).0)
        × ((insert h t k).1 ≡ (push t.capacity t.order k).1)
        × ((insert h t k).0.capacity ≡ t.capacity)
        × IsValid (insert h t k).0
  insert_refines t k v =
      let (o, b, c) = insert_order t k v in
      (
        o,
        b,
        c,
        record {
          same = λ j. rw o (insert_same t k v j);
          count = rw o (insert_count t k v);
          distinct = rw o (push-Distinct t.capacity t.order k v.distinct);
          bound = rw (o, c) (push_bound t.capacity t.order k v.bound);
        },
      )
