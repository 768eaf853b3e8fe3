-- ===== src/Fetcher/Dedup/Window.antt =====
-- A key is known for as long as fewer than `capacity` other calls follow it.
use flx.Base.{
  ℕ, ◌+◌, ◌≤◌, ◌<◌, ◌≡◌, refl, true, false, List, [], ◌∷◌, ◌++◌, Eq, contains, length,
  length-append, append_assoc, if◌then◌else◌, ltb, arith, Bool-cases, inl, inr, beq_refl, ltb→lt,
}
use flx.Fetcher.Dedup.{DedupTable, insert, insert_all}
use flx.Fetcher.Dedup.Hash.{HashSet}
use flx.Fetcher.Dedup.Refine.{push, tail, contains-append, IsValid, insert_refines}

module _ {K : Type 0} ⦃e : Eq K⦄ where
  -- `k` is in the queue with at most `n` keys behind it.
  record IsRecent (k : K) (n : ℕ) (q : List K) : Type 0 where
    before : List K
    after : List K
    split : q ≡ before ++ k ∷ after
    near : length after ≤ n

  contains_recent : (k : K) (n : ℕ) (q : List K) → IsRecent k n q → contains q k ≡ true
  contains_recent k n q r =
      rw r.split (ground (arith, contains-append r.before (k ∷ r.after) k, beq_refl k))

  push_split :
      (cap : ℕ) (before : List K) (k j : K) (after : List K) (n : ℕ)
      → length after ≤ n
      → n + 1 < cap
      → IsRecent k (n + 1) (push cap (before ++ k ∷ after) j).0
  unfolding push
  push_split cap before k j after n near room =
      elim (Bool-cases (contains (before ++ k ∷ after) j)) [
        | inl old ↦
            rw old (record { before = before; after = after; split = refl; near = omega arith })
        | inr new ↦ rw new (elim (Bool-cases (ltb cap (length (before ++ k ∷ after) + 1))) [
          | inl full ↦ rw full (dropped before (ltb→lt _ _ full))
          | inr slack ↦ rw slack (record {
            before = before;
            after = after ++ j ∷ [];
            split = append_assoc before (k ∷ after) (j ∷ []);
            near = omega (arith, length-append after (j ∷ []));
          })
        ])
      ]
    where
      dropped :
          (b : List K)
          → cap < length (b ++ k ∷ after) + 1
          → IsRecent k (n + 1) (tail (b ++ k ∷ after) ++ j ∷ [])
      dropped [] full = absurd (omega arith)
      dropped (x ∷ b) full = record {
        before = b;
        after = after ++ j ∷ [];
        split = append_assoc b (k ∷ after) (j ∷ []);
        near = omega (arith, length-append after (j ∷ []));
      }

  push-IsRecent :
      (cap : ℕ) (q : List K) (k j : K) (n : ℕ)
      → IsRecent k n q
      → n + 1 < cap
      → IsRecent k (n + 1) (push cap q j).0
  push-IsRecent cap q k j n r room = rw r.split (push_split cap r.before k j r.after n r.near room)

  -- The key that was pushed is the last one, if it is new.
  push_self : (cap : ℕ) (q : List K) (k : K) → contains q k ≡ false → IsRecent k 0 (push cap q k).0
  unfolding push
  push_self cap q k new = rw new (record {
    before = if ltb cap (length q + 1) then tail q else q;
    after = [];
    split = refl;
    near = omega arith;
  })

module _ {K : Type 0} ⦃e : Eq K⦄ (h : HashSet K) where
  insert_all-IsRecent :
      (t : DedupTable h) (k : K) (n : ℕ) (ks : List K)
      → IsValid h t
      → IsRecent k n t.order
      → n + length ks < t.capacity
      → IsValid h (insert_all h t ks) × (contains (insert_all h t ks).order k ≡ true)
  unfolding insert_all
  insert_all-IsRecent t k n [] v r room = (v, contains_recent k n t.order r)
  insert_all-IsRecent t k n (j ∷ ks) v r room =
      let (o, b, c, v') = insert_refines h t j v in
      insert_all-IsRecent (insert h t j).0 k (n + 1) ks v'
        (rw o (push-IsRecent t.capacity t.order k j n r (omega arith))) (rw c (omega arith))

  -- On a valid table, a key that `insert` answers is new is answered to be a duplicate by every later
  -- call that fewer than `capacity` other calls separate from it.
  pub insert_window :
      (t : DedupTable h) (k : K) (ks : List K)
      → IsValid h t
      → (insert h t k).1 ≡ true
      → length ks < t.capacity
      → (insert h (insert_all h (insert h t k).0 ks) k).1 ≡ false
  insert_window t k ks v new room =
      let (o, b, c, v') = insert_refines h t k v in
      let fresh : contains t.order k ≡ false = unfold push in ground (arith, b) in
      let r : IsRecent k 0 (insert h t k).0.order = rw o (push_self t.capacity t.order k fresh) in
      let (v'', known) = insert_all-IsRecent (insert h t k).0 k 0 ks v' r (rw c (omega arith)) in
      let (o', b', c', w) = insert_refines h (insert_all h (insert h t k).0 ks) k v'' in
      unfold push in ground (arith, b', known)
