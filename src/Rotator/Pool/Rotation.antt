-- ===== src/Rotator/Pool/Rotation.antt =====
-- Round robin over a pool that cools nothing down.
use flx.Base.{
  ℕ, zero, suc, ◌+◌, ◌%◌, ◌^◌, ◌<◌, ◌≡◌, ap, true, false, List, [], ◌∷◌, Option, none, some, arith,
  length, get_elem?, get_elem?-of_lt, nat_eq,
}
use flx.Base.Bytes.{Bytes}
use flx.Base.Outcome.{Outcome, returned, ◌>>=◌, index}
use flx.Rotator.Pool.{
  PoolEntry, RotatorPool, round_robin, is_available, find_available, start_of, pick,
}

module _ {P : Type 0} (as_text : P → Bytes) where
  -- The picks of `n` connections in a row, and the pool after them.
  pub picks : ℕ → ℕ → ℕ → RotatorPool as_text → Outcome (List (Option P) × RotatorPool as_text)
  picks now chance zero pool = returned ([], pool)
  picks now chance (suc n) pool = do
    first ← pick as_text now chance pool
    rest ← picks now chance n first.1
    returned (first.0 ∷ rest.0, rest.1)

  abbrev pub proxy_at : List (PoolEntry as_text) → ℕ → Option P
  proxy_at entries i = elim (get_elem? entries i) [ none ↦ none | some e ↦ some e.proxy ]

  proxy_at-some :
      (entries : List (PoolEntry as_text)) (i : ℕ) (e : PoolEntry as_text)
      → get_elem? entries i ≡ some e
      → proxy_at entries i ≡ some e.proxy
  proxy_at-some entries i e at = ground (arith, at)

  -- The proxies of `n` entries from the cursor on, in their order, going round.
  abbrev pub rotation : List (PoolEntry as_text) → ℕ → ℕ → List (Option P)
  rotation entries cursor zero = []
  rotation entries cursor (suc n) =
      proxy_at entries (cursor % length entries) ∷ rotation entries (cursor + 1) n

  find_first :
      (now : ℕ) (entries : List (PoolEntry as_text)) (start left : ℕ) (e : PoolEntry as_text)
      → get_elem? entries (start % length entries) ≡ some e
      → is_available as_text now e ≡ true
      → find_available as_text now entries start (length entries) (suc left) 0
        ≡ returned (some e.proxy)
  unfolding find_available index
  find_first now entries start left e at on =
      let i : (start + 0) % length entries ≡ start % length entries =
        ap (λ x. x % length entries) (omega arith) in
      rw (i, at) (ground (arith, on))

  -- A pool that rotates, at a cursor.
  abbrev pub rotating : List (PoolEntry as_text) → ℕ → RotatorPool as_text
  rotating entries cursor = record { entries = entries; cursor = cursor; strategy = round_robin }

  abbrev pub AllAvailable : ℕ → List (PoolEntry as_text) → Type 0
  AllAvailable now [] = Unit
  AllAvailable now (e ∷ entries) = (is_available as_text now e ≡ true) × AllAvailable now entries

  available_at :
      (now : ℕ) (entries : List (PoolEntry as_text)) (i : ℕ) (e : PoolEntry as_text)
      → AllAvailable now entries
      → get_elem? entries i ≡ some e
      → is_available as_text now e ≡ true
  available_at now [] i e h at = cc
  available_at now (x ∷ xs) zero e h at = cc (h.0)
  available_at now (x ∷ xs) (suc i) e h at = available_at now xs i e h.1 at

  pick_first :
      (now chance : ℕ) (x : PoolEntry as_text) (xs : List (PoolEntry as_text)) (cursor : ℕ)
      (e : PoolEntry as_text)
      → get_elem? (x ∷ xs) (cursor % length (x ∷ xs)) ≡ some e
      → is_available as_text now e ≡ true
      → cursor + 1 < 2 ^ 64
      → pick as_text now chance (rotating (x ∷ xs) cursor)
        ≡ returned (some e.proxy, rotating (x ∷ xs) (cursor + 1))
  unfolding pick start_of
  pick_first now chance x xs cursor e at on room =
      let start = cursor % length (x ∷ xs) in
      let again : get_elem? (x ∷ xs) (start % length (x ∷ xs)) ≡ some e =
        rw (mod_mod cursor (length (x ∷ xs))) at in
      let wrap : (cursor + 1) % 2 ^ 64 ≡ cursor + 1 = omega arith in
      let nonempty : nat_eq (length (x ∷ xs)) 0 ≡ false = ground arith in
      rw (nonempty, find_first now (x ∷ xs) start (length xs) e again on, wrap)
    where
      mod_mod : (a n : ℕ) → a % n % n ≡ a % n
      mod_mod a n = grind arith

  picks_turn :
      (now chance n cursor : ℕ) (x : PoolEntry as_text) (xs : List (PoolEntry as_text))
      (e : PoolEntry as_text)
      → get_elem? (x ∷ xs) (cursor % length (x ∷ xs)) ≡ some e
      → is_available as_text now e ≡ true
      → cursor + 1 < 2 ^ 64
      → picks now chance n (rotating (x ∷ xs) (cursor + 1))
        ≡ returned (rotation (x ∷ xs) (cursor + 1) n, rotating (x ∷ xs) (cursor + 1 + n))
      → picks now chance (suc n) (rotating (x ∷ xs) cursor)
        ≡ returned (rotation (x ∷ xs) cursor (suc n), rotating (x ∷ xs) (cursor + suc n))
  unfolding picks
  picks_turn now chance n cursor x xs e at on room ih =
      let moved : cursor + 1 + n ≡ cursor + suc n = omega arith in
      let here : proxy_at (x ∷ xs) (cursor % length (x ∷ xs)) ≡ some e.proxy =
        proxy_at-some (x ∷ xs) (cursor % length (x ∷ xs)) e at in
      rw (pick_first now chance x xs cursor e at on room, ih, moved, here)

  -- While no entry cools down and the cursor does not wrap, `n` picks under round robin return the
  -- proxies of `n` entries one after the other, from the cursor on and going round the pool, and move
  -- the cursor on by `n`.
  pub picks-eq-rotation :
      (now chance n cursor : ℕ) (entries : List (PoolEntry as_text))
      → 0 < length entries
      → AllAvailable now entries
      → cursor + n < 2 ^ 64
      → picks now chance n (rotating entries cursor)
        ≡ returned (rotation entries cursor n, rotating entries (cursor + n))
  unfolding picks
  picks-eq-rotation now chance zero cursor entries pos h room =
      ap (λ c. returned ([], rotating entries c)) (omega arith)
  picks-eq-rotation now chance (suc n) cursor [] pos h room = absurd (omega arith)
  picks-eq-rotation now chance (suc n) cursor (x ∷ xs) pos h room =
      let (e, at) = get_elem?-of_lt (x ∷ xs) (cursor % length (x ∷ xs)) (omega arith) in
      picks_turn now chance n cursor x xs e at (available_at now (x ∷ xs) _ e h at) (omega arith)
        (picks-eq-rotation now chance n (cursor + 1) (x ∷ xs) pos h (omega arith))
