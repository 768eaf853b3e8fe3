-- ===== src/Fetcher/Cache/Store/Recall.antt =====
-- The memo of `load_rows` is bounded, and never changes what `load_rows` returns.
use flx.Fetcher.Cache.Rows.Safety.{decode_rows_total}
use flx.Base.{
  list_eq_iff, ℕ, ◌+◌, ◌-◌, ◌≤◌, ◌≡◌, ◌≢◌, refl, List, [], ◌∷◌, Option, none, some, length,
  if◌then◌else◌, ltb, nat_eq, arith, Bool-cases, inl, inr, List_eq, ℕ_eq,
}
use flx.Base.Bytes.{Bytes}
use flx.Base.Dict.{Dict, remove, lookup, lookup-insert, lookup-remove, length-insert}
use flx.Base.Outcome.{Outcome, returned, ◌>>=◌}
use flx.Fetcher.Cache.Rows.{Row, decode_rows}
use flx.Fetcher.Cache.Store.{
  keep, Memo, memo_max_entries, recall, remember, forget, Cache, cache_file_name, load_rows,
  matching, read_file,
}

-- The number of remembered files stays at most `MEMO_MAX_ENTRIES`.
pub remember_bound :
    (path : Bytes) (t : ℕ) (rows : List Row) (m : Memo)
    → length m.entries ≤ memo_max_entries
    → length (remember path t rows m).entries ≤ memo_max_entries
unfolding remember
remember_bound path t rows m h = ground (
  arith,
  length-insert {V = ℕ × List Row} path (t, rows) m.entries,
  length-insert {V = ℕ × List Row} path (t, rows) [],
)

-- `world path t` is the body of the file at `path` while its modification time was `t`.
module _ (world : Bytes → ℕ → Bytes) where
  -- What is remembered was decoded from that body.
  pub record IsCoherent (m : Memo) : Type 0 where
    pub decoded :
        (path : Bytes) (t : ℕ) (rows : List Row)
        → lookup path m.entries ≡ some (t, rows)
        → decode_rows (world path t) ≡ returned (some rows)
    pub nonempty : (path : Bytes) (t : ℕ) → lookup path m.entries ≢ some (t, [])

  -- What `load_rows` returns if it remembers nothing.
  abbrev pub nonempty_rows : Option (List Row) → Option (List Row)
  nonempty_rows none = none
  nonempty_rows (some []) = none
  nonempty_rows (some (r ∷ rows)) = some (r ∷ rows)

  unfoldable pub load_fresh : Cache → Bytes → ℕ → ℕ → Outcome (Option (List Row))
  load_fresh c url now t =
      if c.refresh
      then returned none
      else if ltb c.ttl (now - t)
      then returned none
      else do rows ← decode_rows (world (cache_file_name url) t); returned (nonempty_rows rows)

  abbrev Loads : Outcome (Option (List Row) × Memo) → Outcome (Option (List Row)) → Type 0
  Loads got want =
      (o : Option (List Row)) × (m : Memo) × (got ≡ returned (o, m))
      × (want ≡ returned o)
      × IsCoherent m

  lookup-nil : (p : Bytes) → lookup {V = ℕ × List Row} p [] ≡ none
  unfolding lookup
  lookup-nil p = refl

  remember-IsCoherent :
      (path : Bytes) (t : ℕ) (r : Row) (rows : List Row) (m : Memo)
      → decode_rows (world path t) ≡ returned (some (r ∷ rows))
      → IsCoherent m
      → IsCoherent (remember path t (r ∷ rows) m)
  unfolding remember
  remember-IsCoherent path t r rows m e h = record {
    decoded = λ p t' rows' q. ground (
      arith,
      lookup-insert {V = ℕ × List Row} path p (t, r ∷ rows) m.entries,
      lookup-insert {V = ℕ × List Row} path p (t, r ∷ rows) [],
      lookup-nil p,
      list_eq_iff path p,
      e,
      h.decoded p t' rows',
    );
    nonempty = λ p t' q. ground (
      arith,
      lookup-insert {V = ℕ × List Row} path p (t, r ∷ rows) m.entries,
      lookup-insert {V = ℕ × List Row} path p (t, r ∷ rows) [],
      lookup-nil p,
      h.nonempty p t',
    );
  }

  forget-IsCoherent : (path : Bytes) (m : Memo) → IsCoherent m → IsCoherent (forget path m)
  unfolding forget
  forget-IsCoherent path m h = record {
    decoded = λ p t rows e. ground (arith, lookup-remove path p m.entries, h.decoded p t rows);
    nonempty = λ p t e. ground (arith, lookup-remove path p m.entries, h.nonempty p t);
  }

  -- Reading the file, when the memo did not answer.
  read-Loads :
      (path : Bytes) (t : ℕ) (m : Memo) (o : Option (List Row))
      → decode_rows (world path t) ≡ returned o
      → IsCoherent m
      → Loads
          (read_file path t (some (world path t)) (none, m))
          (do rows ← decode_rows (world path t); returned (nonempty_rows rows))
  read-Loads path t m none e h = (none, m, rw e, rw e, h)
  read-Loads path t m (some []) e h = (none, m, rw e, rw e, h)
  read-Loads path t m (some (r ∷ rows)) e h = (
    some (r ∷ rows),
    remember path t (r ∷ rows) m,
    rw e,
    rw e,
    remember-IsCoherent path t r rows m e h,
  )

  Reads : Bytes → ℕ → Option (List Row) × Memo → Type 0
  Reads path t found =
      Loads (read_file path t (some (world path t)) found)
        (do rows ← decode_rows (world path t); returned (nonempty_rows rows))

  -- The memo has these rows for this file and time.
  hit_loads :
      (path : Bytes) (t : ℕ) (rows : List Row) (m m' : Memo)
      → lookup path m.entries ≡ some (t, rows)
      → IsCoherent m
      → IsCoherent m'
      → Reads path t (some rows, m')
  unfolding Reads
  hit_loads path t [] m m' e h h' = absurd (h.nonempty path t e)
  hit_loads path t (r ∷ rows) m m' e h h' =
      (some (r ∷ rows), m', refl, rw (h.decoded path t (r ∷ rows) e), h')

  matching_loads :
      (path : Bytes) (t : ℕ) (m : Memo) (found : Option (ℕ × List Row))
      → lookup path m.entries ≡ found
      → (o : Option (List Row)) → decode_rows (world path t) ≡ returned o
      → IsCoherent m
      → Reads path t (matching m t found)
  unfolding Reads
  matching_loads path t m none e o d h = read-Loads path t m o d h
  matching_loads path t m (some (c, rows)) e o d h = elim (Bool-cases (nat_eq c t)) [
    | inl same ↦
        let now : lookup path m.entries ≡ some (t, rows) = ground (arith, e, same) in
        rw same (
          unfold Reads in
          hit_loads path t rows m (record m { hits = m.hits + 1 }) now h
            (record { decoded = h.decoded; nonempty = h.nonempty }))
    | inr other ↦ rw other (read-Loads path t m o d h)
  ]

  -- The memo is transparent. If what is remembered was decoded from the files as they were at the
  -- remembered times, and the modification time still tells the body that is read, then `load_rows`
  -- returns, whatever the memo holds, the rows that decoding the file anew gives (none if the cache is
  -- refreshed, the file is older than the ttl, does not decode or has no row), and what it remembers
  -- then is again what the files decode to.
  pub load_rows-eq-load_fresh :
      (c : Cache) (url : Bytes) (now t : ℕ) (m : Memo)
      → IsCoherent m
      → (o : Option (List Row)) × (m' : Memo) × (load_rows c url now
            (some t)
            (some (world (cache_file_name url) t))
            m
          ≡ returned (o, m'))
        × (load_fresh c url now t ≡ returned o)
        × IsCoherent m'
  unfolding load_rows load_fresh recall Reads
  load_rows-eq-load_fresh c url now t m h = elim (Bool-cases c.refresh) [
    | inl again ↦ (none, m, rw again, rw again, h)
    | inr cached ↦ elim (Bool-cases (ltb c.ttl (now - t))) [
      | inl old ↦ (
        none,
        forget (cache_file_name url) m,
        rw (cached, old),
        rw (cached, old),
        forget-IsCoherent (cache_file_name url) m h,
      )
      | inr young ↦
          let path = cache_file_name url in
          let (o, d, room) = decode_rows_total (world path t) in
          rw (cached, young) (matching_loads path t m (lookup path m.entries) refl o d h)
    ]
  ]

read_file_bound :
    (path : Bytes) (t : ℕ) (body : Option Bytes) (found : Option (List Row) × Memo)
    → length found.1.entries ≤ memo_max_entries
    → (o : Option (List Row)) (m : Memo) → read_file path t body found ≡ returned (o, m)
    → length m.entries ≤ memo_max_entries
read_file_bound path t body (some rows, m') h o m e = ground arith
read_file_bound path t none (none, m') h o m e = ground arith
read_file_bound path t (some body) (none, m') h o m e =
    let (d, ed, room) = decode_rows_total body in keep_bound d (rw ed at e)
  where
    keep_bound :
        (d : Option (List Row))
        → ◌≡◌ {A = Outcome (Option (List Row) × Memo)}
            (returned (keep path t m' d))
            (returned (o, m))
        → length m.entries ≤ memo_max_entries
    keep_bound none q = ground arith
    keep_bound (some []) q = ground arith
    keep_bound (some (r ∷ rows)) q = ground (arith, remember_bound path t (r ∷ rows) m' h)

recall_entries : (path : Bytes) (t : ℕ) (m : Memo) → (recall path t m).1.entries ≡ m.entries
unfolding recall
recall_entries path t m = ground arith

length-remove : (k : Bytes) (m : Dict Bytes (ℕ × List Row)) → length (remove k m) ≤ length m
unfolding remove
length-remove k [] = omega arith
length-remove k ((j, w) ∷ m) = ground (arith, length-remove k m)

-- No call of `load_rows`, whatever the file system answers, leaves more than `MEMO_MAX_ENTRIES` files
-- in a memo that held at most so many.
pub load_rows_bound :
    (c : Cache) (url : Bytes) (now : ℕ) (modified : Option ℕ) (body : Option Bytes) (m : Memo)
    → length m.entries ≤ memo_max_entries
    → (o : Option (List Row)) (m' : Memo) → load_rows c url now modified body m ≡ returned (o, m')
    → length m'.entries ≤ memo_max_entries
unfolding load_rows forget
load_rows_bound c url now none body m h o m' e = ground arith
load_rows_bound c url now (some t) body m h o m' e = ground (
  arith,
  length-remove (cache_file_name url) m.entries,
  recall_entries (cache_file_name url) t m,
  λ (small : length (recall (cache_file_name url) t m).1.entries ≤ memo_max_entries).
      read_file_bound (cache_file_name url) t body (recall (cache_file_name url) t m) small o m',
)
