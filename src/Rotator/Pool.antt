-- ===== src/Rotator/Pool.antt =====
-- src/rotator/pool.rs: the pool that the serve connections share. Each method takes the lock, so it is
-- one step on the whole state. `now` is `Instant::now()`, in nanoseconds, and `chance` the hash that
-- `random_below` draws.
pub mod Entries
pub mod Invariant
pub mod Find
pub mod View
pub mod Pick
pub mod Rotation
mod Tests
use flx.Base.{
  ℕ, zero, suc, ◌+◌, ◌-◌, ◌*◌, ◌%◌, ◌^◌, Bool, true, false, ◌||◌, List, [], ◌∷◌, ◌++◌, Option, none,
  some, if◌then◌else◌, any, filter, nat_eq, length, ltb, leb, list_eq, set, ℕ_eq,
}
use flx.Base.Bytes.{Bytes}
use flx.Base.Outcome.{Outcome, returned, panicked, ◌>>=◌, index}

-- `MAX_POOL_SIZE`, `MAX_CONSECUTIVE_FAILURES`, `COOLDOWN` of src/rotator/mod.rs.
abbrev pub max_pool_size : ℕ
max_pool_size = 25

abbrev pub max_consecutive_failures : ℕ
max_consecutive_failures = 3

abbrev pub cooldown : ℕ
cooldown = 60 * 1_000_000_000

pub data Strategy : Type 0 where
  round_robin random : Strategy

-- `P` is `Proxy`, of which the pool reads `as_text` alone.
module _ {P : Type 0} (as_text : P → Bytes) where
  pub record PoolEntry : Type 0 where
    pub proxy : P
    pub failures : ℕ
    pub cooldown_until : Option ℕ

  unfoldable pub is_available : ℕ → PoolEntry → Bool
  is_available now e = elim e.cooldown_until [ none ↦ true | some until ↦ leb until now ]

  pub record RotatorPool : Type 0 where
    pub entries : List PoolEntry
    pub cursor : ℕ
    pub strategy : Strategy

  unfoldable pub new : Strategy → RotatorPool
  new strategy = record { entries = []; cursor = 0; strategy = strategy }

  abbrev pub has_text : Bytes → PoolEntry → Bool
  has_text text e = list_eq (as_text e.proxy) text

  abbrev pub fresh : P → PoolEntry
  fresh proxy = record { proxy = proxy; failures = 0; cooldown_until = none }

  unfoldable pub add : P → RotatorPool → RotatorPool × Bool
  add proxy pool =
      if leb max_pool_size (length pool.entries)
      then (pool, false)
      else if any (has_text (as_text proxy)) pool.entries
      then (pool, false)
      else (record pool { entries = pool.entries ++ fresh proxy ∷ [] }, true)

  unfoldable pub len : RotatorPool → ℕ
  len pool = length pool.entries

  unfoldable pub is_empty : RotatorPool → Bool
  unfolding len
  is_empty pool = nat_eq (len pool) 0

  unfoldable pub ready : ℕ → RotatorPool → ℕ
  ready now pool = length (filter (is_available now) pool.entries)

  unfoldable pub random_below : ℕ → ℕ → ℕ
  random_below chance total = chance % total

  -- `(0..total).find_map(…)` from `offset` on, with `left` offsets to go.
  unfoldable pub find_available : ℕ → List PoolEntry → ℕ → ℕ → ℕ → ℕ → Outcome (Option P)
  find_available now entries start total zero offset = returned none
  find_available now entries start total (suc left) offset = do
    entry ← index entries ((start + offset) % total)
    elim (is_available now entry) [
      | true ↦ returned (some entry.proxy)
      | false ↦ find_available now entries start total left (offset + 1)
    ]

  -- Where a pick starts; `fetch_add` on the `usize` cursor wraps.
  unfoldable pub start_of : ℕ → RotatorPool → Strategy → ℕ × RotatorPool
  unfolding random_below
  start_of chance pool random = (random_below chance (length pool.entries), pool)
  start_of chance pool round_robin =
      (pool.cursor % length pool.entries, record pool { cursor = (pool.cursor + 1) % 2 ^ 64 })

  unfoldable pub pick : ℕ → ℕ → RotatorPool → Outcome (Option P × RotatorPool)
  pick now chance pool = if nat_eq (length pool.entries) 0 then returned (none, pool) else (do
    let total = length pool.entries
    let found = start_of chance pool pool.strategy
    proxy ← find_available now pool.entries found.0 total total 0
    returned (proxy, found.1))

  -- `iter_mut().find(…)` and the update of what it finds.
  unfoldable pub update_first : Bytes → (PoolEntry → PoolEntry) → List PoolEntry → List PoolEntry
  update_first text g [] = []
  update_first text g (e ∷ entries) =
      if has_text text e then g e ∷ entries else e ∷ update_first text g entries

  abbrev pub healthy : PoolEntry → PoolEntry
  healthy e = record e { failures = 0; cooldown_until = none }

  unfoldable pub report_success : P → RotatorPool → RotatorPool
  report_success proxy pool = record pool {
    entries = update_first (as_text proxy) healthy pool.entries;
  }

  unfoldable pub position : Bytes → List PoolEntry → Option ℕ
  position text [] = none
  position text (e ∷ entries) =
      if has_text text e
      then some 0
      else elim (position text entries) [ none ↦ none | some i ↦ some (suc i) ]

  -- The last entry and those before it; then `Vec::swap_remove`.
  unfoldable pub split_last : PoolEntry → List PoolEntry → PoolEntry × List PoolEntry
  split_last e [] = (e, [])
  split_last e (e' ∷ entries) = let (l, before) = split_last e' entries in (l, e ∷ before)

  unfoldable pub swap_remove : List PoolEntry → ℕ → List PoolEntry
  swap_remove [] i = []
  swap_remove (e ∷ []) zero = []
  swap_remove (e ∷ e' ∷ entries) zero = let (l, before) = split_last e' entries in l ∷ before
  swap_remove (e ∷ entries) (suc i) = e ∷ swap_remove entries i

  -- The entry at the position, after one more failure.
  abbrev pub failed : ℕ → PoolEntry → PoolEntry
  failed now e = record e { failures = e.failures + 1; cooldown_until = some (now + cooldown) }

  abbrev pub fail_at : ℕ → RotatorPool → ℕ → PoolEntry → RotatorPool
  fail_at now pool i e =
      if leb max_consecutive_failures (e.failures + 1)
      then record pool { entries = swap_remove pool.entries i }
      else record pool { entries = set pool.entries i (failed now e) }

  unfoldable pub report_failure : ℕ → P → RotatorPool → Outcome RotatorPool
  report_failure now proxy pool = elim (position (as_text proxy) pool.entries) [
    | none ↦ returned pool
    | some i ↦ (do e ← index pool.entries i; returned (fail_at now pool i e))
  ]
