-- ===== src/Health/History.antt =====
-- The entry of an endpoint, and the records about that endpoint.
use flx.Base.{
  ℕ, suc, ◌+◌, ◌≤◌, ◌≡◌, refl, Bool, List, [], ◌∷◌, Option, none, some, if◌then◌else◌, filter,
  length, ltb, arith,
}
use flx.Base.Dict.{lookup, lookup-insert}
use flx.Health.{
  endpoint_eq_iff, Endpoint, Endpoint_eq, endpoint_eq, HealthStats, HealthRecord, State,
  apply_record, apply_all, update, or_default, no_history, stats, endpoint, u64_max, saturating_add,
  better,
}
use flx.Proxy.Float.{Float}
use flx.Proxy.Protocol.{Anonymity, rank}

abbrev pub smaller : ℕ → ℕ → ℕ
smaller a b = if ltb b a then b else a

abbrev pub larger : ℕ → ℕ → ℕ
larger a b = if ltb a b then b else a

-- No level is below every level.
abbrev pub level_rank : Option Anonymity → ℕ
level_rank none = 0
level_rank (some a) = suc (rank a)

module _ (f : Float) where
  abbrev pub about : Endpoint → HealthRecord f → Bool
  about at r = endpoint_eq (endpoint f r) at

  abbrev pub count_successes : List (HealthRecord f) → ℕ
  count_successes [] = 0
  count_successes (r ∷ rs) = if r.success then suc (count_successes rs) else count_successes rs

  abbrev pub count_failures : List (HealthRecord f) → ℕ
  count_failures [] = 0
  count_failures (r ∷ rs) = if r.success then count_failures rs else suc (count_failures rs)

  -- The highest rank that a success observed.
  abbrev pub best_rank : List (HealthRecord f) → ℕ
  best_rank [] = 0
  best_rank (r ∷ rs) =
      if r.success then larger (level_rank r.anonymity) (best_rank rs) else best_rank rs

  -- What the entry of an endpoint says of the records about it; no entry, no record.
  pub record Summary (e : HealthStats f) (rs : List (HealthRecord f)) : Type 0 where
    pub some_record : 1 ≤ length rs
    pub successes : e.successes ≡ smaller (count_successes rs) u64_max
    pub failures : e.failures ≡ smaller (count_failures rs) u64_max
    pub best : level_rank e.anonymity ≡ best_rank rs

  abbrev pub IsHistory : Option (HealthStats f) → List (HealthRecord f) → Type 0
  IsHistory none rs = rs ≡ []
  IsHistory (some e) rs = Summary e rs

  abbrev update_all : HealthStats f → List (HealthRecord f) → HealthStats f
  update_all e [] = e
  update_all e (r ∷ rs) = update_all (update f e r) rs

  abbrev present : Option (HealthStats f) → List (HealthRecord f) → Option (HealthStats f)
  present o [] = o
  present o (r ∷ rs) = some (update_all (or_default f o) (r ∷ rs))

  present_next :
      (o : Option (HealthStats f)) (r : HealthRecord f) (rs : List (HealthRecord f))
      → present (some (update f (or_default f o) r)) rs ≡ present o (r ∷ rs)
  present_next o r [] = refl
  present_next o r (r' ∷ rs) = refl

  lookup-apply_record :
      (at : Endpoint) (s : State f) (r : HealthRecord f)
      → lookup at (apply_record f s r)
        ≡ (if about at r then some (update f (or_default f (lookup at s)) r) else lookup at s)
  unfolding apply_record
  lookup-apply_record at s r =
      let new = update f (or_default f (lookup (endpoint f r) s)) r in
      ground (arith, lookup-insert (endpoint f r) at new s, endpoint_eq_iff (endpoint f r) at)

  lookup-apply_all :
      (at : Endpoint) (s : State f) (rs : List (HealthRecord f))
      → lookup at (apply_all f s rs) ≡ present (lookup at s) (filter (about at) rs)
  unfolding apply_all
  lookup-apply_all at s [] = refl
  lookup-apply_all at s (r ∷ rs) = ground (
    arith,
    lookup-apply_all at (apply_record f s r) rs,
    lookup-apply_record at s r,
    present_next (lookup at s) r (filter (about at) rs),
  )

  level_rank-better :
      (c a : Option Anonymity) → level_rank (better f c a) ≡ larger (level_rank a) (level_rank c)
  unfolding better rank
  level_rank-better c a = ground arith

  -- One record on the counters and on the best level.
  update-Summary :
      (e : HealthStats f) (r : HealthRecord f)
      → e.successes ≤ u64_max
      → e.failures ≤ u64_max
      → ((update f e r).successes ≡ smaller (e.successes + count_successes (r ∷ [])) u64_max)
        × ((update f e r).failures ≡ smaller (e.failures + count_failures (r ∷ [])) u64_max)
        × (level_rank (update f e r).anonymity
            ≡ larger (best_rank (r ∷ [])) (level_rank e.anonymity))
  unfolding update saturating_add
  update-Summary e r h i =
      (ground arith, ground arith, ground (arith, level_rank-better e.anonymity r.anonymity))

  update_all-Summary :
      (e : HealthStats f) (rs : List (HealthRecord f))
      → e.successes ≤ u64_max
      → e.failures ≤ u64_max
      → ((update_all e rs).successes ≡ smaller (e.successes + count_successes rs) u64_max)
        × ((update_all e rs).failures ≡ smaller (e.failures + count_failures rs) u64_max)
        × (level_rank (update_all e rs).anonymity ≡ larger (best_rank rs) (level_rank e.anonymity))
  update_all-Summary e [] h i = (ground arith, ground arith, ground arith)
  update_all-Summary e (r ∷ rs) h i =
      let (a, b, c) = update-Summary e r h i in
      let (a', b', c') =
        update_all-Summary (update f e r) rs (ground (arith, a)) (ground (arith, b)) in
      (ground (arith, a, a'), ground (arith, b, b'), ground (arith, c, c'))

  present-IsHistory : (rs : List (HealthRecord f)) → IsHistory (present none rs) rs
  present-IsHistory [] = refl
  present-IsHistory (r ∷ rs) =
      let (a, b, c) = update_all-Summary (no_history f) (r ∷ rs) (omega arith) (omega arith) in
      record {
        some_record = omega arith;
        successes = ground (arith, a);
        failures = ground (arith, b);
        best = ground (arith, c);
      }

  -- After any records, applied to an empty state, an endpoint has an entry exactly if a record is about
  -- it. The entry counts the successes and the failures about that endpoint alone, each up to the
  -- largest u64, and its anonymity has the highest rank that a success about it observed.
  pub stats-IsHistory :
      (at : Endpoint) (rs : List (HealthRecord f))
      → IsHistory (stats f at (apply_all f [] rs)) (filter (about at) rs)
  unfolding stats lookup
  stats-IsHistory at rs = rw (lookup-apply_all at [] rs) (present-IsHistory (filter (about at) rs))
