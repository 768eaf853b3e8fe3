-- ===== src/Validator/JudgePool.antt =====
-- src/validator/checker/judge_pool.rs: the judges that answer probes. The health of a judge is shared by
-- every holder of the judge, so a report changes it in the pool; a judge is named by its place. The
-- clock is in milliseconds since the pool was made.
pub mod Candidates
pub mod Average
mod Tests
use flx.Base.{
  ℕ, zero, suc, ◌+◌, ◌-◌, ◌*◌, ◌/◌, ◌%◌, ◌^◌, Bool, List, [], ◌∷◌, ◌++◌, if◌then◌else◌, nat_eq, leb,
  length, filter, set,
}
use flx.Base.Outcome.{Outcome, returned, ◌>>=◌, index}
use flx.Filters.Sort.{Comparison, compare_nat, sort_by}

-- `JUDGE_FAILURE_COOLDOWN`
abbrev pub judge_failure_cooldown : ℕ
judge_failure_cooldown = 30 * 1000

-- `T` is what a `ValidationTarget` holds besides its health.
pub record Judge (T : Type 0) : Type 0 where
  pub target : T
  pub cooldown_until_ms : ℕ
  pub rtt_ema_ms : ℕ

pub record JudgePool (T : Type 0) : Type 0 where
  pub judges : List (Judge T)
  pub cursor : ℕ

module _ {T : Type 0} where
  pub empty : JudgePool T
  empty = record { judges = []; cursor = 0 }

  pub append : Judge T → JudgePool T → JudgePool T
  append judge pool = record pool { judges = pool.judges ++ judge ∷ [] }

  pub from_targets : List (Judge T) → JudgePool T
  from_targets targets = record { judges = targets; cursor = 0 }

  abbrev pub is_healthy : ℕ → Judge T → Bool
  is_healthy now_ms judge = leb judge.cooldown_until_ms now_ms

  -- An unmeasured judge sorts last, by `u64::MAX`.
  abbrev pub key : Judge T → ℕ
  key judge = if nat_eq judge.rtt_ema_ms 0 then 2 ^ 64 - 1 else judge.rtt_ema_ms

  abbrev pub by_key : Judge T → Judge T → Comparison
  by_key a b = compare_nat (key a) (key b)

  -- With no healthy judge, the next one of all in turn; `fetch_add` wraps.
  pub fallback : List (Judge T) → JudgePool T → Outcome (List (Judge T) × JudgePool T)
  fallback (j ∷ healthy) pool = returned (j ∷ healthy, pool)
  fallback [] pool = if nat_eq (length pool.judges) 0 then returned ([], pool) else (do
    judge ← index pool.judges (pool.cursor % length pool.judges)
    returned (judge ∷ [], record pool { cursor = (pool.cursor + 1) % 2 ^ 64 }))

  pub candidates : ℕ → JudgePool T → Outcome (List (Judge T) × JudgePool T)
  unfolding fallback
  candidates now_ms pool = do
    found ← fallback (filter (is_healthy now_ms) pool.judges) pool
    returned (sort_by by_key found.0, found.1)

  abbrev update_at : (Judge T → Judge T) → ℕ → List (Judge T) → List (Judge T)
  update_at g i [] = []
  update_at g zero (j ∷ judges) = g j ∷ judges
  update_at g (suc i) (j ∷ judges) = j ∷ update_at g i judges

  pub report_failure : ℕ → ℕ → JudgePool T → JudgePool T
  report_failure elapsed_ms i pool = record pool {
    judges =
        update_at
          (λ (j : Judge T). record j { cooldown_until_ms = elapsed_ms + judge_failure_cooldown }) i
          pool.judges;
  }

-- The moving average, in `u64`.
pub next_average : ℕ → ℕ → ℕ
next_average prev elapsed_ms =
    if nat_eq prev 0
    then elapsed_ms
    else (prev * 7 % 2 ^ 64 + elapsed_ms * 3 % 2 ^ 64) % 2 ^ 64 / 10

module _ {T : Type 0} where
  abbrev measured : ℕ → Judge T → Judge T
  measured elapsed_ms j = record j { rtt_ema_ms = next_average j.rtt_ema_ms elapsed_ms }

  pub report_success : ℕ → ℕ → JudgePool T → JudgePool T
  report_success elapsed_ms i pool =
      if nat_eq elapsed_ms 0
      then pool
      else record pool { judges = update_at (measured elapsed_ms) i pool.judges }
