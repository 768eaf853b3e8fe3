-- ===== src/Validator/JudgePool/Average.antt =====
-- The moving average of the answer times.
use flx.Base.{ℕ, ◌^◌, ◌<◌, ◌≤◌, if◌then◌else◌, ltb, arith}
use flx.Validator.JudgePool.{next_average}

abbrev pub smaller : ℕ → ℕ → ℕ
smaller a b = if ltb b a then b else a

abbrev pub larger : ℕ → ℕ → ℕ
larger a b = if ltb a b then b else a

-- After a measured answer of at least one millisecond, with both times below 2 ^ 60 milliseconds, the
-- average lies between the last average and the new time, so it is not the zero of an unmeasured
-- judge.
pub next_average_bound :
    (prev elapsed_ms : ℕ)
    → 1 ≤ prev
    → 1 ≤ elapsed_ms
    → prev < 2 ^ 60
    → elapsed_ms < 2 ^ 60
    → (smaller prev elapsed_ms ≤ next_average prev elapsed_ms)
      × (next_average prev elapsed_ms ≤ larger prev elapsed_ms)
unfolding next_average
next_average_bound prev elapsed_ms h i j k = (ground arith, ground arith)
