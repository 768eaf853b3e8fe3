-- ===== src/Validator/JudgePool/Tests.antt =====
-- Two judges, one of them in cooldown.
use flx.Base.{ℕ, ◌≡◌, refl, [], ◌∷◌}
use flx.Validator.JudgePool.{Judge, JudgePool, candidates, report_failure, next_average}
use flx.Validator.JudgePool.Candidates.{Offers, candidates_lem}

abbrev fast : Judge ℕ
fast = record { target = 1; cooldown_until_ms = 0; rtt_ema_ms = 20 }

abbrev slow : Judge ℕ
slow = record { target = 2; cooldown_until_ms = 0; rtt_ema_ms = 90 }

abbrev pool : JudgePool ℕ
pool = record { judges = slow ∷ fast ∷ []; cursor = 0 }

candidates_lem_example : Offers 7 pool (candidates 7 pool)
candidates_lem_example = candidates_lem 7 pool

-- A judge that failed is offered again when its cooldown is over.
abbrev after_failure : JudgePool ℕ
after_failure = record pool { judges = slow ∷ record fast { cooldown_until_ms = 30_007 } ∷ [] }

fails : report_failure 7 1 pool ≡ after_failure
unfolding report_failure
fails = refl

averages : next_average 20 90 ≡ 41
unfolding next_average
averages = refl
