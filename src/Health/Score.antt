-- ===== src/Health/Score.antt =====
-- The range of a score.
use flx.Base.{◌≡◌, false, arith}
use flx.Health.{HealthStats, score_stats, speed_of, hundred}
use flx.Proxy.Float.{Float, clamp}

module _ (f : Float) where
  open f use {F, zero, lt}

  -- Neither below zero nor above one hundred.
  pub record InRange (x : F) : Type 0 where
    pub low : lt x zero ≡ false
    pub high : lt (hundred f) x ≡ false

  module _ (h : lt zero zero ≡ false) (i : lt (hundred f) (hundred f) ≡ false)
      (j : lt (hundred f) zero ≡ false) where
    clamp-InRange : (x : F) → InRange (clamp f x zero (hundred f))
    clamp-InRange x = record { low = ground arith; high = ground arith }

    -- If 0 < 0, 100 < 100 and 100 < 0 are false of the floats, then the speed and the total of every
    -- score are neither below 0 nor above 100, whatever the history holds.
    pub score_stats_bound :
        (s : HealthStats f) → InRange (score_stats f s).speed × InRange (score_stats f s).total
    unfolding score_stats speed_of
    score_stats_bound s = (clamp-InRange _, clamp-InRange _)
