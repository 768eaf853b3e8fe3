-- ===== src/Rotator/Pool/Tests.antt =====
-- A pool of proxies that are their own text.
use flx.Base.{◌≡◌, refl, [], ◌∷◌, Option, some, arith, list_eq, if◌then◌else◌, ℕ_eq}
use flx.Base.Bytes.{Bytes, codes}
use flx.Base.Outcome.{returned, index}
use flx.Rotator.Pool.{
  swap_remove, PoolEntry, RotatorPool, round_robin, fresh, add, report_success, report_failure,
  pick, is_available, position,
}
use flx.Rotator.Pool.Find.{find}
use flx.Rotator.Pool.View.{find-report_failure, after_failure}
use flx.Rotator.Pool.Invariant.{IsValid, methods-IsValid}
use flx.Rotator.Pool.Pick.{IsPicked, pick_lem}
use flx.Rotator.Pool.Rotation.{picks, rotating, picks-eq-rotation}

abbrev text : Bytes → Bytes
text p = p

abbrev first_proxy : Bytes
first_proxy = codes "1.2.3.4:80"

abbrev second_proxy : Bytes
second_proxy = codes "5.6.7.8:80"

abbrev tired : PoolEntry text
tired = record { proxy = second_proxy; failures = 2; cooldown_until = some 50 }

abbrev pool : RotatorPool text
pool = record { entries = fresh text first_proxy ∷ tired ∷ []; cursor = 7; strategy = round_robin }

-- The second entry fails for the third time, and goes.
third_failure :
    report_failure text 60 second_proxy pool
    ≡ returned (record pool { entries = fresh text first_proxy ∷ [] })
unfolding report_failure position index swap_remove
third_failure = refl

pool-IsValid : IsValid text pool
unfolding find
pool-IsValid = record { bound = omega arith; distinct = (refl, (refl, tt)); below = omega arith }

find-report_failure_example :
    (pool' : RotatorPool text) × (report_failure text 60 second_proxy pool ≡ returned pool')
    × ((u : Bytes)
        → find text u pool'.entries ≡ (
            if list_eq second_proxy u
            then after_failure text 60 (find text second_proxy pool.entries)
            else find text u pool.entries))
find-report_failure_example = find-report_failure text 60 second_proxy pool pool-IsValid.distinct

methods-IsValid_example :
    IsValid text (add text second_proxy pool).0
    × IsValid text (report_success text second_proxy pool)
    × ((pool' : RotatorPool text) × (report_failure text 60 second_proxy pool ≡ returned pool')
        × IsValid text pool')
methods-IsValid_example = methods-IsValid text 60 second_proxy pool pool-IsValid

pick_lem_example :
    (o : Option Bytes) × (pool' : RotatorPool text) × (pick text 40 0 pool ≡ returned (o, pool'))
    × (pool'.entries ≡ pool.entries)
    × IsPicked text 40 0 pool o
pick_lem_example = pick_lem text 40 0 pool

picks-eq-rotation_example :
    picks text 60 0 3 (rotating text pool.entries 7)
    ≡ returned (
      some second_proxy ∷ some first_proxy ∷ some second_proxy ∷ [],
      rotating text pool.entries 10,
    )
unfolding is_available
picks-eq-rotation_example =
    picks-eq-rotation text 60 0 3 7 pool.entries (omega arith) (refl, (refl, tt)) (omega arith)
