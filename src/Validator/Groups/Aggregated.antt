-- ===== src/Validator/Groups/Aggregated.antt =====
-- The aggregator after each message, against what the messages so far say.
use flx.Proxy.Float.{Float}
use flx.Validator.Groups.{idle, aggregate_groups, GroupKey_eq, Aggregator, GroupKey}
use flx.Validator.Groups.History.{merged, completed, IsHistory, Message}
use flx.Base.{Bool, refl, [], arith, ◌∷◌, ◌≡◌, Option, List, ℕ}
use flx.Base.Outcome.{returned}
use flx.Base.Dict.{Dict, lookup}
use flx.Validator.Groups.Missing.{missing_none}
use flx.Validator.Groups.Open.{IsAggregated}
use flx.Validator.Groups.Receive.{receive_lem}

module _ (f : Float) where
  idle-IsAggregated :
      (size : GroupKey → ℕ) (dead : Option (Dict GroupKey Bool))
      → IsAggregated f size [] (idle f dead)
  unfolding lookup completed merged
  idle-IsAggregated size dead = record {
    entries = λ k. ground (arith, missing_none f k (size k));
    done = refl;
    sent = refl;
    passed = refl;
  }

  -- The messages from the first to the last, on top of a history.
  abbrev pub history : List (Message f) → List (Message f) → List (Message f)
  history past [] = past
  history past (m ∷ rest) = history (m ∷ past) rest

  IsHistory-before :
      (size : GroupKey → ℕ) (rest past : List (Message f))
      → IsHistory f size (history past rest)
      → IsHistory f size past
  unfolding IsHistory
  IsHistory-before size [] past h = h
  IsHistory-before size (m ∷ rest) past h = (IsHistory-before size rest (m ∷ past) h).1.1.1.1

  aggregate_from :
      (size : GroupKey → ℕ) (rest past : List (Message f)) (a : Aggregator f)
      → IsHistory f size (history past rest)
      → IsAggregated f size past a
      → (a' : Aggregator f) × ((aggregate_groups f rest a ≡ returned a')
          × IsAggregated f size (history past rest) a')
  unfolding aggregate_groups
  aggregate_from size [] past a h g = (a, (refl, g))
  aggregate_from size ((health, m) ∷ rest) past a h g =
      let (a', (e, g')) =
        receive_lem f size health m past a (IsHistory-before size rest ((health, m) ∷ past) h) g in
      let (b, (e', g'')) = aggregate_from size rest ((health, m) ∷ past) a' h g' in
      (b, (rw e e', g''))

  -- Whatever the order in which the members of the groups report, each once and with a place in its
  -- group, the aggregator does not panic, and after the messages of any run: it has sent, in the order
  -- in which the groups completed, one proxy for each completed group that merges (what `group_finish`
  -- gives for the members' own results), and nothing else; it has counted the completed groups as done
  -- and those proxies as passed; and it holds a state exactly for the groups of which some members, but
  -- not all, have reported, with the results so far.
  pub aggregate_groups_lem :
      (size : GroupKey → ℕ) (messages : List (Message f)) (dead : Option (Dict GroupKey Bool))
      → IsHistory f size (history [] messages)
      → (a : Aggregator f) × ((aggregate_groups f messages (idle f dead) ≡ returned a)
          × IsAggregated f size (history [] messages) a)
  aggregate_groups_lem size messages dead h =
      aggregate_from size messages [] (idle f dead) h (idle-IsAggregated size dead)
