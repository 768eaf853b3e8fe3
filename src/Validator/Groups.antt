-- ===== src/Validator/Groups.antt =====
-- src/validator/work.rs: the results of the members of a group, which arrive in any order, put together.
pub mod History
pub mod Missing
pub mod Open
pub mod Receive
pub mod Live
pub mod Aggregated
mod Tests
use flx.Base.{
  ℕ, zero, suc, ◌+◌, ◌-◌, ◌%◌, ◌^◌, ◌≡◌, ◌↔◌, Bool, true, false, ◌&&◌, List, [], ◌∷◌, ◌++◌, Eq,
  Option, none, some, if◌then◌else◌, nat_eq, is_some, all, replicate, set, length, ltb, arith,
}
use flx.Base.Dict.{Dict, lookup, insert, remove}
use flx.Base.Outcome.{Outcome, returned, panicked, ◌>>=◌, index}
use flx.Proxy.Address.{Ipv4Addr}
use flx.Proxy.Float.{Float}
use flx.Proxy.Model.{Proxy, ProxyType, RuntimeStats, HealthScore, no_samples, record_sample, avg}

pub record GroupKey : Type 0 where
  pub proxy_id : ℕ
  pub group_idx : ℕ

abbrev pub group_key_eq : GroupKey → GroupKey → Bool
group_key_eq x y = nat_eq x.proxy_id y.proxy_id && nat_eq x.group_idx y.group_idx

pub group_key_eq_iff : (x y : GroupKey) → (group_key_eq x y ≡ true) ↔ (x ≡ y)
group_key_eq_iff x y = ground arith

instance abbrev pub GroupKey_eq : Eq GroupKey
GroupKey_eq = record { beq = group_key_eq; beq_iff = group_key_eq_iff }

module _ (f : Float) where
  open f use {F, lt}

  pub record GroupWorkResult : Type 0 where
    pub key : GroupKey
    pub slot : ℕ
    pub group_len : ℕ
    pub proxy : Option (Proxy f)

  pub record GroupState : Type 0 where
    pub remaining : ℕ
    pub results : List (Option (Proxy f))

  -- `into_iter().flatten()`
  unfoldable pub flatten : List (Option (Proxy f)) → List (Proxy f)
  flatten [] = []
  flatten (none ∷ results) = flatten results
  flatten (some p ∷ results) = p ∷ flatten results

  -- The first validated type of each slot.
  abbrev first_type : List (ProxyType f) → List (ProxyType f)
  first_type [] = []
  first_type (t ∷ types) = t ∷ []

  unfoldable pub first_types : List (Proxy f) → List (ProxyType f)
  first_types [] = []
  first_types (p ∷ slots) = first_type p.proxy_types ++ first_types slots

  -- The averages above zero are the samples of the merged proxy.
  unfoldable pub record_slots : RuntimeStats f → List (Proxy f) → RuntimeStats f
  record_slots runtimes [] = runtimes
  record_slots runtimes (p ∷ slots) =
      record_slots
        (if lt f.zero (avg f p.runtimes)
          then record_sample f runtimes (avg f p.runtimes)
          else runtimes)
        slots

  unfoldable pub merge : List (Proxy f) → Proxy f → Proxy f
  unfolding first_types record_slots
  merge slots first = record first {
    proxy_types = first_types slots;
    runtimes = record_slots (no_samples f) slots;
  }

  unfoldable pub group_finish : List (Option (Proxy f)) → Outcome (Option (Proxy f))
  group_finish results =
      if all is_some results
      then (do first ← index (flatten results) 0; returned (some (merge (flatten results) first)))
      else returned none

  -- The health store, if there is one, as the score that it gives to an endpoint when a message is
  -- handled.
  abbrev pub Health : Type 0
  Health = Option (Ipv4Addr → ℕ → Option (HealthScore f))

  unfoldable pub scored : Health → Proxy f → Proxy f
  scored none proxy = proxy
  scored (some score) proxy = record proxy { health_score = score proxy.ip proxy.port }

  -- The task, with the two counters of the progress, the map of the dead groups, if there is one, and
  -- what it has sent.
  pub record Aggregator : Type 0 where
    pub states : Dict GroupKey GroupState
    pub dead : Option (Dict GroupKey Bool)
    pub done : ℕ
    pub passed : ℕ
    pub sent : List (Proxy f)

  abbrev pub new_state : Option GroupState → ℕ → GroupState
  new_state none group_len = record { remaining = group_len; results = replicate group_len none }
  new_state (some state) group_len = state

  abbrev pub forget : GroupKey → Option (Dict GroupKey Bool) → Option (Dict GroupKey Bool)
  forget key none = none
  forget key (some dead) = some (remove key dead)

  unfoldable pub emit : Health → Option (Proxy f) → Aggregator → Aggregator
  unfolding scored
  emit health none a = a
  emit health (some proxy) a = record a {
    passed = a.passed + 1;
    sent = a.sent ++ scored health proxy ∷ [];
  }

  -- `entry.results[slot] = proxy`
  unfoldable pub write {ℓ} : {A : Type ℓ} → List A → ℕ → A → Outcome (List A)
  write xs i v = if ltb i (length xs) then returned (set xs i v) else panicked

  -- The entry after a message, put back or finished.
  unfoldable pub update : Health → GroupKey → GroupState → Aggregator → Outcome Aggregator
  unfolding group_finish emit
  update health key state a =
      if nat_eq state.remaining 0
      then (do
        finished ← group_finish state.results
        returned (
            emit health finished (record a {
              states = remove key a.states;
              dead = forget key a.dead;
              done = a.done + 1;
            })))
      else returned (record a { states = insert key state a.states })

  -- One message; the subtraction wraps, as it does in a release build.
  unfoldable pub receive : Health → GroupWorkResult → Aggregator → Outcome Aggregator
  unfolding write update
  receive health msg a = do
    let entry = new_state (lookup msg.key a.states) msg.group_len
    results ← write entry.results msg.slot msg.proxy
    update health msg.key
        (record { remaining = (entry.remaining + 2 ^ 64 - 1) % 2 ^ 64; results = results }) a

  abbrev pub idle : Option (Dict GroupKey Bool) → Aggregator
  idle dead = record { states = []; dead = dead; done = 0; passed = 0; sent = [] }

  -- The messages until the channel closes, each with the health store at its time.
  unfoldable pub aggregate_groups :
      List (Health × GroupWorkResult) → Aggregator → Outcome Aggregator
  unfolding receive
  aggregate_groups [] a = returned a
  aggregate_groups ((health, msg) ∷ rest) a = do a' ← receive health msg a; aggregate_groups rest a'
