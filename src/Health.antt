-- ===== src/Health.antt =====
-- src/health.rs: the health history of the endpoints, and the score that it gives.
pub mod History
pub mod Score
pub mod Store
mod Tests
use flx.Base.{
  ℕ, ◌+◌, ◌-◌, ◌^◌, ◌≡◌, ◌↔◌, Bool, true, false, ◌&&◌, not, List, [], ◌∷◌, Option, none, some, Eq,
  if◌then◌else◌, nat_eq, ltb, arith,
}
use flx.Base.Bytes.{Bytes}
use flx.Base.Dict.{Dict, lookup, insert}
use flx.Proxy.Address.{Ipv4Addr, addr_eq, addr_eq_iff}
use flx.Proxy.Float.{Float, clamp}
use flx.Proxy.Model.{HealthScore}
use flx.Proxy.Protocol.{Anonymity, rank}

abbrev pub Endpoint : Type 0
Endpoint = Ipv4Addr × ℕ

abbrev pub endpoint_eq : Endpoint → Endpoint → Bool
endpoint_eq (ip, port) (ip', port') = addr_eq ip ip' && nat_eq port port'

pub endpoint_eq_iff : (a b : Endpoint) → (endpoint_eq a b ≡ true) ↔ (a ≡ b)
endpoint_eq_iff (ip, port) (ip', port') = ground (arith, addr_eq_iff ip ip')

instance abbrev pub Endpoint_eq : Eq Endpoint
Endpoint_eq = record { beq = endpoint_eq; beq_iff = endpoint_eq_iff }

-- `u64::MAX`, at which the counters stay.
abbrev pub u64_max : ℕ
u64_max = 2 ^ 64 - 1

unfoldable pub saturating_add : ℕ → ℕ → ℕ
saturating_add a b = if ltb u64_max (a + b) then u64_max else a + b

module _ (f : Float) where
  open f use {F, zero, add, sub, mul, div, of_nat, hundredths, le, is_finite}

  pub record HealthStats : Type 0 where
    pub successes : ℕ
    pub failures : ℕ
    pub latency_total : F
    pub anonymity : Option Anonymity
    pub last_checked : F

  -- `HealthStats::default()`
  abbrev pub no_history : HealthStats
  no_history = record {
    successes = 0;
    failures = 0;
    latency_total = zero;
    anonymity = none;
    last_checked = zero;
  }

  -- `reason` is written to the file and never read.
  pub record HealthRecord : Type 0 where
    pub schema : ℕ
    pub timestamp : F
    pub ip : Ipv4Addr
    pub port : ℕ
    pub protocol : Bytes
    pub success : Bool
    pub latency_secs : Option F
    pub anonymity : Option Anonymity
    pub reason : Option Bytes

  abbrev pub State : Type 0
  State = Dict Endpoint HealthStats

  abbrev pub endpoint : HealthRecord → Endpoint
  endpoint r = (r.ip, r.port)

  -- The latency counts if it is finite and not negative.
  unfoldable pub add_latency : F → Option F → F
  add_latency total none = total
  add_latency total (some value) =
      if is_finite value && le zero value then add total value else total

  unfoldable pub better : Option Anonymity → Option Anonymity → Option Anonymity
  better current none = current
  better none (some a) = some a
  better (some c) (some a) = if ltb (rank c) (rank a) then some a else some c

  -- What `apply_record` does to the entry of the record's endpoint.
  unfoldable pub update : HealthStats → HealthRecord → HealthStats
  unfolding add_latency better
  update e r =
      if r.success
      then record e {
        successes = saturating_add e.successes 1;
        latency_total = add_latency e.latency_total r.latency_secs;
        anonymity = better e.anonymity r.anonymity;
        last_checked = r.timestamp;
      }
      else record e { failures = saturating_add e.failures 1; last_checked = r.timestamp }

  abbrev pub or_default : Option HealthStats → HealthStats
  or_default none = no_history
  or_default (some e) = e

  unfoldable pub apply_record : State → HealthRecord → State
  apply_record state r =
      insert (endpoint r) (update (or_default (lookup (endpoint r) state)) r) state

  unfoldable pub apply_all : State → List HealthRecord → State
  apply_all state [] = state
  apply_all state (r ∷ records) = apply_all (apply_record state r) records

  abbrev pub hundred : F
  hundred = of_nat 100

  abbrev level_score : Option Anonymity → F
  level_score (some Anonymity.anonymous) = of_nat 50
  level_score (some Anonymity.elite) = hundred
  level_score _ = zero

  unfoldable pub reliability_of : HealthStats → F
  reliability_of s =
      let total = saturating_add s.successes s.failures in
      if nat_eq total 0 then zero else mul (div (of_nat s.successes) (of_nat total)) hundred

  abbrev avg_latency : HealthStats → F
  avg_latency s =
      if nat_eq s.successes 0 then of_nat 5 else div s.latency_total (of_nat s.successes)

  unfoldable pub speed_of : HealthStats → F
  speed_of s = clamp f (mul hundred (sub (of_nat 1) (div (avg_latency s) (of_nat 5)))) zero hundred

  unfoldable pub score_stats : HealthStats → HealthScore f
  unfolding reliability_of speed_of
  score_stats s =
      let reliability = reliability_of s in
      let speed = speed_of s in
      let anonymity = level_score s.anonymity in
      record {
        reliability = reliability;
        speed = speed;
        anonymity = anonymity;
        total =
            clamp f
              (add (add (mul reliability (hundredths 60)) (mul speed (hundredths 25)))
                (mul anonymity (hundredths 15)))
              zero hundred;
      }

  unfoldable pub stats : Endpoint → State → Option HealthStats
  stats at state = lookup at state

  abbrev scored : Option HealthStats → Option (HealthScore f)
  scored none = none
  scored (some s) = some (score_stats s)

  unfoldable pub score : Endpoint → State → Option (HealthScore f)
  unfolding stats
  score at state = scored (stats at state)
