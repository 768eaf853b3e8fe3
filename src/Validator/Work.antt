-- ===== src/Validator/Work.antt =====
-- src/validator/work.rs: one probe of a candidate, alone or as a member of a group, and what it reports.
-- `support_http` and `support_tunnel` are what they answer; the counters and the channels are passed on.
pub mod Verdict
pub mod Member
mod Tests
use flx.Health.Store.Probes
use flx.Validator.Groups.{GroupWorkResult, GroupKey, GroupKey_eq, group_key_eq}
use flx.Base.Dict.{Dict, lookup, insert}
use flx.Base.Bytes.{codes, Bytes}
use flx.Base.{
  is_some, ◌-◌, ◌&&◌, any, ◌++◌, nat_eq, if◌then◌else◌, [], ◌||◌, ◌+◌, none, false, map, ◌∷◌, some,
  true, Option, Bool, ℕ, List,
}
use flx.Proxy.Float.{Float}
use flx.Proxy.Text.{to_lower, display}
use flx.Proxy.Address.{Ipv4Addr}
use flx.Proxy.Model.{avg, Proxy, validation_probe, RuntimeStats, ProxyType, record_sample}
use flx.Health.{score, HealthRecord}
use flx.Proxy.Protocol.{Anonymity, Protocol}
use flx.Health.Store.Probes.{Moment}
use flx.Validator.Jobs.{result_satisfies_request}
use flx.Health.Store.{HealthStore}

-- `str::contains`
unfoldable pub starts_with : Bytes → Bytes → Bool
starts_with text [] = true
starts_with [] (b ∷ needle) = false
starts_with (c ∷ text) (b ∷ needle) = nat_eq c b && starts_with text needle

unfoldable pub contains_text : Bytes → Bytes → Bool
unfolding starts_with
contains_text [] needle = starts_with [] needle
contains_text (c ∷ text) needle = starts_with (c ∷ text) needle || contains_text text needle

abbrev pub rejections : List Bytes
rejections =
    codes "did not originate"
    ∷ codes "returned status"
    ∷ codes "rejected request"
    ∷ codes "did not accept"
    ∷ codes "did not forward"
    ∷ codes "rejected"
    ∷ codes "authentication"
    ∷ codes "proxy-authorization"
    ∷ []

-- The text of an error is its `{error:#}`.
unfoldable pub classify_failure : Bytes → Protocol → Bytes
unfolding contains_text display
classify_failure error protocol =
    let text = map to_lower error in
    if contains_text text (codes "timed out")
    then codes "timeout"
    else if any (contains_text text) rejections
    then codes "rejected"
    else codes "error (" ++ display protocol ++ codes "): " ++ text

pub record ProxyFailure : Type 0 where
  pub ip : Ipv4Addr
  pub port : ℕ
  pub protocol : Protocol
  pub reason : Bytes

-- The failure channel, with the room that is left in it.
pub record Failures : Type 0 where
  pub room : ℕ
  pub reported : List ProxyFailure

abbrev pub GroupDeadMap : Type 0
GroupDeadMap = Option (Dict GroupKey Bool)

abbrev pub entered : Option Bool → GroupKey → Dict GroupKey Bool → Bool × GroupDeadMap
entered (some dead) key map = (dead, some map)
entered none key map = (false, some (insert key false map))

-- The entry of the group, made if it is not there, says whether a member has failed.
unfoldable pub enter : GroupKey → GroupDeadMap → Bool × GroupDeadMap
enter key none = (false, none)
enter key (some map) = entered (lookup key map) key map

unfoldable pub mark_dead : GroupKey → GroupDeadMap → GroupDeadMap
mark_dead key none = none
mark_dead key (some map) = if is_some (lookup key map) then some (insert key true map) else some map

module _ (f : Float) where
  open f use {F, lt}

  -- `Result<Option<ProxyRuntimes<Protocol>>>`
  pub data Answer : Type 0 where
    failed : Bytes → Answer
    no_support : Answer
    supported : Protocol → RuntimeStats f → Answer

  -- `Result<Option<ProxyType>>`, the `ProxyType` by its protocol.
  pub data Probed : Type 0 where
    error : Bytes → Probed
    unsatisfied : Probed
    satisfied : Protocol → Probed

  -- `ProxyRuntimes::apply`
  unfoldable pub apply : RuntimeStats f → Proxy f → Proxy f
  unfolding record_sample
  apply runtimes proxy =
      if lt f.zero (avg f runtimes)
      then record proxy { runtimes = record_sample f proxy.runtimes (avg f runtimes) }
      else proxy

  unfoldable pub run_probe : Protocol → Answer → Proxy f → Probed × Proxy f
  unfolding apply
  run_probe requested (failed text) proxy = (error text, proxy)
  run_probe requested no_support proxy = (unsatisfied, proxy)
  run_probe requested (supported result runtimes) proxy =
      if result_satisfies_request result requested
      then (satisfied result, apply runtimes proxy)
      else (unsatisfied, proxy)

  -- The time of a check: a reading of the clock for the type, and one for the health record.
  pub record Clock : Type 0 where
    pub checked_on : F
    pub moment : Moment f

  abbrev pub checked : F → Protocol → ProxyType f
  checked now protocol = record { protocol = protocol; checked = true; checked_on = now }

  -- `try_send`: what does not fit is dropped.
  abbrev pub try_send : Option Failures → ProxyFailure → Option Failures
  try_send none failure = none
  try_send (some c) failure =
      if nat_eq c.room 0
      then some c
      else some (record { room = c.room - 1; reported = c.reported ++ failure ∷ [] })

  unfoldable pub report_failure : Option Failures → Proxy f → Protocol → Bytes → Option Failures
  report_failure sender proxy protocol reason =
      try_send sender
        (record { ip = proxy.ip; port = proxy.port; protocol = protocol; reason = reason })

  abbrev pub measured : Protocol → Option Anonymity
  measured (Protocol.http level) = some level
  measured (Protocol.https level) = some level
  measured _ = none

  -- What the tasks share.
  pub record Shared : Type 0 where
    pub health : Option (HealthStore f)
    pub failures : Option Failures
    pub done : ℕ
    pub passed : ℕ
    pub sent : List (Proxy f)

  -- A member of a group; the result is what it sends to the aggregator.
  pub record GroupMemberJob : Type 0 where
    pub proxy : Proxy f
    pub proxy_id : ℕ
    pub protocol : Protocol
    pub group_idx : ℕ
    pub slot : ℕ
    pub group_len : ℕ

  abbrev pub key_of : GroupMemberJob → GroupKey
  key_of member = record { proxy_id = member.proxy_id; group_idx = member.group_idx }

  abbrev pub message : GroupMemberJob → Option (Proxy f) → GroupWorkResult f
  message member proxy = record {
    key = key_of member;
    slot = member.slot;
    group_len = member.group_len;
    proxy = proxy;
  }

  abbrev pub after : GroupKey → Option (Proxy f) → GroupDeadMap → GroupDeadMap
  after key none dead = mark_dead key dead
  after key (some proxy) dead = dead

  module _ (to_vec : HealthRecord f → Option Bytes) where
    -- An error of the store is only logged; the score is read in any case.
    unfoldable pub record_success :
        Moment f
        → Protocol
        → Option Anonymity
        → Option (HealthStore f) × Proxy f
        → Option (HealthStore f) × Proxy f
    record_success at protocol anonymity (none, proxy) = (none, proxy)
    record_success at protocol anonymity (some health, proxy) =
        let health' =
          (Probes.record_success f to_vec at proxy.ip proxy.port protocol (avg f proxy.runtimes)
            anonymity health).1 in
        (some health', record proxy { health_score = score f (proxy.ip, proxy.port) health'.state })

    unfoldable pub record_failure :
        Moment f → Option (HealthStore f) → Proxy f → Protocol → Bytes → Option (HealthStore f)
    record_failure at none proxy protocol reason = none
    record_failure at (some health) proxy protocol reason =
        some (Probes.record_failure f to_vec at proxy.ip proxy.port protocol reason health).1

    abbrev pub fails : Clock → Proxy f → Protocol → Bytes → Shared → Shared
    fails clock proxy protocol reason s = record s {
      health = record_failure clock.moment s.health proxy protocol reason;
      failures = report_failure s.failures proxy protocol reason;
    }

    abbrev pub succeeds :
        Clock
        → Protocol
        → Protocol
        → Proxy f
        → Option (HealthStore f)
        → Option (HealthStore f) × Proxy f
    succeeds clock protocol result proxy health =
        record_success clock.moment protocol (measured result) (
          health,
          record proxy { proxy_types = proxy.proxy_types ++ checked clock.checked_on result ∷ [] },
        )

    unfoldable pub finish_work : Clock → Protocol → Probed × Proxy f → Shared → Shared
    finish_work clock protocol (satisfied result, proxy) s =
        let recorded = succeeds clock protocol result proxy s.health in
        record s { health = recorded.0; passed = s.passed + 1; sent = s.sent ++ recorded.1 ∷ [] }
    finish_work clock protocol (unsatisfied, proxy) s =
        fails clock proxy protocol (codes "unsatisfied") s
    finish_work clock protocol (error text, proxy) s =
        fails clock proxy protocol (classify_failure text protocol) s

    unfoldable pub do_work : Clock → Proxy f → Protocol → Protocol → Answer → Shared → Shared
    unfolding finish_work run_probe validation_probe
    do_work clock proxy protocol requested answer s =
        finish_work clock protocol (run_probe requested answer (validation_probe f proxy))
          (record s { done = s.done + 1 })

    unfoldable pub finish_member :
        Clock → Protocol → Probed × Proxy f → Shared → Option (Proxy f) × Shared
    finish_member clock protocol (satisfied result, proxy) s =
        let recorded = succeeds clock protocol result proxy s.health in
        (some recorded.1, record s { health = recorded.0 })
    finish_member clock protocol (unsatisfied, proxy) s =
        (none, fails clock proxy protocol (codes "unsatisfied") s)
    finish_member clock protocol (error text, proxy) s =
        (none, fails clock proxy protocol (classify_failure text protocol) s)

    -- The message, with the map and the rest after it. No other task runs in between here.
    unfoldable pub do_group_work :
        Clock
        → GroupMemberJob
        → Answer
        → GroupDeadMap
        → Shared
        → GroupWorkResult f × (GroupDeadMap × Shared)
    unfolding enter mark_dead finish_member run_probe validation_probe
    do_group_work clock member answer dead s =
        let entered = enter (key_of member) dead in
        let probe = validation_probe f member.proxy in
        let ended =
          finish_member clock member.protocol (run_probe member.protocol answer probe) s in
        if entered.0
        then (
          message member none,
          (entered.1, fails clock probe member.protocol (codes "group-dead") s),
        )
        else (message member ended.0, (after (key_of member) ended.0 entered.1, ended.1))
