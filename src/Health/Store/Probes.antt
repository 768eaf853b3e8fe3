-- ===== src/Health/Store/Probes.antt =====
-- `HealthStore::record_success`, `HealthStore::record_failure` and `HealthStore::score` of src/health.rs.
use flx.Proxy.Float.{Float}
use flx.Health.Store.{schema_version, HealthStore, record_health, Attempt}
use flx.Health.{HealthRecord}
use flx.Base.{none, some, false, true, Bool, ℕ, Option}
use flx.Base.Bytes.{Bytes}
use flx.Proxy.Text.{display}
use flx.Proxy.Address.{Ipv4Addr}
use flx.Proxy.Protocol.{Anonymity, Protocol}

module _ (f : Float) where
  open f use {F}

  -- The time of the record, and what the system calls of its append do.
  pub record Moment : Type 0 where
    pub now : F
    pub attempt : Attempt

  module _ (to_vec : HealthRecord f → Option Bytes) where
    unfoldable pub record_success :
        Moment
        → Ipv4Addr
        → ℕ
        → Protocol
        → F
        → Option Anonymity
        → HealthStore f
        → Bool × HealthStore f
    unfolding display record_health
    record_success at ip port protocol latency_secs anonymity store =
        record_health f to_vec
          (record {
            schema = schema_version;
            timestamp = at.now;
            ip = ip;
            port = port;
            protocol = display protocol;
            success = true;
            latency_secs = some latency_secs;
            anonymity = anonymity;
            reason = none;
          })
          at.attempt store

    unfoldable pub record_failure :
        Moment → Ipv4Addr → ℕ → Protocol → Bytes → HealthStore f → Bool × HealthStore f
    unfolding display record_health
    record_failure at ip port protocol reason store =
        record_health f to_vec
          (record {
            schema = schema_version;
            timestamp = at.now;
            ip = ip;
            port = port;
            protocol = display protocol;
            success = false;
            latency_secs = none;
            anonymity = none;
            reason = some reason;
          })
          at.attempt store
