-- ===== src/Health/Store/Json.antt =====
-- What the store relies on of `serde_json`, and the records and writes that its laws are about.
use flx.Base.{◌≡◌, Bool, true, false, ◌&&◌, ◌∷◌, Option, none, some, contains, ℕ_eq}
use flx.Base.Bytes.{Bytes}
use flx.Health.{HealthRecord}
use flx.Health.Store.{Append, Attempt, StoredRecord, schema_version}
use flx.Proxy.Float.{Float}

module _ (f : Float) where
  open f use {F, is_finite}

  abbrev pub finite_latency : Option F → Bool
  finite_latency none = true
  finite_latency (some x) = is_finite x

  -- A record of the current schema, with finite numbers.
  pub record IsCurrent (r : HealthRecord f) : Type 0 where
    pub schema : r.schema ≡ schema_version
    pub timestamp : is_finite r.timestamp ≡ true
    pub latency : finite_latency r.latency_secs ≡ true

  abbrev pub map_latency : (F → F) → Option F → Option F
  map_latency g none = none
  map_latency g (some x) = some (g x)

  -- What a line gives back, where `round` is what is read of a printed number.
  abbrev pub stored : (F → F) → HealthRecord f → StoredRecord f
  stored round r = record {
    schema = r.schema;
    timestamp = round r.timestamp;
    ip = r.ip;
    port = r.port;
    protocol = r.protocol;
    success = r.success;
    latency_secs = map_latency round r.latency_secs;
    anonymity = r.anonymity;
  }

  -- What the store relies on of `serde_json`: compact output is an object on one line, in which control
  -- characters are escaped, and it parses to what was written, up to the rounding of numbers.
  pub record Json : Type 0 where
    pub to_vec : HealthRecord f → Option Bytes
    pub from_str : Bytes → Option (StoredRecord f)
    pub round : F → F
    pub to_vec-object :
        (r : HealthRecord f) (body : Bytes)
        → to_vec r ≡ some body
        → (rest : Bytes) × (body ≡ 123 ∷ rest)
    pub to_vec_escaped :
        (r : HealthRecord f) (body : Bytes)
        → to_vec r ≡ some body
        → (contains body 10 ≡ false) × (contains body 13 ≡ false)
    pub from_str-to_vec :
        (r : HealthRecord f) (body : Bytes)
        → IsCurrent r
        → to_vec r ≡ some body
        → from_str body ≡ some (stored round r)

  -- A failed write left nothing in the file.
  abbrev pub is_clean : Append → Bool
  is_clean (Append.stopped (b ∷ left) shutdown) = false
  is_clean _ = true

  abbrev pub both_clean : Attempt → Bool
  both_clean a = is_clean a.first && is_clean a.second
