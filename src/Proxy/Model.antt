-- ===== src/Proxy/Model.antt =====
-- `RuntimeStats`, `ProxyType`, `ProxyAuth` and `Proxy` of src/proxy/models.rs, with the records of
-- src/geolookup/models.rs and src/health.rs that a proxy carries.
use flx.Base.{
  ℕ, ◌+◌, ◌%◌, ◌^◌, Bool, ◌||◌, List, [], ◌∷◌, Option, none, some, if◌then◌else◌, nat_eq, length,
  ltb, map,
}
use flx.Base.Bytes.{Bytes}
use flx.Proxy.Address.{Ipv4Addr}
use flx.Proxy.Float.{Float}
use flx.Proxy.Protocol.{Protocol}

pub data IpType : Type 0 where
  residential datacenter mobile unknown : IpType

-- `username.as_bytes()` and `password.as_bytes()`.
pub record ProxyAuth : Type 0 where
  pub username : Bytes
  pub password : Bytes

-- `socks5_user_pass`: both fields have 1 to 255 bytes.
unfoldable pub socks5_user_pass : ProxyAuth → Option (Bytes × Bytes)
socks5_user_pass auth =
    if nat_eq (length auth.username) 0 || ltb 255 (length auth.username)
    then none
    else if nat_eq (length auth.password) 0 || ltb 255 (length auth.password)
    then none
    else some (auth.username, auth.password)

module _ (f : Float) where
  open f use {F, zero, add, div, of_nat, lt}

  pub record RuntimeStats : Type 0 where
    pub count : ℕ
    pub total : F
    pub min : F
    pub max : F

  abbrev pub no_samples : RuntimeStats
  no_samples = record { count = 0; total = zero; min = zero; max = zero }

  -- `RuntimeStats::record`; the `u32` counter wraps, as it does in a release build.
  unfoldable pub record_sample : RuntimeStats → F → RuntimeStats
  record_sample s secs =
      let count = (s.count + 1) % 2 ^ 32 in
      record {
        count = count;
        total = add s.total secs;
        min = if nat_eq count 1 || lt secs s.min then secs else s.min;
        max = if lt s.max secs then secs else s.max;
      }

  unfoldable pub avg : RuntimeStats → F
  avg s = if nat_eq s.count 0 then zero else div s.total (of_nat s.count)

  pub record ProxyType : Type 0 where
    pub protocol : Protocol
    pub checked : Bool
    pub checked_on : F

  pub record HealthScore : Type 0 where
    pub reliability : F
    pub speed : F
    pub anonymity : F
    pub total : F

  pub record GeoData : Type 0 where
    pub iso_code : Option Bytes
    pub name : Option Bytes
    pub region_iso_code : Option Bytes
    pub region_name : Option Bytes
    pub city_name : Option Bytes
    pub asn : Option ℕ
    pub aso : Option Bytes
    pub ip_type : IpType
    pub continent_code : Option Bytes
    pub continent_name : Option Bytes
    pub latitude : Option F
    pub longitude : Option F
    pub timezone : Option Bytes
    pub zip : Option Bytes

  pub record Proxy : Type 0 where
    pub ip : Ipv4Addr
    pub port : ℕ
    pub geo : GeoData
    pub runtimes : RuntimeStats
    pub expected_types : List Protocol
    pub proxy_types : List ProxyType
    pub auth : Option ProxyAuth
    pub health_score : Option HealthScore
    pub text : Bytes

  -- `Proxy::validation_probe`: the endpoint, with no protocol expected or passed.
  unfoldable pub validation_probe : Proxy → Proxy
  validation_probe p = record p { expected_types = []; proxy_types = [] }

  unfoldable pub avg_response_time : Proxy → F
  unfolding avg
  avg_response_time p = avg p.runtimes

  unfoldable pub min_response_time : Proxy → F
  min_response_time p = if nat_eq p.runtimes.count 0 then zero else p.runtimes.min

  -- The protocols of the validated types if there are any, else the advertised ones.
  abbrev protocols_of : List ProxyType → List Protocol → List Protocol
  protocols_of [] expected = expected
  protocols_of (t ∷ types) expected = t.protocol ∷ map (λ (x : ProxyType). x.protocol) types

  unfoldable pub carried : Proxy → List Protocol
  carried p = protocols_of p.proxy_types p.expected_types
