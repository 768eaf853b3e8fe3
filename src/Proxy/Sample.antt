-- ===== src/Proxy/Sample.antt =====
-- Concrete values for the tests of the components: numbers in place of floats, and a proxy.
use flx.Base.{ℕ, ◌+◌, ◌-◌, ◌*◌, ◌/◌, true, List, [], none, ltb, leb}
use flx.Base.Bytes.{codes}
use flx.Proxy.Float.{Float}
use flx.Proxy.Model.{Proxy, no_samples, GeoData, IpType}
use flx.Proxy.Protocol.{Protocol}

abbrev pub whole : Float
whole = record {
  F = ℕ;
  zero = 0;
  add = ◌+◌;
  sub = ◌-◌;
  mul = ◌*◌;
  div = ◌/◌;
  of_nat = λ n. n;
  hundredths = λ n. n / 100;
  lt = ltb;
  le = leb;
  is_finite = λ x. true;
}

abbrev pub nowhere : GeoData whole
nowhere = record {
  iso_code = none;
  name = none;
  region_iso_code = none;
  region_name = none;
  city_name = none;
  asn = none;
  aso = none;
  ip_type = IpType.unknown;
  continent_code = none;
  continent_name = none;
  latitude = none;
  longitude = none;
  timezone = none;
  zip = none;
}

-- 1.2.3.4:8080, advertised for the protocols.
abbrev pub advertised : List Protocol → Proxy whole
advertised types = record {
  ip = record { a = 1; b = 2; c = 3; d = 4 };
  port = 8080;
  geo = nowhere;
  runtimes = no_samples whole;
  expected_types = types;
  proxy_types = [];
  auth = none;
  health_score = none;
  text = codes "1.2.3.4:8080";
}
