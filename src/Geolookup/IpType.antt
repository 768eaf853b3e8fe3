-- ===== src/Geolookup/IpType.antt =====
-- src/geolookup/ip_type.rs: the tables of networks, and `classify`.
pub mod Classified
mod Occurrence
mod Tests
use flx.Base.{
  Bool, List, Option, [], any, contains, false, if◌then◌else◌, is_some, length, none, some, suc,
  zero, ℕ, ℕ_eq, ◌||◌, ◌∷◌,
}
use flx.Base.Bytes.{codes, Bytes}
use flx.Proxy.Model.{residential, datacenter, mobile, IpType}
use flx.Proxy.Text.{eq_ignore_ascii_case}

unfoldable pub hosting_asns : List ℕ
hosting_asns =
    174 ∷ 2906 ∷ 8075 ∷ 8560 ∷ 12222 ∷ 12876 ∷ 13335 ∷ 13415 ∷ 14061 ∷ 14618 ∷ 15169 ∷ 16265 ∷ 16276
    ∷ 16509 ∷ 16625 ∷ 19318 ∷ 19551 ∷ 20454 ∷ 20473 ∷ 20940 ∷ 21859 ∷ 24940 ∷ 26496 ∷ 29802 ∷ 31898
    ∷ 33070 ∷ 35540 ∷ 36351 ∷ 40676 ∷ 42708 ∷ 46664 ∷ 47583 ∷ 49981 ∷ 51167 ∷ 54113 ∷ 54290 ∷ 61157
    ∷ 63949 ∷ 197540 ∷ 199524 ∷ 213230 ∷ 396982 ∷ []

unfoldable pub hosting_keywords : List Bytes
hosting_keywords =
    codes "amazon"
    ∷ codes "aws"
    ∷ codes "azure"
    ∷ codes "microsoft"
    ∷ codes "google"
    ∷ codes "ibm"
    ∷ codes "oracle"
    ∷ codes "digitalocean"
    ∷ codes "hetzner"
    ∷ codes "ovh"
    ∷ codes "linode"
    ∷ codes "akamai"
    ∷ codes "cloudflare"
    ∷ codes "fastly"
    ∷ codes "vultr"
    ∷ codes "choopa"
    ∷ codes "leaseweb"
    ∷ codes "contabo"
    ∷ codes "ionos"
    ∷ codes "hostinger"
    ∷ codes "hostgator"
    ∷ codes "bluehost"
    ∷ codes "dreamhost"
    ∷ codes "scaleway"
    ∷ codes "rackspace"
    ∷ codes "softlayer"
    ∷ codes "equinix"
    ∷ codes "cogent"
    ∷ codes "zenlayer"
    ∷ codes "gcore"
    ∷ codes "psychz"
    ∷ codes "interserver"
    ∷ codes "hivelocity"
    ∷ codes "kamatera"
    ∷ codes "phoenixnap"
    ∷ codes "netcup"
    ∷ codes "incapsula"
    ∷ codes "hosting"
    ∷ codes "colocation"
    ∷ codes "datacenter"
    ∷ codes "data center"
    ∷ codes "dedicated server"
    ∷ codes "vps"
    ∷ []

unfoldable pub mobile_keywords : List Bytes
mobile_keywords =
    codes "mobile"
    ∷ codes "wireless"
    ∷ codes "cellular"
    ∷ codes "gsm"
    ∷ codes "lte"
    ∷ codes "telekom"
    ∷ codes "vodafone"
    ∷ codes "t-mobile"
    ∷ codes "verizon"
    ∷ codes "at&t mobility"
    ∷ codes "movistar"
    ∷ codes "claro"
    ∷ codes "orange"
    ∷ codes "oranje"
    ∷ codes "etisalat"
    ∷ codes "airtel"
    ∷ codes "mtn"
    ∷ codes "singtel"
    ∷ codes "indosat"
    ∷ codes "telkomsel"
    ∷ codes "smartfren"
    ∷ codes "xl axiata"
    ∷ codes "optus"
    ∷ codes "telstra"
    ∷ codes "docomo"
    ∷ codes "softbank"
    ∷ codes "sk telecom"
    ∷ []

abbrev put_byte : ℕ → Option Bytes → Option Bytes
put_byte c none = none
put_byte c (some w) = some (c ∷ w)

-- The first `n` bytes, when there are so many.
unfoldable pub window : ℕ → Bytes → Option Bytes
window zero text = some []
window (suc n) [] = none
window (suc n) (c ∷ text) = put_byte c (window n text)

abbrev pub here : Bytes → Option Bytes → Bool
here keyword none = false
here keyword (some w) = eq_ignore_ascii_case w keyword

-- `name.windows(keyword.len()).any(|window| window.eq_ignore_ascii_case(keyword))`
unfoldable pub occurs : Bytes → Bytes → Bool
occurs keyword [] = here keyword (window (length keyword) [])
occurs keyword (c ∷ name) = here keyword (window (length keyword) (c ∷ name)) || occurs keyword name

-- An empty keyword is in every name, as `occurs` has it without a test.
unfoldable pub has_keyword : Bytes → List Bytes → Bool
has_keyword name keywords = any (λ keyword. occurs keyword name) keywords

abbrev pub or_else : {A : Type 0} → Option A → Option A → Option A
or_else none other = other
or_else (some x) other = some x

abbrev pub named : List Bytes → Option Bytes → Bool
named keywords none = false
named keywords (some name) = has_keyword name keywords

-- `HOSTING_ASNS.binary_search(&asn).is_ok()`, on a table in order.
abbrev pub is_hosting : Option ℕ → Bool
is_hosting none = false
is_hosting (some asn) = contains hosting_asns asn

abbrev of_name : Option ℕ → Option Bytes → IpType
of_name asn org =
    if named mobile_keywords org
    then mobile
    else if is_hosting asn || named hosting_keywords org
    then datacenter
    else if is_some asn || is_some org
    then residential
    else IpType.unknown

unfoldable pub classify : Option ℕ → Option Bytes → Option Bytes → Option Bytes → IpType
classify asn aso isp organization = of_name asn (or_else (or_else aso isp) organization)
