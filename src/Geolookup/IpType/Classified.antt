-- ===== src/Geolookup/IpType/Classified.antt =====
-- src/geolookup/ip_type.rs: what the result of `classify` says of a network.
use mathlib.Core.Bool.{◌||◌}
use flx.Base.{
  ℕ, Option, none, some, List, [], ◌∷◌, true, ◌≡◌, ◌↔◌, ◌⊎◌, arith, if◌then◌else◌, is_some,
}
use flx.Base.Bytes.{Bytes}
use flx.Proxy.Model.{IpType, mobile, datacenter, residential}
use flx.Geolookup.IpType.{
  classify, has_keyword, named, is_hosting, mobile_keywords, hosting_keywords, or_else,
}
use flx.Geolookup.IpType.Occurrence.{Occurrence, occurs_iff}

-- Some keyword of the list is spelled in the name.
abbrev pub Spelled : List Bytes → Bytes → Type 0
Spelled [] name = ⊥
Spelled (keyword ∷ keywords) name = Occurrence keyword name ⊎ Spelled keywords name

abbrev pub Names : List Bytes → Option Bytes → Type 0
Names keywords none = ⊥
Names keywords (some name) = Spelled keywords name

pub record IsClassified (asn : Option ℕ) (org : Option Bytes) (result : IpType) : Type 0 where
  pub is_mobile : (result ≡ mobile) ↔ Names mobile_keywords org
  pub is_datacenter :
      (result ≡ datacenter)
      ↔ (¬ Names mobile_keywords org × ((is_hosting asn ≡ true) ⊎ Names hosting_keywords org))
  pub is_unknown : (result ≡ IpType.unknown) ↔ ((asn ≡ none) × (org ≡ none))

has_keyword_iff :
    (keywords : List Bytes) (name : Bytes)
    → (has_keyword name keywords ≡ true) ↔ Spelled keywords name
unfolding has_keyword
has_keyword_iff [] name = ground arith
has_keyword_iff (keyword ∷ keywords) name =
    ground (arith, occurs_iff keyword name, has_keyword_iff keywords name)

named_iff :
    (keywords : List Bytes) (org : Option Bytes) → (named keywords org ≡ true) ↔ Names keywords org
named_iff keywords none = ground arith
named_iff keywords (some name) = has_keyword_iff keywords name

classified :
    (asn : Option ℕ) (org : Option Bytes)
    → IsClassified asn org (
        if named mobile_keywords org
        then mobile
        else if is_hosting asn || named hosting_keywords org
        then datacenter
        else if is_some asn || is_some org
        then residential
        else IpType.unknown)
classified none none = record {
  is_mobile = ground (arith, named_iff mobile_keywords none, named_iff hosting_keywords none);
  is_datacenter = ground (arith, named_iff mobile_keywords none, named_iff hosting_keywords none);
  is_unknown = ground (arith, named_iff mobile_keywords none, named_iff hosting_keywords none);
}
classified none (some name) = record {
  is_mobile =
      ground (arith, named_iff mobile_keywords (some name), named_iff hosting_keywords (some name));
  is_datacenter =
      ground (arith, named_iff mobile_keywords (some name), named_iff hosting_keywords (some name));
  is_unknown =
      ground (arith, named_iff mobile_keywords (some name), named_iff hosting_keywords (some name));
}
classified (some n) none = record {
  is_mobile = ground (arith, named_iff mobile_keywords none, named_iff hosting_keywords none);
  is_datacenter = ground (arith, named_iff mobile_keywords none, named_iff hosting_keywords none);
  is_unknown = ground (arith, named_iff mobile_keywords none, named_iff hosting_keywords none);
}
classified (some n) (some name) = record {
  is_mobile =
      ground (arith, named_iff mobile_keywords (some name), named_iff hosting_keywords (some name));
  is_datacenter =
      ground (arith, named_iff mobile_keywords (some name), named_iff hosting_keywords (some name));
  is_unknown =
      ground (arith, named_iff mobile_keywords (some name), named_iff hosting_keywords (some name));
}

-- An address is mobile exactly when the first name that is known spells a carrier's keyword in some
-- place, in any case; a datacenter exactly when it is not mobile and the number or that name is of a
-- hosting network; unknown exactly when neither number nor name is known.
pub classify-IsClassified :
    (asn : Option ℕ) (aso isp organization : Option Bytes)
    → IsClassified asn (or_else (or_else aso isp) organization) (classify asn aso isp organization)
unfolding classify
classify-IsClassified asn aso isp organization =
    classified asn (or_else (or_else aso isp) organization)
