-- ===== src/Geolookup/IpType/Tests.antt =====
-- Runs of src/geolookup/ip_type.rs.
use flx.Geolookup.IpType.{
  mobile_keywords, hosting_keywords, hosting_asns, window, occurs, has_keyword, classify,
}
use flx.Base.{[], ◌&&◌, ltb, ◌∷◌, Bool, ℕ, true, List, refl, ◌≡◌, some, none}
use flx.Base.Bytes.{codes}
use flx.Proxy.Model.{IpType, datacenter, mobile}
use flx.Geolookup.IpType.Classified.{classify-IsClassified, IsClassified}

no_signal : classify none none none none ≡ IpType.unknown
unfolding classify has_keyword occurs window hosting_asns hosting_keywords mobile_keywords
no_signal = refl

carrier : classify (some 13335) (some (codes "Some T-Mobile net")) none none ≡ mobile
unfolding classify has_keyword occurs window hosting_asns hosting_keywords mobile_keywords
carrier = refl

hosted : classify (some 13335) none none none ≡ datacenter
unfolding classify has_keyword occurs window hosting_asns hosting_keywords mobile_keywords
hosted = refl

unfoldable ascending : List ℕ → Bool
ascending [] = true
ascending (n ∷ []) = true
ascending (n ∷ m ∷ ns) = ltb n m && ascending (m ∷ ns)

-- The table is in order, as the binary search needs it.
in_order : ascending hosting_asns ≡ true
unfolding hosting_asns ascending
in_order = refl

classify-IsClassified_example : IsClassified (some 13335) (some (codes "T-Mobile net")) mobile
unfolding classify has_keyword occurs window hosting_asns hosting_keywords mobile_keywords
classify-IsClassified_example =
    classify-IsClassified (some 13335) none (some (codes "T-Mobile net")) none
