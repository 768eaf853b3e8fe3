-- ===== src/Validator/Jobs/Tests.antt =====
-- The jobs of a few candidates.
use flx.Validator.Jobs.{
  ProbeKey_eq, probe_family, push_new, request, request_all, advertised_matches_request, miss,
  advertise, advertise_all, miss_all, ProbeKey, singleton_jobs,
}
use flx.Base.{refl, all, false, [], ◌≡◌, ◌∷◌, true, map, contains, List}
use flx.Proxy.Protocol.{https, socks5, elite, anonymous, unknown, http, Protocol}
use flx.Validator.Jobs.Keys.{key_of}
use flx.Validator.Jobs.Once.{singleton_jobs_lem, is_good, wanted}
use flx.Fetcher.Dedup.Refine.{Distinct}

abbrev advertised : List Protocol
advertised = http anonymous ∷ http elite ∷ socks5 ∷ []

abbrev requested : List Protocol
requested = http unknown ∷ http elite ∷ https elite ∷ http unknown ∷ []

-- The two levels of HTTP are one family: each request is probed once.
two_jobs :
    singleton_jobs advertised requested false
    ≡ (http anonymous, http unknown) ∷ (http elite, http elite) ∷ []
unfolding singleton_jobs advertise_all advertise request_all request push_new
    advertised_matches_request probe_family
two_jobs = refl

missed_job : singleton_jobs advertised requested true ≡ (https elite, https elite) ∷ []
unfolding singleton_jobs miss_all miss advertised_matches_request
missed_job = refl

singleton_jobs_lem_example :
    ((k : ProbeKey)
      → contains (map key_of (singleton_jobs advertised requested true)) k
        ≡ wanted advertised requested true k)
    × (Distinct (map key_of (singleton_jobs advertised requested true))
        × (all (is_good advertised requested true) (singleton_jobs advertised requested true)
            ≡ true))
singleton_jobs_lem_example = singleton_jobs_lem advertised requested true
