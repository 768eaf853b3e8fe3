-- ===== src/Validator/Jobs/Once.antt =====
-- The probes of a candidate: which there are, and that none is made twice.
use flx.Base.{
  all, ◌∙◌, ap, refl, map, ◌≡◌, Bool, true, false, not, ◌&&◌, List, [], any, contains, arith,
}
use flx.Proxy.Protocol.{Protocol, Protocol_eq}
use flx.Fetcher.Dedup.Refine.{Distinct}
use flx.Validator.Jobs.{
  singleton_jobs, Job, ProbeKey, ProbeKey_eq, family_eq, probe_family, advertised_matches_request,
}
use flx.Validator.Jobs.Missed.{miss_all-seen, miss_all-IsMissed, doubled}
use flx.Validator.Jobs.Keys.{advertise_all-keys, key_of, covers}
use flx.Validator.Jobs.Pairs.{advertise_all-Once, is_pair}
use flx.Base.Every.{all-contains}

-- The keys that should be probed.
abbrev pub wanted : List Protocol → List Protocol → Bool → ProbeKey → Bool
wanted advertised requested true (family, req) =
    family_eq (probe_family req) family
    && (contains requested req
        && not (any (λ (adv : Protocol). advertised_matches_request adv req) advertised))
wanted advertised requested false (family, req) =
    contains requested req && any (covers (family, req)) advertised

-- What a job of each kind pairs.
abbrev pub is_good : List Protocol → List Protocol → Bool → Job → Bool
is_good advertised requested true = doubled
is_good advertised requested false = is_pair advertised requested

-- For every advertisement and every list of requests, in both modes: exactly the wanted keys (a family
-- to probe and a request) have a job, each of them one job, and each job is good. Without
-- `probe_missed` a key is wanted if the request is in the list and an advertised protocol of the family
-- covers it, and a job pairs an advertised protocol with a request that it covers. With it, a key is
-- wanted if the request is in the list, is of the family, and is covered by nothing advertised, and a
-- job probes the request itself.
pub singleton_jobs_lem :
    (advertised requested : List Protocol) (probe_missed : Bool)
    → ((k : ProbeKey)
        → contains (map key_of (singleton_jobs advertised requested probe_missed)) k
          ≡ wanted advertised requested probe_missed k)
      × (Distinct (map key_of (singleton_jobs advertised requested probe_missed))
          × (all
                (is_good advertised requested probe_missed)
                (singleton_jobs advertised requested probe_missed)
              ≡ true))
unfolding singleton_jobs
singleton_jobs_lem advertised requested true =
    let h =
      miss_all-IsMissed advertised requested ([], [])
        (record { keys = λ f q. ground arith; distinct = tt; pairs = refl }) in
    (
      λ k. ground (arith, h.keys k.0 k.1, miss_all-seen advertised requested ([], []) k.1),
      (h.distinct, h.pairs),
    )
singleton_jobs_lem advertised requested false =
    let h =
      advertise_all-Once advertised requested advertised ([], ([], [])) (all-contains advertised)
        (all-contains requested) (record { same = refl; distinct = tt; pairs = refl }) in
    (
      λ k.
          ap (λ l. contains l k) h.same
          ∙ advertise_all-keys requested advertised ([], ([], [])) k.0 k.1
              (λ adv q seen. absurd (ground (arith, seen))),
      (rw h.same h.distinct, h.pairs),
    )
