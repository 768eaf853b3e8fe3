-- ===== src/Validator/Jobs/Keys.antt =====
-- The keys that the loops over the advertised protocols and the requests collect.
use flx.Base.{◌≡◌, Bool, true, ◌&&◌, ◌||◌, List, [], ◌∷◌, any, contains, arith}
use flx.Proxy.Protocol.{Protocol, Protocol_eq, protocol_eq, protocol_eq_iff}
use flx.Fetcher.Dedup.Refine.{contains-append}
use flx.Validator.Jobs.{
  advertise_all, request_all, advertise, Probed, Job, ProbeFamily, ProbeKey, ProbeKey_eq, family_eq,
  family_eq_iff, probe_family, advertised_matches_request, push_new, request,
}

-- The key that a job probes.
abbrev pub key_of : Job → ProbeKey
key_of (adv, req) = (probe_family adv, req)

-- A request that some advertised protocol of the family covers.
abbrev pub covers : ProbeKey → Protocol → Bool
covers (family, req) adv = family_eq (probe_family adv) family && advertised_matches_request adv req

-- What the loop over the requests knows of those it has seen.
abbrev SeenRequests : Protocol → List Protocol × Probed → Type 0
SeenRequests adv s =
    (q : Protocol)
    → contains s.0 q ≡ true
    → advertised_matches_request adv q ≡ true
    → contains s.1.0 (probe_family adv, q) ≡ true

request_keys :
    (adv req : Protocol) (s : List Protocol × Probed) (f : ProbeFamily) (q : Protocol)
    → SeenRequests adv s
    → contains (request adv req s).1.0 (f, q)
      ≡ (contains s.1.0 (f, q) || (protocol_eq req q && covers (f, q) adv))
unfolding request push_new
request_keys adv req s f q h = ground (
  arith,
  contains-append s.1.0 ((probe_family adv, req) ∷ []) (f, q),
  protocol_eq_iff req q,
  family_eq_iff (probe_family adv) f,
  h req,
)

request-SeenRequests :
    (adv req : Protocol) (s : List Protocol × Probed)
    → SeenRequests adv s
    → SeenRequests adv (request adv req s)
unfolding request
request-SeenRequests adv req s h q = ground (
  arith,
  request_keys adv req s (probe_family adv) q h,
  contains-append s.0 (req ∷ []) q,
  protocol_eq_iff req q,
  family_eq_iff (probe_family adv) (probe_family adv),
  h q,
)

request_all-keys :
    (adv : Protocol) (requested : List Protocol) (s : List Protocol × Probed) (f : ProbeFamily)
    (q : Protocol)
    → SeenRequests adv s
    → contains (request_all adv requested s).1.0 (f, q)
      ≡ (contains s.1.0 (f, q) || (contains requested q && covers (f, q) adv))
unfolding request_all
request_all-keys adv [] s f q h = ground arith
request_all-keys adv (req ∷ requested) s f q h = ground (
  arith,
  request_all-keys adv requested (request adv req s) f q (request-SeenRequests adv req s h),
  request_keys adv req s f q h,
)

-- What the loop over the advertised protocols knows of those it has seen.
abbrev pub SeenAdvertised : List Protocol → List Protocol × Probed → Type 0
SeenAdvertised requested s =
    (adv q : Protocol)
    → contains s.0 adv ≡ true
    → contains requested q ≡ true
    → advertised_matches_request adv q ≡ true
    → contains s.1.0 (probe_family adv, q) ≡ true

advertise_keys :
    (requested : List Protocol) (adv : Protocol) (s : List Protocol × Probed) (f : ProbeFamily)
    (q : Protocol)
    → SeenAdvertised requested s
    → contains (advertise requested adv s).1.0 (f, q)
      ≡ (contains s.1.0 (f, q) || (contains requested q && covers (f, q) adv))
unfolding advertise
advertise_keys requested adv s f q h = ground (
  arith,
  request_all-keys adv requested ([], s.1) f q (λ x seen. absurd (ground arith)),
  family_eq_iff (probe_family adv) f,
  h adv q,
)

advertise-SeenAdvertised :
    (requested : List Protocol) (adv : Protocol) (s : List Protocol × Probed)
    → SeenAdvertised requested s
    → SeenAdvertised requested (advertise requested adv s)
unfolding advertise
advertise-SeenAdvertised requested adv s h a q = ground (
  arith,
  advertise_keys requested adv s (probe_family a) q h,
  contains-append s.0 (adv ∷ []) a,
  protocol_eq_iff adv a,
  family_eq_iff (probe_family a) (probe_family a),
  h a q,
)

pub advertise_all-keys :
    (requested advertised : List Protocol) (s : List Protocol × Probed) (f : ProbeFamily)
    (q : Protocol)
    → SeenAdvertised requested s
    → contains (advertise_all requested advertised s).1.0 (f, q)
      ≡ (contains s.1.0 (f, q) || (contains requested q && any (covers (f, q)) advertised))
unfolding advertise_all
advertise_all-keys requested [] s f q h = ground arith
advertise_all-keys requested (adv ∷ advertised) s f q h = ground (
  arith,
  advertise_all-keys requested advertised (advertise requested adv s) f q
      (advertise-SeenAdvertised requested adv s h),
  advertise_keys requested adv s f q h,
)
