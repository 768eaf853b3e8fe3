-- ===== src/Validator/Jobs/Missed.antt =====
-- The jobs of the requests that nothing advertised covers.
use flx.Base.{
  all, sym, ◌∙◌, ap, inr, ◌++◌, inl, Bool-cases, map, ◌≡◌, Bool, true, false, not, ◌&&◌, ◌||◌, List,
  [], ◌∷◌, any, contains, arith,
}
use flx.Proxy.Protocol.{Protocol, Protocol_eq, protocol_eq, protocol_eq_iff}
use flx.Fetcher.Dedup.Refine.{Distinct-snoc, Distinct, contains-append}
use flx.Validator.Jobs.{
  probe_key_eq, miss, Missed, miss_all, Job, ProbeFamily, ProbeKey, ProbeKey_eq, family_eq,
  probe_family, advertised_matches_request,
}
use flx.Validator.Jobs.Keys.{key_of}
use flx.Base.Every.{all-snoc, map-snoc}

-- With `probe_missed`, the state of the loop: the requests seen are those gone through, and the jobs are
-- those of the requests that nothing covers.
abbrev pub missed_job : List Protocol → List Protocol → ProbeKey → Bool
missed_job advertised seen (f, q) =
    family_eq (probe_family q) f
    && (contains seen q
        && not (any (λ (adv : Protocol). advertised_matches_request adv q) advertised))

abbrev pub doubled : Job → Bool
doubled (p, q) = protocol_eq p q

pub record IsMissed (advertised : List Protocol) (s : Missed) : Type 0 where
  pub keys :
      (f : ProbeFamily) (q : Protocol)
      → contains (map key_of s.1) (f, q) ≡ missed_job advertised s.0 (f, q)
  pub distinct : Distinct (map key_of s.1)
  pub pairs : all doubled s.1 ≡ true

miss_seen :
    (advertised : List Protocol) (req : Protocol) (s : Missed) (q : Protocol)
    → contains (miss advertised req s).0 q ≡ (contains s.0 q || protocol_eq req q)
unfolding miss
miss_seen advertised req s q =
    ground (arith, contains-append s.0 (req ∷ []) q, protocol_eq_iff req q)

contains-job :
    (jobs : List Job) (j : Job) (k : ProbeKey)
    → contains (map key_of (jobs ++ j ∷ [])) k
      ≡ (contains (map key_of jobs) k || probe_key_eq (key_of j) k)
contains-job [] j k = ground arith
contains-job (i ∷ jobs) j k = ground (arith, contains-job jobs j k)

missed_job-snoc :
    (advertised seen : List Protocol) (req : Protocol) (f : ProbeFamily) (q : Protocol)
    → any (λ (adv : Protocol). advertised_matches_request adv req) advertised ≡ false
    → missed_job advertised (seen ++ req ∷ []) (f, q)
      ≡ (missed_job advertised seen (f, q) || probe_key_eq (key_of (req, req)) (f, q))
missed_job-snoc advertised seen req f q h =
    ground (arith, contains-append seen (req ∷ []) q, protocol_eq_iff req q, h)

miss-IsMissed :
    (advertised : List Protocol) (req : Protocol) (s : Missed)
    → IsMissed advertised s
    → IsMissed advertised (miss advertised req s)
unfolding miss
miss-IsMissed advertised req s h = elim (Bool-cases (contains s.0 req)) [
  | inl old ↦ rw old h
  | inr new ↦
      rw new
        (elim (Bool-cases
          (any (λ (adv : Protocol). advertised_matches_request adv req) advertised)) [
            | inl covered ↦ rw covered (record {
              keys = λ f q. ground (
                arith,
                h.keys f q,
                contains-append s.0 (req ∷ []) q,
                protocol_eq_iff req q,
                covered,
              );
              distinct = h.distinct;
              pairs = h.pairs;
            })
            | inr uncovered ↦ rw uncovered (record {
              keys = λ f q.
                  contains-job s.1 (req, req) (f, q)
                  ∙ ap (λ b. b || probe_key_eq (key_of (req, req)) (f, q)) (h.keys f q)
                  ∙ sym (missed_job-snoc advertised s.0 req f q uncovered);
              distinct = rw (map-snoc key_of s.1 (req, req)) (
                  Distinct-snoc (map key_of s.1) (key_of (req, req)) h.distinct
                    (ground (arith, h.keys (probe_family req) req, new)));
              pairs =
                  ground (arith, all-snoc doubled s.1 (req, req), h.pairs, protocol_eq_iff req req);
            })
          ])
]

pub miss_all-IsMissed :
    (advertised requested : List Protocol) (s : Missed)
    → IsMissed advertised s
    → IsMissed advertised (miss_all advertised requested s)
unfolding miss_all
miss_all-IsMissed advertised [] s h = h
miss_all-IsMissed advertised (req ∷ requested) s h =
    miss_all-IsMissed advertised requested (miss advertised req s)
      (miss-IsMissed advertised req s h)

pub miss_all-seen :
    (advertised requested : List Protocol) (s : Missed) (q : Protocol)
    → contains (miss_all advertised requested s).0 q ≡ (contains s.0 q || contains requested q)
unfolding miss_all
miss_all-seen advertised [] s q = ground arith
miss_all-seen advertised (req ∷ requested) s q = ground (
  arith,
  miss_all-seen advertised requested (miss advertised req s) q,
  miss_seen advertised req s q,
)
