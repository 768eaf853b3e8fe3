-- ===== src/Validator/Jobs/Pairs.antt =====
-- The jobs of the loops over the advertised protocols and the requests.
use flx.Base.{
  all, ◌∙◌, ap, inr, ◌++◌, inl, Bool-cases, map, ◌≡◌, Bool, true, ◌&&◌, List, [], ◌∷◌, contains,
  arith,
}
use flx.Proxy.Protocol.{Protocol, Protocol_eq}
use flx.Fetcher.Dedup.Refine.{Distinct-snoc, Distinct}
use flx.Validator.Jobs.{
  advertise_all, request_all, advertise, Probed, Job, ProbeKey_eq, probe_family,
  advertised_matches_request, push_new, request,
}
use flx.Base.Every.{all-snoc, map-snoc}
use flx.Validator.Jobs.Keys.{key_of}

-- The pairs of an advertised protocol and a request that it covers.
abbrev pub is_pair : List Protocol → List Protocol → Job → Bool
is_pair advertised requested (adv, req) =
    contains advertised adv && (contains requested req && advertised_matches_request adv req)

-- The keys are those of the jobs, each once, and the jobs are good.
pub record IsOnce (good : Job → Bool) (p : Probed) : Type 0 where
  pub same : map key_of p.1 ≡ p.0
  pub distinct : Distinct p.0
  pub pairs : all good p.1 ≡ true

module _ (advertised requested : List Protocol) where
  abbrev pub Once : Probed → Type 0
  Once = IsOnce (is_pair advertised requested)

  push_new-Once :
      (adv req : Protocol) (p : Probed)
      → is_pair advertised requested (adv, req) ≡ true
      → Once p
      → Once (push_new (probe_family adv, req) (adv, req) p)
  unfolding push_new
  push_new-Once adv req p good h = elim (Bool-cases (contains p.0 (probe_family adv, req))) [
    | inl old ↦ rw old h
    | inr new ↦ rw new (record {
      same = map-snoc key_of p.1 (adv, req) ∙ ap (λ l. l ++ (probe_family adv, req) ∷ []) h.same;
      distinct = Distinct-snoc p.0 (probe_family adv, req) h.distinct new;
      pairs = ground (arith, all-snoc (is_pair advertised requested) p.1 (adv, req), h.pairs, good);
    })
  ]

  request-Once :
      (adv req : Protocol) (s : List Protocol × Probed)
      → contains advertised adv ≡ true
      → contains requested req ≡ true
      → Once s.1
      → Once (request adv req s).1
  unfolding request
  request-Once adv req s a r h = elim (Bool-cases (contains s.0 req)) [
    | inl old ↦ rw old h
    | inr new ↦ rw new (elim (Bool-cases (advertised_matches_request adv req)) [
      | inl m ↦ rw m (push_new-Once adv req s.1 (ground (arith, a, r, m)) h)
      | inr other ↦ rw other h
    ])
  ]

  request_all-Once :
      (adv : Protocol) (todo : List Protocol) (s : List Protocol × Probed)
      → contains advertised adv ≡ true
      → all (contains requested) todo ≡ true
      → Once s.1
      → Once (request_all adv todo s).1
  unfolding request_all
  request_all-Once adv [] s a r h = h
  request_all-Once adv (req ∷ todo) s a r h =
      request_all-Once adv todo (request adv req s) a (ground (arith, r))
        (request-Once adv req s a (ground (arith, r)) h)

  advertise-Once :
      (adv : Protocol) (s : List Protocol × Probed)
      → contains advertised adv ≡ true
      → all (contains requested) requested ≡ true
      → Once s.1
      → Once (advertise requested adv s).1
  unfolding advertise
  advertise-Once adv s a r h = elim (Bool-cases (contains s.0 adv)) [
    | inl old ↦ rw old h
    | inr new ↦ rw new (request_all-Once adv requested ([], s.1) a r h)
  ]

  pub advertise_all-Once :
      (todo : List Protocol) (s : List Protocol × Probed)
      → all (contains advertised) todo ≡ true
      → all (contains requested) requested ≡ true
      → Once s.1
      → Once (advertise_all requested todo s).1
  unfolding advertise_all
  advertise_all-Once [] s a r h = h
  advertise_all-Once (adv ∷ todo) s a r h =
      advertise_all-Once todo (advertise requested adv s) (ground (arith, a)) r
        (advertise-Once adv s (ground (arith, a)) r h)
