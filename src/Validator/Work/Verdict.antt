-- ===== src/Validator/Work/Verdict.antt =====
-- What a probe of a candidate alone leaves behind.
-- Whether the answer passes for the request.
use flx.Proxy.Float.{Float}
use flx.Health.{HealthRecord}
use flx.Proxy.Protocol.{Anonymity, Protocol}
use flx.Validator.Work.{
  measured, run_probe, finish_work, do_work, report_failure, Shared, checked, apply,
  classify_failure, Clock, record_success, Answer,
}
use flx.Base.{
  inr, ap, ◌∙◌, inl, Bool-cases, refl, none, ◌++◌, some, true, [], ◌+◌, ◌∷◌, arith, false, Bool,
  ◌≡◌, Option,
}
use flx.Base.Bytes.{codes, Bytes}
use flx.Proxy.Model.{validation_probe, Proxy, RuntimeStats}
use flx.Validator.Jobs.{result_satisfies_request}
use flx.Health.Store.Probes.{Moment}
use flx.Health.Store.{HealthStore}

abbrev pub passes : (f : Float) → Protocol → Answer f → Bool
passes f requested (Answer.failed text) = false
passes f requested Answer.no_support = false
passes f requested (Answer.supported result runtimes) = result_satisfies_request result requested

-- The reason that is reported otherwise.
abbrev pub reason_of : (f : Float) → Protocol → Answer f → Bytes
reason_of f protocol (Answer.failed text) = classify_failure text protocol
reason_of f protocol _ = codes "unsatisfied"

abbrev pub ResultIs : (f : Float) → Protocol → Answer f → Type 0
ResultIs f result (Answer.supported r runtimes) = r ≡ result
ResultIs f result _ = Unit

module _ (f : Float) where
  -- The proxy sent: the candidate's endpoint, with one type, checked, of the protocol measured.
  pub record IsSent (clock : Clock f) (proxy : Proxy f) (answer : Answer f) (p : Proxy f)
      : Type 0 where
    pub ip : p.ip ≡ proxy.ip
    pub port : p.port ≡ proxy.port
    pub one_type :
        (result : Protocol) × (ResultIs f result answer
          × (p.proxy_types ≡ checked f clock.checked_on result ∷ []))
    pub no_expectation : p.expected_types ≡ []

  pub record IsWorked (clock : Clock f) (proxy : Proxy f) (protocol requested : Protocol)
      (answer : Answer f) (s s' : Shared f) : Type 0 where
    pub done : s'.done ≡ s.done + 1
    pub pass :
        passes f requested answer ≡ true
        → (s'.passed ≡ s.passed + 1)
          × ((s'.failures ≡ s.failures)
              × ((p : Proxy f) × ((s'.sent ≡ s.sent ++ p ∷ []) × IsSent clock proxy answer p)))
    pub fail :
        passes f requested answer ≡ false
        → (s'.passed ≡ s.passed)
          × ((s'.sent ≡ s.sent)
              × (s'.failures
                  ≡ report_failure f s.failures proxy protocol (reason_of f protocol answer)))

  apply_kept :
      (runtimes : RuntimeStats f) (p : Proxy f)
      → ((apply f runtimes p).ip ≡ p.ip)
        × (((apply f runtimes p).port ≡ p.port)
            × (((apply f runtimes p).proxy_types ≡ p.proxy_types)
                × ((apply f runtimes p).expected_types ≡ p.expected_types)))
  unfolding apply
  apply_kept runtimes p = (ground arith, (ground arith, (ground arith, ground arith)))

module _ (f : Float) (to_vec : HealthRecord f → Option Bytes) where
  record_success_kept :
      (at : Moment f) (protocol : Protocol) (level : Option Anonymity)
      (health : Option (HealthStore f)) (p : Proxy f)
      → ((record_success f to_vec at protocol level (health, p)).1.ip ≡ p.ip)
        × (((record_success f to_vec at protocol level (health, p)).1.port ≡ p.port)
            × (((record_success f to_vec at protocol level (health, p)).1.proxy_types
                  ≡ p.proxy_types)
                × ((record_success f to_vec at protocol level (health, p)).1.expected_types
                    ≡ p.expected_types)))
  unfolding record_success
  record_success_kept at protocol level none p = (refl, (refl, (refl, refl)))
  record_success_kept at protocol level (some store) p = (refl, (refl, (refl, refl)))

  -- Every probe of a candidate counts as done, once. If the answer passes for the request, one proxy is
  -- sent and counted as passed, with the candidate's endpoint, no protocol expected, and one type: the
  -- protocol measured, checked; and no failure is reported. If it does not pass, by an error, for lack
  -- of support or for a level that was not asked for, nothing is sent or counted as passed, and one
  -- failure of the protocol probed is reported, unless the channel is full, with the class of the error
  -- as its reason, or `unsatisfied`.
  pub do_work_lem :
      (clock : Clock f) (proxy : Proxy f) (protocol requested : Protocol) (answer : Answer f)
      (s : Shared f)
      → IsWorked f clock proxy protocol requested answer s
          (do_work f to_vec clock proxy protocol requested answer s)
  unfolding do_work finish_work run_probe validation_probe report_failure
  do_work_lem clock proxy protocol requested (Answer.failed text) s = record {
    done = refl;
    pass = λ h. absurd (ground (arith, h));
    fail = λ h. (refl, (refl, refl));
  }
  do_work_lem clock proxy protocol requested Answer.no_support s = record {
    done = refl;
    pass = λ h. absurd (ground (arith, h));
    fail = λ h. (refl, (refl, refl));
  }
  do_work_lem clock proxy protocol requested (Answer.supported result runtimes) s =
      elim (Bool-cases (result_satisfies_request result requested)) [
        | inl ok ↦
            let probe = validation_probe f proxy in
            let recorded =
              record_success_kept clock.moment protocol (measured f result) s.health
                (record (apply f runtimes probe) {
                  proxy_types =
                      (apply f runtimes probe).proxy_types
                      ++ checked f clock.checked_on result ∷ [];
                }) in
            let kept = apply_kept f runtimes probe in
            rw ok (record {
              done = refl;
              pass = λ h. (
                refl,
                (
                  refl,
                  (
                    _,
                    (
                      refl,
                      record {
                        ip = recorded.0 ∙ kept.0;
                        port = recorded.1.0 ∙ kept.1.0;
                        one_type = (
                          result,
                          (
                            refl,
                            recorded.1.1.0
                                ∙ ap (λ ts. ts ++ checked f clock.checked_on result ∷ [])
                                    kept.1.1.0,
                          ),
                        );
                        no_expectation = recorded.1.1.1 ∙ kept.1.1.1;
                      },
                    ),
                  ),
                ),
              );
              fail = λ h. absurd (ground (arith, h, ok));
            })
        | inr other ↦ rw other (record {
          done = refl;
          pass = λ h. absurd (ground (arith, h, other));
          fail = λ h. (refl, (refl, refl));
        })
      ]
