-- ===== src/Validator/Probe/Tests.antt =====
-- Two judges: one that never answers, and one that answers the second time.
use flx.Base.{refl, true, false, some, ◌≡◌, ℕ_eq, nat_eq, [], list_eq, ◌∷◌, if◌then◌else◌, ℕ, List}
use flx.Validator.Probe.Bounded.{probes-Ends, EndsWell, Ends}
use flx.Validator.Probe.{
  Loop, http_reaction, react, http_try, Reach, http_targets, Ask, support_tunnel, http_attempts,
  support_http,
}
use flx.Base.Bytes.{codes, Bytes}
use flx.Proxy.Protocol.{Anonymity, Protocol}
use flx.Validator.Judgement.{Verdict}

abbrev ask : ℕ → Bytes → Ask
ask attempt url =
    if list_eq url (codes "a")
    then Ask.unreachable
    else if nat_eq attempt 0
    then Ask.answered Verdict.no_cookie
    else Ask.answered (Verdict.level Anonymity.elite)

abbrev reach : ℕ → Bytes → Reach
reach offset url = if list_eq url (codes "a") then Reach.late else Reach.reached Anonymity.elite

abbrev judges : List Bytes
judges = codes "a" ∷ codes "b" ∷ []

probes-Ends_example :
    Ends (support_http ask judges 3)
    × EndsWell (support_tunnel reach (Protocol.https Anonymity.unknown) judges 3)
probes-Ends_example = probes-Ends ask reach (Protocol.https Anonymity.unknown) judges 3

-- The first judge is asked once in three attempts.
second_attempt :
    support_http ask judges 3
    ≡ Loop.ended (some (Protocol.http Anonymity.elite)) (record {
      cooling_down = codes "a" ∷ [];
      reports = (codes "a", false) ∷ (codes "b", true) ∷ [];
    })
unfolding support_http http_attempts http_targets http_try react http_reaction
second_attempt = refl
