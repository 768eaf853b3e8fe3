-- ===== src/Validator/Jobs.antt =====
-- src/validator/work.rs: which probes a candidate gets. The loops over vectors pass what they collect
-- from round to round; a `HashSet` is the list of what it holds.
pub mod Keys
pub mod Pairs
pub mod Missed
pub mod Once
mod Tests
use flx.Base.{
  ℕ, ◌≡◌, ◌↔◌, Bool, true, false, not, ◌&&◌, ◌||◌, List, [], ◌∷◌, ◌++◌, Eq, if◌then◌else◌, nat_eq,
  any, contains, arith,
}
use flx.Proxy.Protocol.{
  Anonymity, Protocol, Protocol_eq, anonymity_eq, protocol_eq, protocol_eq_iff,
}

-- The comparison is of the levels for HTTP and HTTPS, and of the whole otherwise.
unfoldable pub protocol_matches : Protocol → Protocol → (Anonymity → Anonymity → Bool) → Bool
protocol_matches (Protocol.http left) (Protocol.http right) on_http_https = on_http_https left right
protocol_matches (Protocol.https left) (Protocol.https right) on_http_https =
    on_http_https left right
protocol_matches (Protocol.connect left) (Protocol.connect right) on_http_https = nat_eq left right
protocol_matches a b on_http_https = protocol_eq a b

abbrev pub advertised_level : Anonymity → Anonymity → Bool
advertised_level left right =
    anonymity_eq left Anonymity.unknown
    || (anonymity_eq right Anonymity.unknown || anonymity_eq left right)

unfoldable pub advertised_matches_request : Protocol → Protocol → Bool
unfolding protocol_matches
advertised_matches_request advertised requested =
    protocol_matches advertised requested advertised_level

abbrev pub measured_level : Anonymity → Anonymity → Bool
measured_level actual required =
    anonymity_eq required Anonymity.unknown || anonymity_eq actual required

unfoldable pub result_satisfies_request : Protocol → Protocol → Bool
unfolding protocol_matches
result_satisfies_request result requested = protocol_matches result requested measured_level

pub data ProbeFamily : Type 0 where
  http_family https_family socks4_family socks5_family : ProbeFamily
  connect_family : ℕ → ProbeFamily

unfoldable pub probe_family : Protocol → ProbeFamily
probe_family (Protocol.http _) = ProbeFamily.http_family
probe_family (Protocol.https _) = ProbeFamily.https_family
probe_family Protocol.socks4 = ProbeFamily.socks4_family
probe_family Protocol.socks5 = ProbeFamily.socks5_family
probe_family (Protocol.connect port) = ProbeFamily.connect_family port

abbrev pub family_eq : ProbeFamily → ProbeFamily → Bool
family_eq ProbeFamily.http_family ProbeFamily.http_family = true
family_eq ProbeFamily.https_family ProbeFamily.https_family = true
family_eq ProbeFamily.socks4_family ProbeFamily.socks4_family = true
family_eq ProbeFamily.socks5_family ProbeFamily.socks5_family = true
family_eq (ProbeFamily.connect_family p) (ProbeFamily.connect_family q) = nat_eq p q
family_eq _ _ = false

pub family_eq_iff : (a b : ProbeFamily) → (family_eq a b ≡ true) ↔ (a ≡ b)
family_eq_iff a b = ground arith

-- The key of a probe, and a job: the protocol to probe and the protocol requested.
abbrev pub ProbeKey : Type 0
ProbeKey = ProbeFamily × Protocol

abbrev pub Job : Type 0
Job = Protocol × Protocol

abbrev pub probe_key_eq : ProbeKey → ProbeKey → Bool
probe_key_eq (f, p) (g, q) = family_eq f g && protocol_eq p q

pub probe_key_eq_iff : (a b : ProbeKey) → (probe_key_eq a b ≡ true) ↔ (a ≡ b)
probe_key_eq_iff (f, p) (g, q) = ground (arith, family_eq_iff f g, protocol_eq_iff p q)

instance abbrev pub ProbeKey_eq : Eq ProbeKey
ProbeKey_eq = record { beq = probe_key_eq; beq_iff = probe_key_eq_iff }

-- With `probe_missed`: what has been seen of the requests, and the jobs.
abbrev pub Missed : Type 0
Missed = List Protocol × List Job

unfoldable pub miss : List Protocol → Protocol → Missed → Missed
miss advertised requested (seen, jobs) =
    if contains seen requested
    then (seen, jobs)
    else if any (λ (adv : Protocol). advertised_matches_request adv requested) advertised
    then (seen ++ requested ∷ [], jobs)
    else (seen ++ requested ∷ [], jobs ++ (requested, requested) ∷ [])

unfoldable pub miss_all : List Protocol → List Protocol → Missed → Missed
miss_all advertised [] s = s
miss_all advertised (req ∷ requested) s = miss_all advertised requested (miss advertised req s)

-- Without: the keys probed, and the jobs.
abbrev pub Probed : Type 0
Probed = List ProbeKey × List Job

-- `if seen_keys.insert(key) { jobs.push(job) }`
unfoldable pub push_new : ProbeKey → Job → Probed → Probed
push_new key job (seen_keys, jobs) =
    if contains seen_keys key then (seen_keys, jobs) else (seen_keys ++ key ∷ [], jobs ++ job ∷ [])

unfoldable pub request : Protocol → Protocol → List Protocol × Probed → List Protocol × Probed
request adv req (seen_req, probed) =
    if contains seen_req req
    then (seen_req, probed)
    else if not (advertised_matches_request adv req)
    then (seen_req ++ req ∷ [], probed)
    else (seen_req ++ req ∷ [], push_new (probe_family adv, req) (adv, req) probed)

unfoldable pub request_all :
    Protocol → List Protocol → List Protocol × Probed → List Protocol × Probed
request_all adv [] s = s
request_all adv (req ∷ requested) s = request_all adv requested (request adv req s)

unfoldable pub advertise :
    List Protocol → Protocol → List Protocol × Probed → List Protocol × Probed
advertise requested adv (seen_adv, probed) =
    if contains seen_adv adv
    then (seen_adv, probed)
    else (seen_adv ++ adv ∷ [], (request_all adv requested ([], probed)).1)

unfoldable pub advertise_all :
    List Protocol → List Protocol → List Protocol × Probed → List Protocol × Probed
advertise_all requested [] s = s
advertise_all requested (adv ∷ advertised) s =
    advertise_all requested advertised (advertise requested adv s)

unfoldable pub singleton_jobs : List Protocol → List Protocol → Bool → List Job
unfolding miss_all advertise_all
singleton_jobs advertised requested true = (miss_all advertised requested ([], [])).1
singleton_jobs advertised requested false = (advertise_all requested advertised ([], ([], []))).1.1
