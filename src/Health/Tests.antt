-- ===== src/Health/Tests.antt =====
-- The history at a few records, and a JSON writer for one record to run the store with.
use flx.Base.{
  ℕ, ◌≡◌, refl, Bool, true, false, ◌&&◌, List, [], ◌∷◌, Option, none, some, if◌then◌else◌, nat_eq,
  contains, ℕ_eq, filter, arith,
}
use flx.Base.Bytes.{Bytes}
use flx.Health.{Endpoint_eq, HealthRecord, HealthStats, apply_all, stats}
use flx.Health.History.{about, IsHistory, stats-IsHistory}
use flx.Health.Store.{Append, Attempt, HealthStore, StoredRecord, strip_cr, lines, blank}
use flx.Health.Store.Json.{Json, stored, IsCurrent}
use flx.Health.Store.Json.{Json, stored, IsCurrent}
use flx.Health.Store.Reload.{IsReloaded, run-IsReloaded}
use flx.Proxy.Address.{Ipv4Addr, addr_eq, addr_eq_iff}
use flx.Proxy.Protocol.{Anonymity}
use flx.Proxy.Sample.{whole}

abbrev ip : Ipv4Addr
ip = record { a = 1; b = 2; c = 3; d = 4 }

abbrev probe : Bool → Option Anonymity → HealthRecord whole
probe success level = record {
  schema = 1;
  timestamp = 5;
  ip = ip;
  port = 8080;
  protocol = [];
  success = success;
  latency_secs = none;
  anonymity = level;
  reason = none;
}

abbrev three_probes : List (HealthRecord whole)
three_probes =
    probe true (some Anonymity.elite)
    ∷ probe false none
    ∷ probe true (some Anonymity.anonymous)
    ∷ []

stats-IsHistory_example :
    IsHistory whole
      (stats whole (ip, 8080) (apply_all whole [] three_probes))
      (filter (about whole (ip, 8080)) three_probes)
stats-IsHistory_example = stats-IsHistory whole (ip, 8080) three_probes

abbrev two_successes : HealthStats whole
two_successes = record {
  successes = 2;
  failures = 1;
  latency_total = 4;
  anonymity = some Anonymity.elite;
  last_checked = 5;
}

-- The JSON of `probe`, and of no other record.
abbrev level_is_none : Option Anonymity → Bool
level_is_none none = true
level_is_none (some a) = false

abbrev latency_is_none : Option ℕ → Bool
latency_is_none none = true
latency_is_none (some a) = false

abbrev text_is_empty : Bytes → Bool
text_is_empty [] = true
text_is_empty (b ∷ text) = false

abbrev is_probe : HealthRecord whole → Bool
is_probe r =
    nat_eq r.schema 1
    && (nat_eq r.timestamp 5
        && (addr_eq r.ip ip
            && (nat_eq r.port 8080
                && (text_is_empty r.protocol
                    && (latency_is_none r.latency_secs && level_is_none r.anonymity)))))

abbrev digit : Bool → ℕ
digit true = 49
digit false = 48

abbrev write : HealthRecord whole → Option Bytes
write r = if is_probe r then some (123 ∷ digit r.success ∷ 125 ∷ []) else none

abbrev parse : Bytes → Option (StoredRecord whole)
parse (a ∷ b ∷ c ∷ []) = some (stored whole (λ x. x) (probe (nat_eq b 49) none))
parse _ = none

write-object :
    (r : HealthRecord whole) (body : Bytes)
    → write r ≡ some body
    → (rest : Bytes) × (body ≡ 123 ∷ rest)
write-object r body h = (digit r.success ∷ 125 ∷ [], ground arith)

write_escaped :
    (r : HealthRecord whole) (body : Bytes)
    → write r ≡ some body
    → (contains body 10 ≡ false) × (contains body 13 ≡ false)
write_escaped r body h = (ground arith, ground arith)

parse-write :
    (r : HealthRecord whole) (body : Bytes)
    → IsCurrent whole r
    → write r ≡ some body
    → parse body ≡ some (stored whole (λ x. x) r)
parse-write r body h e = ground (arith, addr_eq_iff r.ip ip)

abbrev one_record : Json whole
one_record = record {
  to_vec = write;
  from_str = parse;
  round = λ x. x;
  to_vec-object = write-object;
  to_vec_escaped = write_escaped;
  from_str-to_vec = parse-write;
}

abbrev plain : Attempt
plain = record { first = Append.written; reopened = false; second = Append.written }

abbrev after_shutdown : Attempt
after_shutdown = record { first = Append.stopped [] true; reopened = true; second = Append.written }

abbrev refused : Attempt
refused = record { first = Append.stopped [] false; reopened = false; second = Append.written }

abbrev three_calls : List (HealthRecord whole × Attempt)
three_calls =
    (probe true none, plain) ∷ (probe true none, refused) ∷ (probe false none, after_shutdown) ∷ []

abbrev new_store : HealthStore whole
new_store = record { file = []; state = [] }

abbrev probe_current : (b : Bool) → IsCurrent whole (probe b none)
probe_current b = record { schema = refl; timestamp = refl; latency = refl }

run-IsReloaded_example : IsReloaded whole one_record three_calls new_store
run-IsReloaded_example =
    run-IsReloaded whole one_record three_calls new_store
      (probe_current true, refl, (probe_current true, refl, (probe_current false, refl, tt))) refl

-- A file with a blank line, a line that ends with a carriage return and a last line with no newline.
lines_of_text : lines (65 ∷ 13 ∷ 10 ∷ 10 ∷ 66 ∷ []) ≡ (65 ∷ []) ∷ [] ∷ (66 ∷ []) ∷ []
unfolding lines strip_cr
lines_of_text = refl

blanks : blank (32 ∷ 0xe2 ∷ 0x80 ∷ 0x83 ∷ 9 ∷ []) ≡ true
unfolding blank
blanks = refl
