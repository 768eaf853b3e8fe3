-- ===== src/Cli/Requests/Accepted.antt =====
-- What `is_valid_type_value` accepts, `split_type_requests` takes.
use flx.Proxy.Text.{from_str, Parsed}
use flx.Cli.Requests.{
  push_quota, push_part, is_valid_type_value, retain_new, rsplit_equals, split_type_requests,
  push_parts, take_tokens, take_token, is_empty, put_first, parse_usize, parse_sides, without_quota,
  with_quota, capped_by, split_plus, Requests, is_uncapped, parse_parts, valid_parts,
  parse_single_type,
}
use flx.Base.Bytes.{Bytes}
use flx.Proxy.Protocol.{Protocol}
use flx.Base.{
  ◌∙◌, if_false, sym, is_some, all, ap, ◌||◌, inr, inl, nat_eq, some, ◌≤◌, none, length-append, ℕ,
  ◌++◌, Bool-cases, if◌then◌else◌, Option, refl, [], ◌∷◌, arith, ◌+◌, false, length, true, ◌≡◌,
  List, Bool,
}
use flx.Cli.Quotas.{TypeQuota, uncapped}
use flx.Negotiators.Https.{contains_byte}

abbrev is_ok : Parsed Protocol → Bool
is_ok (Parsed.ok p) = true
is_ok (Parsed.err e) = false

ok_value : (x : Parsed Protocol) → is_ok x ≡ true → (p : Protocol) × (x ≡ Parsed.ok p)
ok_value (Parsed.ok p) h = (p, refl)
ok_value (Parsed.err e) h = absurd (ground (arith, h))

without_ok : (x : Parsed Protocol) → is_uncapped (without_quota x) ≡ true → is_ok x ≡ true
unfolding uncapped
without_ok (Parsed.ok p) h = refl
without_ok (Parsed.err e) h = h

capped_lem : (n : ℕ) (x : Parsed Protocol) → is_uncapped (capped_by n x) ≡ false
capped_lem n (Parsed.ok p) = refl
capped_lem n (Parsed.err e) = refl

with_quota_lem : (prefix : Bytes) (o : Option ℕ) → is_uncapped (with_quota prefix o) ≡ false
with_quota_lem prefix none = refl
with_quota_lem prefix (some n) = elim (Bool-cases (nat_eq n 0)) [
  | inl zero_ ↦ rw zero_ refl
  | inr more ↦ rw more (capped_lem n (from_str prefix))
]

sides_capped :
    (prefix suffix : Bytes) (bad : Bool)
    → ¬ (is_uncapped (if bad then none else with_quota prefix (parse_usize suffix)) ≡ true)
sides_capped prefix suffix true h = ground (arith, h)
sides_capped prefix suffix false h = ground (arith, h, with_quota_lem prefix (parse_usize suffix))

sides_ok :
    (value : Bytes) (o : Option (Bytes × Bytes))
    → is_uncapped (parse_sides value o) ≡ true
    → is_ok (from_str value) ≡ true
sides_ok value none h = without_ok (from_str value) h
sides_ok value (some (prefix, suffix)) h =
    absurd (
      sides_capped prefix suffix (is_empty prefix || (is_empty suffix || contains_byte 61 suffix))
        h)

-- A value that is accepted as one type with no quota is a protocol.
single_ok :
    (value : Bytes) → is_uncapped (parse_single_type value) ≡ true → is_ok (from_str value) ≡ true
unfolding parse_single_type
single_ok value h =
    elim (Bool-cases
      (contains_byte 43 value || (contains_byte 40 value || contains_byte 41 value))) [
        | inl bad ↦ absurd (ground (arith, h, bad))
        | inr good ↦
            sides_ok value (rsplit_equals value) (ap is_uncapped (sym (if_false _ _ _ good)) ∙ h)
      ]

parts_taken :
    (parts : List Bytes) (found : List Protocol) (r : Requests) (any_ : Bool)
    → valid_parts any_ parts ≡ true
    → ((parse_parts parts (found, r)).1 ≡ r)
      × (length (parse_parts parts (found, r)).0 ≡ length found + length parts)
unfolding valid_parts parse_parts
parts_taken [] found r any_ h = (refl, omega arith)
parts_taken (part ∷ parts) found r any_ h =
    let rest : valid_parts true parts ≡ true = ground (arith, h) in
    let (p, e) = ok_value (from_str part) (single_ok part (ground (arith, h))) in
    let (same, n) = parts_taken parts (found ++ p ∷ []) r true rest in
    let step = ap (λ x. parse_parts parts (push_part part x (found, r))) e in
    (
      ap (λ (y : List Protocol × Requests). y.1) step ∙ same,
      ap (λ (y : List Protocol × Requests). length y.0) step
          ∙ omega (arith, n, length-append found (p ∷ [])),
    )

put_length :
    (b : ℕ) (parts : List Bytes) → 1 ≤ length parts → length (put_first b parts) ≡ length parts
put_length b [] h = absurd (omega arith)
put_length b (part ∷ parts) h = refl

split_some :
    (text : Bytes)
    → (1 ≤ length (split_plus text)) × (contains_byte 43 text ≡ true → 2 ≤ length (split_plus text))
unfolding split_plus
split_some [] = (omega arith, λ h. absurd (ground (arith, h)))
split_some (b ∷ text) =
    let (one, two) = split_some text in
    let n = put_length b (split_plus text) one in
    (ground (arith, one, n), λ h. ground (arith, one, two, n, h))

abbrev pub count_of : Requests → ℕ
count_of r = length r.quotas + length r.groups

pushed :
    (parts : List Protocol) (r : Requests)
    → 2 ≤ length parts
    → ((push_parts (parts, r)).reported ≡ r.reported)
      × (count_of (push_parts (parts, r)) ≡ count_of r + 1)
unfolding push_parts
pushed [] r h = absurd (omega arith)
pushed (p ∷ []) r h = absurd (omega arith)
pushed (p ∷ q ∷ parts) r h =
    (refl, omega (arith, length-append r.groups (retain_new [] (p ∷ q ∷ parts) ∷ [])))

quota_pushed :
    (token : Bytes) (o : Option TypeQuota) (r : Requests)
    → is_some o ≡ true
    → ((push_quota token o r).reported ≡ r.reported)
      × (count_of (push_quota token o r) ≡ count_of r + 1)
quota_pushed token none r h = absurd (ground (arith, h))
quota_pushed token (some q) r h = (refl, omega (arith, length-append r.quotas (q ∷ [])))

Taken : Requests → Requests → Type 0
Taken r r' = (r'.reported ≡ r.reported) × (count_of r' ≡ count_of r + 1)

token-Taken :
    (token : Bytes) (r : Requests) → is_valid_type_value token ≡ true → Taken r (take_token token r)
unfolding Taken take_token is_valid_type_value
token-Taken token r h = elim (Bool-cases (contains_byte 43 token)) [
  | inl group ↦ elim (Bool-cases (contains_byte 61 token)) [
    | inl capped ↦ absurd (ground (arith, h, group, capped))
    | inr plain ↦
        let valid : valid_parts false (split_plus token) ≡ true = ground (arith, h, group, plain) in
        let (same, n) = parts_taken (split_plus token) [] r false valid in
        let parsed = parse_parts (split_plus token) ([], r) in
        let (kept, more) =
          pushed parsed.0 parsed.1 (omega (arith, n, (split_some token).1 group)) in
        rw (group, plain)
          (
            kept ∙ ap (λ (x : Requests). x.reported) same,
            more ∙ ap (λ (x : Requests). count_of x + 1) same,
          )
  ]
  | inr single ↦
      let one : is_some (parse_single_type token) ≡ true = ground (arith, h, single) in
      let (kept, more) = quota_pushed token (parse_single_type token) r one in
      let branch = if_false (contains_byte 43 token) _ _ single in
      (
        ap (λ (x : Requests). x.reported) branch ∙ kept,
        ap (λ (x : Requests). count_of x) branch ∙ more,
      )
]

tokens_taken :
    (tokens : List Bytes) (r : Requests)
    → all is_valid_type_value tokens ≡ true
    → ((take_tokens tokens r).reported ≡ r.reported)
      × (count_of (take_tokens tokens r) ≡ count_of r + length tokens)
unfolding Taken take_tokens
tokens_taken [] r h = (refl, omega arith)
tokens_taken (token ∷ tokens) r h =
    let (kept, more) = token-Taken token r (ground (arith, h)) in
    let (kept', more') = tokens_taken tokens (take_token token r) (ground (arith, h)) in
    (kept' ∙ kept, omega (arith, more, more'))

-- Of tokens that the command line accepts, `split_type_requests` reports none as invalid, and each token
-- comes to exactly one quota or one group.
pub split_type_requests_lem :
    (tokens : List Bytes)
    → all is_valid_type_value tokens ≡ true
    → ((split_type_requests tokens).reported ≡ [])
      × (length (split_type_requests tokens).quotas + length (split_type_requests tokens).groups
          ≡ length tokens)
unfolding split_type_requests
split_type_requests_lem tokens h =
    let none_yet : Requests = record { quotas = []; groups = []; reported = [] } in
    let (kept, n) = tokens_taken tokens none_yet h in (kept, n ∙ omega arith)
