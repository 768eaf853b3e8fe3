-- ===== src/Cli/Requests.antt =====
-- src/cli/quotas.rs: the `TYPES` of the command line, as quotas and groups.
pub mod Accepted
mod Tests
use flx.Proxy.Text.{from_str, Parsed}
use flx.Base.Bytes.{Bytes}
use flx.Base.{
  ◌^◌, ◌-◌, ◌+◌, ◌*◌, ltb, ◌||◌, ◌&&◌, is_some, leb, some, contains, false, nat_eq, ℕ, [], ◌∷◌,
  none, ◌++◌, if◌then◌else◌, true, Bool, Option, List,
}
use flx.Cli.Quotas.{is_none, TypeQuota, uncapped}
use flx.Proxy.Protocol.{Protocol_eq, Protocol}
use flx.Negotiators.Https.{contains_byte}

-- `str::parse::<usize>`: an optional plus sign and at least one digit, below 2 ^ 64.
abbrev add_digit : ℕ → ℕ → Option ℕ
add_digit n b =
    if leb 48 b && leb b 57
    then (if ltb (n * 10 + (b - 48)) (2 ^ 64) then some (n * 10 + (b - 48)) else none)
    else none

unfoldable pub digits : Option ℕ → Bytes → Option ℕ
digits none text = none
digits (some n) [] = some n
digits (some n) (b ∷ text) = digits (add_digit n b) text

abbrev unsigned : Bytes → Option ℕ
unsigned [] = none
unsigned (b ∷ text) = digits (some 0) (b ∷ text)

unfoldable pub parse_usize : Bytes → Option ℕ
unfolding digits
parse_usize [] = none
parse_usize (b ∷ text) = if nat_eq b 43 then unsigned text else unsigned (b ∷ text)

abbrev split_here : ℕ → Bytes → Option (Bytes × Bytes) → Option (Bytes × Bytes)
split_here c text (some (before, after)) = some (c ∷ before, after)
split_here c text none = if nat_eq c 61 then some ([], text) else none

-- `rsplit_once('=')`
unfoldable pub rsplit_equals : Bytes → Option (Bytes × Bytes)
rsplit_equals [] = none
rsplit_equals (c ∷ text) = split_here c text (rsplit_equals text)

abbrev pub is_empty : Bytes → Bool
is_empty [] = true
is_empty (b ∷ text) = false

abbrev pub capped_by : ℕ → Parsed Protocol → Option TypeQuota
capped_by quota (Parsed.err e) = none
capped_by quota (Parsed.ok protocol) = some (record { protocol = protocol; quota = some quota })

abbrev pub with_quota : Bytes → Option ℕ → Option TypeQuota
with_quota prefix none = none
with_quota prefix (some quota) = if nat_eq quota 0 then none else capped_by quota (from_str prefix)

abbrev pub without_quota : Parsed Protocol → Option TypeQuota
without_quota (Parsed.err e) = none
without_quota (Parsed.ok protocol) = some (uncapped protocol)

abbrev pub parse_sides : Bytes → Option (Bytes × Bytes) → Option TypeQuota
parse_sides value none = without_quota (from_str value)
parse_sides value (some (prefix, suffix)) =
    if is_empty prefix || (is_empty suffix || contains_byte 61 suffix)
    then none
    else with_quota prefix (parse_usize suffix)

unfoldable pub parse_single_type : Bytes → Option TypeQuota
unfolding rsplit_equals parse_usize from_str uncapped
parse_single_type value =
    if contains_byte 43 value || (contains_byte 40 value || contains_byte 41 value)
    then none
    else parse_sides value (rsplit_equals value)

-- `split('+')`
abbrev pub put_first : ℕ → List Bytes → List Bytes
put_first b [] = (b ∷ []) ∷ []
put_first b (part ∷ parts) = (b ∷ part) ∷ parts

unfoldable pub split_plus : Bytes → List Bytes
split_plus [] = [] ∷ []
split_plus (b ∷ text) = if nat_eq b 43 then [] ∷ split_plus text else put_first b (split_plus text)

abbrev pub is_uncapped : Option TypeQuota → Bool
is_uncapped none = false
is_uncapped (some q) = is_none q.quota

-- The loop over the parts of a group, with `any` so far.
unfoldable pub valid_parts : Bool → List Bytes → Bool
unfolding parse_single_type
valid_parts any_ [] = any_
valid_parts any_ (part ∷ parts) =
    let rest = valid_parts true parts in
    if is_empty part then false else if is_uncapped (parse_single_type part) then rest else false

unfoldable pub is_valid_type_value : Bytes → Bool
unfolding valid_parts split_plus
is_valid_type_value value =
    if contains_byte 43 value
    then (if contains_byte 61 value then false else valid_parts false (split_plus value))
    else is_some (parse_single_type value)

-- The quotas, the groups, and the values that are reported as invalid.
pub record Requests : Type 0 where
  pub quotas : List TypeQuota
  pub groups : List (List Protocol)
  pub reported : List Bytes

abbrev pub report : Bytes → Requests → Requests
report value r = record r { reported = r.reported ++ value ∷ [] }

abbrev pub push_part : Bytes → Parsed Protocol → List Protocol × Requests → List Protocol × Requests
push_part part (Parsed.ok protocol) (parts, r) = (parts ++ protocol ∷ [], r)
push_part part (Parsed.err e) (parts, r) = (parts, report part r)

unfoldable pub parse_parts : List Bytes → List Protocol × Requests → List Protocol × Requests
unfolding from_str
parse_parts [] s = s
parse_parts (part ∷ rest) s = parse_parts rest (push_part part (from_str part) s)

unfoldable pub retain_new : List Protocol → List Protocol → List Protocol
retain_new seen [] = []
retain_new seen (p ∷ group) =
    let rest = retain_new (if contains seen p then seen else seen ++ p ∷ []) group in
    if contains seen p then rest else p ∷ rest

-- What the parts of a group come to.
unfoldable pub push_parts : List Protocol × Requests → Requests
unfolding retain_new uncapped
push_parts ([], r) = r
push_parts (p ∷ [], r) = record r { quotas = r.quotas ++ uncapped p ∷ [] }
push_parts (p ∷ q ∷ parts, r) = record r { groups = r.groups ++ retain_new [] (p ∷ q ∷ parts) ∷ [] }

abbrev pub push_quota : Bytes → Option TypeQuota → Requests → Requests
push_quota token none r = report token r
push_quota token (some q) r = record r { quotas = r.quotas ++ q ∷ [] }

unfoldable pub take_token : Bytes → Requests → Requests
unfolding parse_parts push_parts split_plus parse_single_type
take_token token r =
    if contains_byte 43 token
    then (if contains_byte 61 token
        then report token r
        else push_parts (parse_parts (split_plus token) ([], r)))
    else push_quota token (parse_single_type token) r

unfoldable pub take_tokens : List Bytes → Requests → Requests
unfolding take_token
take_tokens [] r = r
take_tokens (token ∷ tokens) r = take_tokens tokens (take_token token r)

unfoldable pub split_type_requests : List Bytes → Requests
unfolding take_tokens
split_type_requests tokens = take_tokens tokens (record { quotas = []; groups = []; reported = [] })
