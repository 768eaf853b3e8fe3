-- ===== src/Cli/Requests/Tests.antt =====
-- A cap, a group that names a protocol twice, and a value that is no type.
use flx.Cli.Requests.{
  rsplit_equals, digits, parse_usize, split_plus, parse_single_type, valid_parts,
  split_type_requests, is_valid_type_value,
}
use flx.Base.{true, all, refl, false, ◌+◌, ◌∷◌, length, [], ◌≡◌, List}
use flx.Base.Bytes.{codes, Bytes}
use flx.Proxy.Text.{
  trim, after_colon, digits_from, parse_u16, parse_anonymity, second_part, first_part, from_str,
}
use flx.Cli.Requests.Accepted.{split_type_requests_lem}
use flx.Cli.Quotas.{uncapped}

abbrev tokens : List Bytes
tokens = codes "HTTP=8" ∷ codes "SOCKS4+SOCKS5+SOCKS4" ∷ codes "CONNECT:25" ∷ []

tokens_are_valid : all is_valid_type_value tokens ≡ true
unfolding is_valid_type_value valid_parts split_plus parse_single_type parse_usize digits
    rsplit_equals from_str first_part second_part parse_anonymity parse_u16 digits_from uncapped
    after_colon trim
tokens_are_valid = refl

split_type_requests_lem_example :
    ((split_type_requests tokens).reported ≡ [])
    × (length (split_type_requests tokens).quotas + length (split_type_requests tokens).groups ≡ 3)
split_type_requests_lem_example = split_type_requests_lem tokens tokens_are_valid

-- A zero quota is refused.
zero_quota : is_valid_type_value (codes "HTTP=0") ≡ false
unfolding is_valid_type_value parse_single_type parse_usize digits rsplit_equals
zero_quota = refl
