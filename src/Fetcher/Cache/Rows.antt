-- ===== src/Fetcher/Cache/Rows.antt =====
-- The row format of src/fetcher/cache.rs: `store_rows` writes it, `decode_rows` reads it.
pub mod RoundTrip
pub mod Safety
mod Tests
use flx.Base.{
  ℕ, zero, suc, ◌+◌, ◌-◌, ◌*◌, ◌/◌, ◌%◌, ◌^◌, ◌<◌, Bool, true, false, not, ◌||◌, ◌&&◌, List, [],
  ◌∷◌, ◌++◌, Option, none, some, length, if◌then◌else◌, ltb, leb, nat_eq,
}
use flx.Base.Bytes.{Bytes, codes}
use flx.Base.Outcome.{Outcome, panicked, returned, ◌>>=◌, index}
use flx.Proxy.Address.{Ipv4Addr, IsAddr}
use flx.Proxy.Protocol.{
  Anonymity, elite, transparent, anonymous, unknown, Protocol, http, https, socks4, socks5, connect,
}

-- `ParsedProxy` of src/providers/parsers.rs.
pub record Row : Type 0 where
  pub ip : Ipv4Addr
  pub port : ℕ
  pub protocol : Option Protocol

-- `u16::to_le_bytes`, `u32::to_le_bytes` and their inverses.
unfoldable pub le16 : ℕ → Bytes
le16 n = n % 256 ∷ n / 256 % 256 ∷ []

unfoldable pub le32 : ℕ → Bytes
le32 n = n % 256 ∷ n / 256 % 256 ∷ n / 65536 % 256 ∷ n / 16777216 % 256 ∷ []

unfoldable pub of_le16 : ℕ → ℕ → ℕ
of_le16 a b = a + 256 * b

unfoldable pub of_le32 : ℕ → ℕ → ℕ → ℕ → ℕ
of_le32 a b c d = a + 256 * b + 65536 * c + 16777216 * d

-- `CACHE_MAGIC`
abbrev pub cache_magic : Bytes
cache_magic = codes "FLXPCW02"

unfoldable pub anon_code : Anonymity → ℕ
anon_code elite = 0
anon_code transparent = 1
anon_code anonymous = 2
anon_code unknown = 3

unfoldable pub anon_from_code : ℕ → Option Anonymity
anon_from_code code =
    if nat_eq code 0
    then some elite
    else if nat_eq code 1
    then some transparent
    else if nat_eq code 2
    then some anonymous
    else if nat_eq code 3
    then some unknown
    else none

unfoldable pub protocol_code : Option Protocol → Option ℕ
unfolding anon_code
protocol_code none = none
protocol_code (some (http a)) = some (1 + anon_code a)
protocol_code (some (https a)) = some (5 + anon_code a)
protocol_code (some socks4) = some 9
protocol_code (some socks5) = some 10
protocol_code (some (connect _)) = some 11

abbrev map_level : (Anonymity → Protocol) → Option Anonymity → Option Protocol
map_level f none = none
map_level f (some a) = some (f a)

unfoldable pub protocol_from_code : ℕ → Option Protocol
unfolding anon_from_code
protocol_from_code code =
    if leb 1 code && leb code 4
    then map_level http (anon_from_code (code - 1))
    else if leb 5 code && leb code 8
    then map_level https (anon_from_code (code - 5))
    else if nat_eq code 9
    then some socks4
    else if nat_eq code 10
    then some socks5
    else none

abbrev pub or_zero : Option ℕ → ℕ
or_zero none = 0
or_zero (some n) = n

-- The `match protocol` of `store_rows`.
unfoldable pub encode_protocol : Option Protocol → Bytes
unfolding protocol_code
encode_protocol none = 0 ∷ []
encode_protocol (some (connect p)) = 11 ∷ le16 p
encode_protocol (some p) = or_zero (protocol_code (some p)) ∷ []

unfoldable pub encode_row : Row → Bytes
encode_row r = r.ip.a ∷ r.ip.b ∷ r.ip.c ∷ r.ip.d ∷ (le16 r.port ++ encode_protocol r.protocol)

unfoldable pub encode_loop : List Row → Bytes
encode_loop [] = []
encode_loop (r ∷ rows) = encode_row r ++ encode_loop rows

-- The body that `store_rows` writes; `rows.len() as u32` wraps.
unfoldable pub encode_rows : List Row → Bytes
encode_rows rows = cache_magic ++ (le32 (length rows % 2 ^ 32) ++ encode_loop rows)

-- The protocol of a row, and the cursor behind it. `none` is the early `return None`.
unfoldable pub decode_protocol : Bytes → ℕ → ℕ → Outcome (Option (Option Protocol × ℕ))
decode_protocol body cursor code =
    if nat_eq code 0
    then returned (some (none, cursor))
    else if nat_eq code 11
    then (if ltb (length body) (cursor + 2) then returned none else do
      a ← index body cursor
      b ← index body (cursor + 1)
      returned (some (some (connect (of_le16 a b)), cursor + 2)))
    else returned (some (protocol_from_code code, cursor))

abbrev row_with : Ipv4Addr → ℕ → Option (Option Protocol × ℕ) → Option (Row × ℕ)
row_with ip port none = none
row_with ip port (some (p, cursor)) = some (record { ip = ip; port = port; protocol = p }, cursor)

-- One round of the loop of `decode_rows`: the row, and the cursor behind it.
unfoldable pub decode_row : Bytes → ℕ → Outcome (Option (Row × ℕ))
decode_row body cursor = if ltb (length body) (cursor + 7) then returned none else do
  a ← index body cursor
  b ← index body (cursor + 1)
  c ← index body (cursor + 2)
  d ← index body (cursor + 3)
  lo ← index body (cursor + 4)
  hi ← index body (cursor + 5)
  code ← index body (cursor + 6)
  protocol ← decode_protocol body (cursor + 7) code
  returned (row_with (record { a = a; b = b; c = c; d = d }) (of_le16 lo hi) protocol)

-- `rows` holds what was pushed so far.
unfoldable pub decode_loop : ℕ → Bytes → ℕ → List Row → Outcome (Option (List Row))
decode_loop zero body cursor rows = returned (some rows)
decode_loop (suc n) body cursor rows = do
  next ← decode_row body cursor
  elim next [
    | none ↦ returned none
    | some (r, cursor') ↦ decode_loop n body cursor' (rows ++ r ∷ [])
  ]

abbrev pub starts_with : Bytes → Bytes → Bool
starts_with [] body = true
starts_with (m ∷ magic) [] = false
starts_with (m ∷ magic) (b ∷ body) = nat_eq m b && starts_with magic body

unfoldable pub decode_rows : Bytes → Outcome (Option (List Row))
decode_rows body =
    if ltb (length body) 12 || not (starts_with cache_magic body) then returned none else do
      a ← index body 8
      b ← index body 9
      c ← index body 10
      d ← index body 11
      decode_loop (of_le32 a b c d) body 12 []
