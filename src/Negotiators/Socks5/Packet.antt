-- ===== src/Negotiators/Socks5/Packet.antt =====
-- The request of src/negotiators/socks5.rs.
use flx.Base.{none, some, Option, ℕ, [], ◌∷◌, if◌then◌else◌, ltb, length}
use flx.Base.Bytes.{Bytes}
use flx.Base.Outcome.{Outcome, returned, ◌>>=◌}
use flx.Negotiators.Buffer.{Cursor, start, put, filled}
use flx.Negotiators.Wire.{be16}
use flx.Proxy.Address.{Ipv4Addr}

-- What `str::parse::<IpAddr>` makes of a host; an IPv6 address is its sixteen octets.
pub data Host : Type 0 where
  v4 : Ipv4Addr → Host
  v6 : Bytes → Host
  name : Host

-- `none` is the error of a host name over 255 bytes.
abbrev pub put_host : Bytes → Host → Cursor → Outcome (Option Cursor)
put_host host (v4 ip) c = do
  c1 ← put (1 ∷ []) c
  c2 ← put (ip.a ∷ ip.b ∷ ip.c ∷ ip.d ∷ []) c1
  returned (some c2)
put_host host (v6 octets) c = do c1 ← put (4 ∷ []) c; c2 ← put octets c1; returned (some c2)
put_host host name c = if ltb 255 (length host) then returned none else do
  c1 ← put (3 ∷ []) c
  c2 ← put (length host ∷ []) c1
  c3 ← put host c2
  returned (some c3)

abbrev pub put_port : ℕ → Option Cursor → Outcome (Option Bytes)
put_port port none = returned none
put_port port (some c) = do c' ← put (be16 port) c; returned (some (filled c'))

unfoldable pub build_connect_request : (Bytes → Host) → Bytes → Bytes → ℕ → Outcome (Option Bytes)
build_connect_request parse buf host port = do
  c1 ← put (5 ∷ 1 ∷ 0 ∷ []) (start buf)
  c2 ← put_host host (parse host) c1
  put_port port c2
