-- ===== src/Negotiators/Socks4/Handshake.antt =====
-- `negotiate_with_auth` of src/negotiators/socks4.rs.
use flx.Base.{ℕ, ◌||◌, [], Option, none, some, if◌then◌else◌, ltb, nat_eq, length, replicate}
use flx.Base.Bytes.{Bytes}
use flx.Base.Outcome.{index}
use flx.Negotiators.Socks4.Packet.{build_connect_request}
use flx.Negotiators.Wire.{
  Talk, Uri, target_port, write_all, read_exact, bail, give, lift, context, rejected, unsupported,
  bad_version, too_long, no_host, no_port, ◌>>=◌, ◌>>◌,
}
use flx.Proxy.Address.{Ipv4Addr}
use flx.Proxy.Model.{ProxyAuth}

abbrev pub user_of : Option ProxyAuth → Bytes
user_of none = []
user_of (some auth) = auth.username

-- What a code says.
abbrev pub check_code : ℕ → Talk (Unit {0})
check_code code =
    if nat_eq code 90
    then give tt
    else if nat_eq code 91 || (nat_eq code 92 || nat_eq code 93)
    then bail rejected
    else bail unsupported

-- The version and the code of the eight bytes that answer.
unfoldable pub check_response : Bytes → Talk (Unit {0})
check_response response = do
  version ← lift (index response 0)
  if nat_eq version 0
      then (do code ← lift (index response 1); check_code code)
      else bail bad_version

unfoldable pub read_answer : Talk (Unit {0})
unfolding check_response
read_answer = do response ← read_exact 8; check_response response

module _ (parse : Bytes → Option Ipv4Addr) where
  unfoldable pub connect_to : Bytes → ℕ → Bytes → Talk (Unit {0})
  unfolding read_answer
  connect_to host port user_id = if ltb 255 (length user_id) then bail too_long else (do
    packet ← lift (build_connect_request parse (replicate 512 0) host port user_id)
    write_all packet
    read_answer)

  unfoldable pub negotiate_with_auth : Uri → Option ProxyAuth → Talk (Unit {0})
  unfolding connect_to
  negotiate_with_auth uri auth = do
    host ← context uri.host no_host
    port ← context (target_port uri) no_port
    connect_to host port (user_of auth)

  -- `negotiate` runs it with no credentials.
  unfoldable pub negotiate : Uri → Talk (Unit {0})
  unfolding negotiate_with_auth
  negotiate uri = negotiate_with_auth uri none
