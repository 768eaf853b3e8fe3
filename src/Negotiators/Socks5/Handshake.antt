-- ===== src/Negotiators/Socks5/Handshake.antt =====
-- `negotiate_with_auth` of src/negotiators/socks5.rs.
use flx.Base.{
  ℕ, ◌+◌, not, [], ◌∷◌, ◌++◌, Option, none, some, if◌then◌else◌, ltb, nat_eq, length, list_eq, ℕ_eq,
  replicate, ◌%◌, ◌^◌,
}
use flx.Base.Bytes.{Bytes}
use flx.Base.Outcome.{index}
use flx.Negotiators.Socks5.Packet.{Host, build_connect_request}
use flx.Negotiators.Wire.{
  Answer, Talk, Uri, target_port, write_all, read_exact, bail, give, lift, context, rejected,
  unsupported, bad_version, bad_credentials, bad_address, too_long, no_host, no_port, ◌>>=◌, ◌>>◌,
}
use flx.Proxy.Model.{ProxyAuth, socks5_user_pass}

abbrev pub Credentials : Type 0
Credentials = Option (Bytes × Bytes)

-- The methods on offer: none, or none and a user name.
abbrev pub greeting : Credentials → Bytes
greeting none = 5 ∷ 1 ∷ 0 ∷ []
greeting (some _) = 5 ∷ 2 ∷ 0 ∷ 2 ∷ []

abbrev pub byte_of : ℕ → ℕ
byte_of n = n % 2 ^ 8

abbrev pub auth_request : Bytes × Bytes → Bytes
auth_request (user, pass) = 1 ∷ byte_of (length user) ∷ (user ++ byte_of (length pass) ∷ pass)

abbrev pub log_in : Bytes × Bytes → Talk (Unit {0})
log_in credentials = do
  write_all (auth_request credentials)
  auth_response ← read_exact 2
  if list_eq auth_response (1 ∷ 0 ∷ []) then give tt else bail rejected

abbrev pub refuse : ℕ → Talk (Unit {0})
refuse method = if nat_eq method 0xff then bail rejected else bail unsupported

abbrev pub authenticate : ℕ → Credentials → Talk (Unit {0})
authenticate method none = if nat_eq method 0 then give tt else refuse method
authenticate method (some c) = if nat_eq method 2 then log_in c else refuse method

unfoldable pub choose : Credentials → Talk (Unit {0})
choose credentials = do
  write_all (greeting credentials)
  response ← read_exact 2
  version ← lift (index response 0)
  if not (nat_eq version 5)
      then bail bad_version
      else (do method ← lift (index response 1); authenticate method credentials)

-- How long the address of the reply is, and the two bytes of its port.
abbrev pub read_length : Talk ℕ
read_length = do length ← read_exact 1; lift (index length 0)

abbrev pub address_length : ℕ → Talk ℕ
address_length address_type =
    if nat_eq address_type 1
    then give 4
    else if nat_eq address_type 4
    then give 16
    else if nat_eq address_type 3
    then read_length
    else bail bad_address

-- `&mut tail_buf[..tail_len]` of an array of 258 bytes.
abbrev pub read_tail : ℕ → Talk (Unit {0})
read_tail tail_len w =
    if ltb 258 tail_len then (Answer.panicked, w) else (do _ ← read_exact tail_len; give tt) w

unfoldable pub read_reply : Talk (Unit {0})
read_reply = do
  response ← read_exact 4
  version ← lift (index response 0)
  if not (nat_eq version 5) then bail bad_version else (do
    status ← lift (index response 1)
    if not (nat_eq status 0) then bail rejected else (do
      address_type ← lift (index response 3)
      address_length ← address_length address_type
      read_tail (address_length + 2)))

-- `transpose` of the credentials: bad ones end the handshake before anything is sent.
abbrev pub credentials_of : Option ProxyAuth → Talk Credentials
credentials_of none = give none
credentials_of (some auth) = do c ← context (socks5_user_pass auth) bad_credentials; give (some c)

module _ (parse : Bytes → Host) where
  unfoldable pub request : Uri → Talk (Unit {0})
  request uri = do
    host ← context uri.host no_host
    port ← context (target_port uri) no_port
    built ← lift (build_connect_request parse (replicate 512 0) host port)
    packet ← context built too_long
    write_all packet

  unfoldable pub negotiate_with_auth : Uri → Option ProxyAuth → Talk (Unit {0})
  unfolding choose request read_reply
  negotiate_with_auth uri auth = do
    credentials ← credentials_of auth
    choose credentials
    request uri
    read_reply

  -- `negotiate` runs it with no credentials.
  unfoldable pub negotiate : Uri → Talk (Unit {0})
  unfolding negotiate_with_auth
  negotiate uri = negotiate_with_auth uri none
