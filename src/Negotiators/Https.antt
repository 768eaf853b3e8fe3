-- ===== src/Negotiators/Https.antt =====
-- src/negotiators/https.rs: the CONNECT handshake. `base64` and `httparse` are packages.
pub mod Tunnel
mod Tests
use flx.Base.Bytes.{codes, Bytes}
use flx.Base.{
  ◌||◌, ℕ_eq, list_eq, nat_eq, none, false, ◌++◌, [], if◌then◌else◌, some, Bool, ◌∷◌, ℕ, List,
  Option,
}
use flx.Proxy.Model.{ProxyAuth}
use flx.Negotiators.Wire.{bad_scheme, bail, write_all, ◌>>◌, give, Talk, Uri}
use flx.Negotiators.Head.Status.{ParsedHead, read_status}
use flx.Proxy.Text.{decimal}

-- `str::contains` of a character.
abbrev pub contains_byte : ℕ → Bytes → Bool
contains_byte b [] = false
contains_byte b (c ∷ text) = nat_eq c b || contains_byte b text

abbrev pub colon : ℕ
colon = 58

abbrev pub line_end : Bytes
line_end = 13 ∷ 10 ∷ []

-- Lines of a request, each ended, and the blank line.
abbrev pub request_of : List Bytes → Bytes
request_of [] = line_end
request_of (line ∷ lines) = line ++ (line_end ++ request_of lines)

-- The text that `write_to_buffer` gives, in the buffer or out of it; a port is of 16 bits.
unfoldable pub write_authority : Bytes → ℕ → Bytes
unfolding decimal
write_authority host port =
    if contains_byte colon host
    then codes "[" ++ (host ++ (codes "]:" ++ decimal 5 port))
    else host ++ (codes ":" ++ decimal 5 port)

abbrev pub or_443 : Option ℕ → ℕ
or_443 none = 443
or_443 (some port) = port

abbrev pub is_https : Option Bytes → Bool
is_https none = false
is_https (some scheme) = list_eq scheme (codes "https")

module _ (encode : Bytes → Bytes) where
  unfoldable pub basic_value : ProxyAuth → Bytes
  basic_value auth = codes "Basic " ++ encode (auth.username ++ colon ∷ auth.password)

  abbrev pub auth_lines : Option ProxyAuth → List Bytes
  auth_lines none = []
  auth_lines (some auth) = (codes "Proxy-Authorization: " ++ basic_value auth) ∷ []

  unfoldable pub write_connect_request : Bytes → Option ProxyAuth → Bytes
  unfolding basic_value
  write_connect_request authority auth = request_of (
      (codes "CONNECT " ++ (authority ++ codes " HTTP/1.1"))
      ∷ (codes "Host: " ++ authority)
      ∷ codes "Connection: keep-alive"
      ∷ auth_lines auth)

  module _ (parse : Bytes → ParsedHead) where
    -- A target with no host is left alone.
    abbrev pub to_host : Uri → Option ProxyAuth → Option Bytes → Talk (Unit {0})
    to_host uri auth none = give tt
    to_host uri auth (some host) =
        if is_https uri.scheme_str
        then (do
          write_all (write_connect_request (write_authority host (or_443 uri.port_u16)) auth)
          read_status parse)
        else bail bad_scheme

    unfoldable pub negotiate_with_auth : Uri → Option ProxyAuth → Talk (Unit {0})
    unfolding write_connect_request write_authority read_status
    negotiate_with_auth uri auth = to_host uri auth uri.host

    -- `negotiate` runs it with no credentials.
    unfoldable pub negotiate : Uri → Talk (Unit {0})
    unfolding negotiate_with_auth
    negotiate uri = negotiate_with_auth uri none
