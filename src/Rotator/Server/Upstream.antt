-- ===== src/Rotator/Server/Upstream.antt =====
-- `open_upstream` and `connect_http` of src/rotator/server.rs.
use flx.Negotiators.Socks4.Handshake as Socks4
use flx.Negotiators.Socks5.Handshake as Socks5
use flx.Negotiators.Https
use flx.Negotiators.Wire.{
  give, no_host, context, write_all, io, Talk, Uri, bailed, Answer, Wire, ◌>>◌, ◌>>=◌,
}
use flx.Base.{[], some, ◌++◌, false, ◌∷◌, if◌then◌else◌, true, none, ℕ, List, Option, Bool}
use flx.Base.Bytes.{codes, Bytes}
use flx.Proxy.Float.{Float}
use flx.Rotator.Server.Request.{ClientRequest, RequestHead}
use flx.Proxy.Model.{ProxyAuth, ProxyType, Proxy}
use flx.Proxy.Protocol.{Protocol}
use flx.Negotiators.Head.Status.{ParsedHead, read_status}
use flx.Proxy.Text.{decimal}
use flx.Negotiators.Https.{auth_lines, request_of, write_authority}
use flx.Proxy.Address.{Ipv4Addr}
use flx.Negotiators.Socks5.Packet.{Host}

-- The packages that the server calls: `base64`, `httparse`, `hyper::Uri` and the parsers of addresses.
pub record Packages : Type 0 where
  pub encode : Bytes → Bytes
  pub parse_request : Bytes → RequestHead
  pub parse_response : Bytes → ParsedHead
  pub parse_uri : Bytes → Option Uri
  pub parse_ipv4 : Bytes → Option Ipv4Addr
  pub parse_host : Bytes → Host

-- An upstream: whether it accepts the connection, the connection, and whether the deadline passes.
pub record Upstream : Type 0 where
  pub connects : Bool
  pub wire : Wire
  pub late : Bool

module _ (f : Float) (k : Packages) where
  abbrev is_handshake : Protocol → Bool
  is_handshake Protocol.socks4 = true
  is_handshake Protocol.socks5 = true
  is_handshake (Protocol.https level) = true
  is_handshake _ = false

  abbrev first_of : List Protocol → Option Protocol
  first_of [] = none
  first_of (p ∷ types) = some p

  -- The first validated type with a handshake, or the first advertised one.
  unfoldable pub choose : List (ProxyType f) → List Protocol → Option Protocol
  choose [] expected = first_of expected
  choose (t ∷ types) expected =
      if is_handshake t.protocol then some t.protocol else choose types expected

  unfoldable pub target_uri : Bytes → Bytes → ℕ → Option Uri
  unfolding decimal
  target_uri scheme host port =
      k.parse_uri
        (scheme ++ (codes "://" ++ (host ++ (codes ":" ++ (decimal 5 port ++ codes "/")))))

  abbrev connect_lines : Bytes → Option ProxyAuth → List Bytes
  connect_lines authority auth =
      (codes "CONNECT " ++ (authority ++ codes " HTTP/1.1"))
      ∷ (codes "Host: " ++ authority)
      ∷ codes "Proxy-Connection: keep-alive"
      ∷ auth_lines k.encode auth

  unfoldable pub connect_http : Bytes → ℕ → Option ProxyAuth → Talk (Unit {0})
  unfolding read_status write_authority
  connect_http host port auth = do
    write_all (request_of (connect_lines (write_authority host port) auth))
    read_status k.parse_response

  abbrev pub handshake : Option Protocol → ClientRequest → Option ProxyAuth → Talk (Unit {0})
  handshake (some Protocol.socks4) request auth = do
    uri ← context (target_uri (codes "http") request.host request.port) no_host
    Socks4.negotiate_with_auth k.parse_ipv4 uri auth
  handshake (some Protocol.socks5) request auth = do
    uri ← context (target_uri (codes "http") request.host request.port) no_host
    Socks5.negotiate_with_auth k.parse_host uri auth
  handshake (some (Protocol.https level)) request auth =
      if request.tunnel
      then (do
        uri ← context (target_uri (codes "https") request.host request.port) no_host
        Https.negotiate_with_auth k.encode k.parse_response uri auth)
      else give tt
  handshake _ request auth =
      if request.tunnel then connect_http request.host request.port auth else give tt

  -- Past the deadline every result is an error; a panic is one whenever it comes.
  abbrev timely : Bool → Answer (Unit {0}) × Wire → Answer (Unit {0}) × Wire
  timely true (Answer.panicked, w) = (Answer.panicked, w)
  timely true (_, w) = (bailed io, w)
  timely false o = o

  unfoldable pub open_upstream : Proxy f → ClientRequest → Upstream → Answer (Unit {0}) × Wire
  unfolding choose
  open_upstream proxy request u =
      if u.connects
      then timely u.late
          (handshake (choose proxy.proxy_types proxy.expected_types) request proxy.auth u.wire)
      else (bailed io, u.wire)
