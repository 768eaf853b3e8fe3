-- ===== src/Rotator/Server/Tests.antt =====
-- A CONNECT request through an HTTP upstream that accepts it, and authorities.
use flx.Rotator.Server.Upstream.{
  target_uri, handshake, connect_http, choose, open_upstream, Packages,
}
use flx.Proxy.Model.{ProxyAuth, Proxy}
use flx.Rotator.Server.Connection.{
  response_established, Relay, send, with_upstream, with_proxy, as_text, with_request, State,
  handle_connection, Outside,
}
use flx.Rotator.Pool.Find.{find}
use flx.Rotator.Server.Request.{
  ClientRequest, unbracket, rsplit_colon, read_request, RequestHead, parse_authority,
}
use flx.Base.Outcome.{index, panicked, returned, Outcome}
use flx.Negotiators.Https.{write_authority}
use flx.Rotator.Server.Settled.{Calm}
use flx.Rotator.Pool.Invariant.{IsValid}
use flx.Negotiators.Wire.{◌>>=◌, is_panic, give, context, no_host}
use flx.Negotiators.Https.{negotiate_with_auth}
use flx.Base.{
  if◌then◌else◌, ℕ, Bool, Option, true, ◌++◌, ◌≡◌, arith, some, [], ◌∷◌, length, none, refl, false,
}
use flx.Proxy.Sample.{advertised, whole}
use flx.Base.Bytes.{codes, Bytes}
use flx.Rotator.Pool.{
  update_first, report_success, is_available, start_of, find_available, pick, Strategy, fresh,
}
use flx.Rotator.Server.Authority.{parse_authority-write_authority}
use flx.Rotator.Server.Served.{handle_connection-IsServed, IsServed}
use flx.Negotiators.Head.Status.{ParsedHead, read_status}
use flx.Negotiators.Head.{blank_line, at_blank, find_head_end, ends_with, read_response}
use flx.Proxy.Text.{digits_from, parse_u16, trim_end, trim_start, decimal}
use flx.Rotator.Server.Head.{Read, read_head}
use flx.Proxy.Protocol.{Anonymity, Protocol}
use flx.Negotiators.Socks5.Packet.{Host}
use flx.Negotiators.Wire.{is_panic}

abbrev upstream_proxy : Proxy whole
upstream_proxy = advertised (Protocol.http Anonymity.elite ∷ [])

abbrev packages : Packages
packages = record {
  encode = λ text. text;
  parse_request = λ head. RequestHead.complete (record {
    consumed = length head;
    method = some (codes "CONNECT");
    path = some (codes "[::1]:443");
    headers = [];
  });
  parse_response = λ head. ParsedHead.complete (some 200);
  parse_uri = λ text. none;
  parse_ipv4 = λ text. none;
  parse_host = λ text. Host.name;
}

abbrev outside : Outside
outside = record {
  reads = Read.chunk (codes "CONNECT [::1]:443 HTTP/1.1" ++ blank_line) ∷ [];
  head_late = false;
  writable = true;
  upstream = record {
    connects = true;
    wire = record { incoming = codes "HTTP/1.1 200 OK" ++ blank_line; sent = []; writable = true };
    late = false;
  };
  relay = Relay.finished;
  chance = 0;
  picked_at = 5;
  reported_at = 9;
}

abbrev before : State whole packages
before = record {
  pool = record {
    entries = fresh (as_text whole packages) upstream_proxy ∷ [];
    cursor = 0;
    strategy = Strategy.round_robin;
  };
  replied = [];
  forwarded = [];
  events = [];
}

before-IsValid : IsValid (as_text whole packages) before.pool
unfolding find
before-IsValid = record { bound = omega arith; distinct = (refl, tt); below = (omega arith, tt) }

plain_calm :
    (tunnel : Bool) (host : Bytes) (port : ℕ) (auth : Option ProxyAuth)
    → is_panic
        ((if tunnel then connect_http whole packages host port auth else give tt)
          outside.upstream.wire).0
      ≡ false
unfolding connect_http read_status read_response ends_with
plain_calm true host port auth = refl
plain_calm false host port auth = refl

tls_calm :
    (tunnel : Bool) (request : ClientRequest) (auth : Option ProxyAuth)
    → is_panic
        ((if tunnel
            then (context
                  (target_uri whole packages (codes "https") request.host request.port)
                  no_host
                >>= λ uri. negotiate_with_auth packages.encode packages.parse_response uri auth)
            else give tt)
          outside.upstream.wire).0
      ≡ false
unfolding target_uri
tls_calm true request auth = refl
tls_calm false request auth = refl

-- No address is parsed here, so only the handshake of a plain CONNECT is left.
handshake_calm :
    (type : Option Protocol) (request : ClientRequest) (auth : Option ProxyAuth)
    → is_panic (handshake whole packages type request auth outside.upstream.wire).0 ≡ false
unfolding target_uri
handshake_calm none request auth = plain_calm request.tunnel request.host request.port auth
handshake_calm (some (Protocol.http level)) request auth =
    plain_calm request.tunnel request.host request.port auth
handshake_calm (some (Protocol.https level)) request auth = tls_calm request.tunnel request auth
handshake_calm (some Protocol.socks4) request auth = refl
handshake_calm (some Protocol.socks5) request auth = refl
handshake_calm (some (Protocol.connect port)) request auth =
    plain_calm request.tunnel request.host request.port auth

outside-Calm : Calm whole packages outside
unfolding open_upstream
outside-Calm proxy request =
    handshake_calm (choose whole packages proxy.proxy_types proxy.expected_types) request proxy.auth

handle_connection-IsServed_example :
    (s' : State whole packages) × ((handle_connection whole packages outside 1 none before
        ≡ returned s')
      × IsServed whole packages outside 1 before s')
handle_connection-IsServed_example =
    handle_connection-IsServed whole packages outside 1 none before outside-Calm before-IsValid

abbrev replies : Outcome (State whole packages) → Bytes
replies panicked = []
replies (returned s) = s.replied

-- The client is told that the tunnel stands.
tunnel_stands :
    replies (handle_connection whole packages outside 1 none before) ≡ response_established
unfolding handle_connection with_request with_proxy with_upstream send open_upstream choose
    connect_http read_status read_response ends_with write_authority decimal read_request read_head
    find_head_end at_blank parse_authority rsplit_colon unbracket trim_start trim_end parse_u16
    digits_from pick find_available start_of index is_available report_success update_first
tunnel_stands = refl

parse_authority-write_authority_example :
    parse_authority (write_authority (codes "::1") 443) ≡ some (codes "::1", 443)
parse_authority-write_authority_example =
    parse_authority-write_authority (codes "::1") 443 refl refl (omega arith)
