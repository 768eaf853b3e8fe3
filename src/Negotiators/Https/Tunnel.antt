-- ===== src/Negotiators/Https/Tunnel.antt =====
-- When the CONNECT handshake goes through.
use flx.Base.Bytes.{Bytes}
use flx.Negotiators.Head.Status.{read_status-IsAccepted, IsAccepted, ParsedHead}
use flx.Negotiators.Wire.{bad_scheme, bailed, gave, Wire, Uri}
use flx.Base.{refl, false, ◌↔◌, true, some, ◌++◌, ◌≡◌, Option}
use flx.Proxy.Model.{ProxyAuth}
use flx.Negotiators.Https.{
  is_https, or_443, write_authority, write_connect_request, negotiate_with_auth,
}

-- A connection on which writes succeed.
abbrev pub open_wire : Bytes → Bytes → Wire
open_wire incoming sent = record { incoming = incoming; sent = sent; writable = true }

module _ (encode : Bytes → Bytes) (parse : Bytes → ParsedHead) (uri : Uri)
    (auth : Option ProxyAuth) where
  abbrev pub sends : Bytes → Bytes → Bytes
  sends host sent =
      sent ++ write_connect_request encode (write_authority host (or_443 uri.port_u16)) auth

  -- To a host of an https target, on a connection on which writes succeed, the handshake sends one request
  -- and goes through exactly when the proxy answers with a complete head, within the limit, that parses
  -- to status 200; it takes that head and leaves what follows it in the stream. For a target of another
  -- scheme it fails, and nothing is sent or taken.
  pub negotiate-IsAccepted :
      (host incoming sent : Bytes) (w' : Wire)
      → uri.host ≡ some host
      → ((is_https uri.scheme_str ≡ true)
          → (negotiate_with_auth encode parse uri auth (open_wire incoming sent) ≡ (gave tt, w'))
            ↔ IsAccepted parse (open_wire incoming (sends host sent)) w')
        × (is_https uri.scheme_str ≡ false
            → negotiate_with_auth encode parse uri auth (open_wire incoming sent)
              ≡ (bailed bad_scheme, open_wire incoming sent))
  unfolding negotiate_with_auth
  negotiate-IsAccepted host incoming sent w' h = (
    λ https. rw (h, https) (read_status-IsAccepted parse (open_wire incoming (sends host sent)) w'),
    λ other. rw (h, other) refl,
  )
