-- ===== src/Negotiators/Https/Tests.antt =====
-- A tunnel to an IPv6 host.
use flx.Negotiators.Wire.{bailed, gave, Uri, Wire}
use flx.Base.Bytes.{codes, Bytes}
use flx.Negotiators.Https.{
  bad_scheme, write_authority, write_connect_request, is_https, negotiate_with_auth,
}
use flx.Base.{[], refl, false, ◌↔◌, true, none, ◌++◌, some, ◌≡◌}
use flx.Negotiators.Sample.{arriving}
use flx.Negotiators.Head.Status.{IsAccepted, read_status, complete, ParsedHead}
use flx.Negotiators.Head.{ends_with, read_response, blank_line}
use flx.Negotiators.Https.Tunnel.{open_wire, negotiate-IsAccepted, sends}
use flx.Proxy.Text.{decimal}

abbrev target : Uri
target = record { host = some (codes "::1"); port_u16 = none; scheme_str = some (codes "https") }

-- Encoders and parsers that know one text each.
abbrev same : Bytes → Bytes
same text = text

abbrev accepting : Bytes → ParsedHead
accepting head = complete (some 200)

abbrev answer : Wire
answer = arriving (codes "HTTP/1.1 200 OK" ++ blank_line ++ codes "tls")

abbrev after : Wire
after = record {
  incoming = codes "tls";
  sent = write_connect_request same (codes "[::1]:443") none;
  writable = true;
}

goes_through : negotiate_with_auth same accepting target none answer ≡ (gave tt, after)
unfolding negotiate_with_auth write_connect_request write_authority read_status read_response
    ends_with decimal
goes_through = refl

abbrev arrives : Bytes
arrives = codes "HTTP/1.1 200 OK" ++ blank_line ++ codes "tls"

negotiate-IsAccepted_example :
    ((is_https target.scheme_str ≡ true)
      → (negotiate_with_auth same accepting target none (open_wire arrives []) ≡ (gave tt, after))
        ↔ IsAccepted accepting
            (open_wire arrives (sends same accepting target none (codes "::1") []))
            after)
    × (is_https target.scheme_str ≡ false
        → negotiate_with_auth same accepting target none (open_wire arrives [])
          ≡ (bailed bad_scheme, open_wire arrives []))
negotiate-IsAccepted_example =
    negotiate-IsAccepted same accepting target none (codes "::1") arrives [] after refl
