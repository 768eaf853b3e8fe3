-- ===== src/Negotiators/Sample.antt =====
-- Targets and connections for the tests of the handshakes.
use flx.Base.{true, [], Option, none, some}
use flx.Base.Bytes.{Bytes, codes}
use flx.Negotiators.Wire.{Uri, Wire}
use flx.Proxy.Address.{Ipv4Addr}

-- http://a.b/
abbrev pub target : Uri
target = record { host = some (codes "a.b"); port_u16 = none; scheme_str = some (codes "http") }

-- A resolver of addresses that knows no text as an address.
abbrev pub no_address : Bytes → Option Ipv4Addr
no_address text = none

abbrev pub arriving : Bytes → Wire
arriving incoming = record { incoming = incoming; sent = []; writable = true }
