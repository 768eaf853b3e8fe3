-- ===== src/Negotiators/Socks4/Tests.antt =====
-- The SOCKS4 handshake with one host.
use flx.Base.{◌≡◌, refl, ◌↔◌, true, false, [], ◌∷◌, ◌++◌, none, replicate, arith}
use flx.Base.Bytes.{Bytes, codes}
use flx.Base.Outcome.{returned}
use flx.Negotiators.Sample.{target, no_address, arriving}
use flx.Negotiators.Socks4.Accepted.{Granted, negotiate-Granted, negotiate_calm}
use flx.Negotiators.Socks4.Handshake.{negotiate_with_auth}
use flx.Negotiators.Socks4.Packet.{build_connect_request, owned_request}
use flx.Negotiators.Socks4.Request.{build-owned_request}
use flx.Negotiators.Wire.{Wire, gave, is_panic, target_port}

build-owned_request_example :
    build_connect_request no_address (replicate 16 0) (codes "a.b") 80 (codes "me")
    ≡ returned (owned_request no_address (codes "a.b") 80 (codes "me"))
build-owned_request_example =
    build-owned_request no_address (replicate 16 0) (codes "a.b") 80 (codes "me")

request :
    owned_request no_address (codes "a") 443 [] ≡ 4 ∷ 1 ∷ 1 ∷ 187 ∷ 0 ∷ 0 ∷ 0 ∷ 1 ∷ 0 ∷ 97 ∷ 0 ∷ []
unfolding owned_request
request = refl

-- An answer, and one byte of what the target sends.
abbrev answer : Wire
answer = arriving (0 ∷ 90 ∷ 0 ∷ 0 ∷ 0 ∷ 0 ∷ 0 ∷ 0 ∷ 72 ∷ [])

abbrev packet : Bytes
packet = 4 ∷ 1 ∷ 0 ∷ 80 ∷ 0 ∷ 0 ∷ 0 ∷ 1 ∷ 0 ∷ (codes "a.b" ++ 0 ∷ [])

abbrev after : Wire
after = record { incoming = 72 ∷ []; sent = packet; writable = true }

negotiate-Granted_example :
    (negotiate_with_auth no_address target none answer ≡ (gave tt, after)) ↔ (
      Granted (0 ∷ 90 ∷ 0 ∷ 0 ∷ 0 ∷ 0 ∷ 0 ∷ 0 ∷ 72 ∷ []) (72 ∷ [])
      × (packet ≡ owned_request no_address (codes "a.b") 80 [])
      × (true ≡ true))
unfolding target_port
negotiate-Granted_example =
    negotiate-Granted no_address target none (codes "a.b") 80 answer after refl refl (omega arith)
      refl

negotiate_calm_example : is_panic (negotiate_with_auth no_address target none answer).0 ≡ false
negotiate_calm_example = negotiate_calm no_address target none answer
