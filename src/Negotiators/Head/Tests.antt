-- ===== src/Negotiators/Head/Tests.antt =====
-- A response with bytes of the tunnel after it.
use flx.Base.Bytes.{codes, Bytes}
use flx.Negotiators.Head.{Response, blank_line, ends_with, read_response}
use flx.Base.{refl, ◌≡◌, [], ◌++◌}

abbrev answer : Bytes
answer = codes "HTTP/1.1 200 OK" ++ blank_line ++ codes "tunnel"

leaves_the_rest :
    read_response [] answer
    ≡ Response.response (codes "HTTP/1.1 200 OK" ++ blank_line) (codes "tunnel")
unfolding read_response ends_with
leaves_the_rest = refl
