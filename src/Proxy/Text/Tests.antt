-- ===== src/Proxy/Text/Tests.antt =====
-- Protocols that print and parse.
use flx.Base.{◌≡◌, refl, arith}
use flx.Base.Bytes.{codes}
use flx.Proxy.Protocol.{Anonymity, Protocol}
use flx.Proxy.Text.{
  from_str, display, ok, err, invalid_connect_port, first_part, second_part, after_colon, parse_u16,
  digits_from, parse_anonymity, trim, trim_start, trim_end,
}
use flx.Proxy.Text.RoundTrip.{from_str-display}

from_str-display_example : from_str (display (Protocol.connect 8080)) ≡ ok (Protocol.connect 8080)
from_str-display_example = from_str-display (Protocol.connect 8080) (omega arith)

large_port : from_str (codes "CONNECT:65536") ≡ err (invalid_connect_port (codes "CONNECT:65536"))
unfolding from_str first_part second_part after_colon parse_u16 digits_from
large_port = refl

any_case : from_str (codes "HTTPS:  eLiTe") ≡ ok (Protocol.https Anonymity.elite)
unfolding from_str first_part second_part after_colon parse_anonymity trim trim_start trim_end
any_case = refl
