-- ===== src/Proxy/Text/RoundTrip.antt =====
-- `Display` of a protocol and then `FromStr`.
use flx.Base.{ℕ, ◌<◌, ◌≡◌, refl, ap, true, false, [], ◌∷◌, nat_eq, arith}
use flx.Base.Bytes.{Bytes}
use flx.Proxy.Protocol.{Anonymity, Protocol}
use flx.Proxy.Text.{
  decimal, from_str, display, ok, first_part, after_colon, second_part, parse_anonymity, trim,
  trim_start, trim_end,
}
use flx.Proxy.Text.Number.{all_digits, decimal_digits, parse_u16-decimal}

first_part_digits : (text : Bytes) → all_digits text ≡ true → first_part text ≡ text
unfolding first_part
first_part_digits [] h = refl
first_part_digits (b ∷ text) h =
    let no_colon : nat_eq b 58 ≡ false = ground (arith, h) in
    rw no_colon (ap (λ l. b ∷ l) (first_part_digits text (ground (arith, h))))

-- The port of a CONNECT protocol is a u16.
abbrev pub IsPort : Protocol → Type 0
IsPort (Protocol.connect port) = port < 65536
IsPort _ = Unit

connect-display :
    (port : ℕ)
    → port < 65536
    → from_str (display (Protocol.connect port)) ≡ ok (Protocol.connect port)
unfolding from_str display second_part first_part after_colon
connect-display port h =
    let digits = first_part_digits (decimal 5 port) (decimal_digits 5 port) in
    rw (digits, parse_u16-decimal port h) refl

-- For every protocol, a CONNECT port being a u16: `Display` and then `FromStr` give the protocol back.
pub from_str-display : (p : Protocol) → IsPort p → from_str (display p) ≡ ok p
unfolding from_str display first_part second_part after_colon parse_anonymity trim trim_start
    trim_end
from_str-display (Protocol.http Anonymity.elite) h = refl
from_str-display (Protocol.http Anonymity.transparent) h = refl
from_str-display (Protocol.http Anonymity.anonymous) h = refl
from_str-display (Protocol.http Anonymity.unknown) h = refl
from_str-display (Protocol.https Anonymity.elite) h = refl
from_str-display (Protocol.https Anonymity.transparent) h = refl
from_str-display (Protocol.https Anonymity.anonymous) h = refl
from_str-display (Protocol.https Anonymity.unknown) h = refl
from_str-display Protocol.socks4 h = refl
from_str-display Protocol.socks5 h = refl
from_str-display (Protocol.connect port) h = connect-display port h
