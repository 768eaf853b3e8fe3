-- ===== src/Proxy/Text.antt =====
-- The text of a protocol, src/proxy/models.rs. A text is the list of its characters.
pub mod Number
pub mod RoundTrip
mod Tests
use flx.Base.{
  ℕ, zero, suc, ◌+◌, ◌-◌, ◌*◌, ◌/◌, ◌%◌, Bool, true, false, ◌&&◌, ◌||◌, List, [], ◌∷◌, ◌++◌, Option,
  none, some, if◌then◌else◌, nat_eq, ltb, leb, list_eq, ℕ_eq, map,
}
use flx.Base.Bytes.{Bytes, codes}
use flx.Proxy.Protocol.{Anonymity, Protocol}

-- `to_string` of a number below ten to the power of `width`.
unfoldable pub decimal : ℕ → ℕ → Bytes
decimal zero n = []
decimal (suc width) n =
    let front = decimal width (n / 10) in
    if ltb n 10 then (n + 48) ∷ [] else front ++ (n % 10 + 48) ∷ []

-- `str::parse::<u16>`: an optional plus sign and at least one digit, up to 65535.
abbrev pub add_digit : ℕ → ℕ → Option ℕ
add_digit n b =
    if leb 48 b && leb b 57
    then (if ltb 65535 (n * 10 + (b - 48)) then none else some (n * 10 + (b - 48)))
    else none

unfoldable pub digits_from : Option ℕ → Bytes → Option ℕ
digits_from none text = none
digits_from (some n) [] = some n
digits_from (some n) (b ∷ text) = digits_from (add_digit n b) text

abbrev pub unsigned : Bytes → Option ℕ
unsigned [] = none
unsigned (b ∷ text) = digits_from (some 0) (b ∷ text)

unfoldable pub parse_u16 : Bytes → Option ℕ
unfolding digits_from
parse_u16 [] = none
parse_u16 (b ∷ text) = if nat_eq b 43 then unsigned text else unsigned (b ∷ text)

-- The first part of `split(':')`, and the text of the second if there is a colon.
unfoldable pub first_part : Bytes → Bytes
first_part [] = []
first_part (c ∷ text) = if nat_eq c 58 then [] else c ∷ first_part text

unfoldable pub after_colon : Bytes → Option Bytes
after_colon [] = none
after_colon (c ∷ text) = if nat_eq c 58 then some text else after_colon text

abbrev map_part : Option Bytes → Option Bytes
map_part none = none
map_part (some rest) = some (first_part rest)

-- `parts.next()` after the first.
unfoldable pub second_part : Bytes → Option Bytes
unfolding first_part after_colon
second_part text = map_part (after_colon text)

-- `char::is_whitespace` and `trim`.
abbrev pub is_whitespace : ℕ → Bool
is_whitespace c =
    (leb 9 c && leb c 13)
    || (nat_eq c 32
        || (nat_eq c 0x85
            || (nat_eq c 0xa0
                || (nat_eq c 0x1680
                    || ((leb 0x2000 c && leb c 0x200a)
                        || (nat_eq c 0x2028
                            || (nat_eq c 0x2029
                                || (nat_eq c 0x202f || (nat_eq c 0x205f || nat_eq c 0x3000)))))))))

unfoldable pub trim_start : Bytes → Bytes
trim_start [] = []
trim_start (c ∷ text) = if is_whitespace c then trim_start text else c ∷ text

abbrev keep_end : ℕ → Bytes → Bytes
keep_end c [] = if is_whitespace c then [] else c ∷ []
keep_end c (d ∷ text) = c ∷ d ∷ text

unfoldable pub trim_end : Bytes → Bytes
trim_end [] = []
trim_end (c ∷ text) = keep_end c (trim_end text)

unfoldable pub trim : Bytes → Bytes
unfolding trim_start trim_end
trim text = trim_end (trim_start text)

abbrev pub to_lower : ℕ → ℕ
to_lower c = if leb 65 c && leb c 90 then c + 32 else c

abbrev pub eq_ignore_ascii_case : Bytes → Bytes → Bool
eq_ignore_ascii_case a b = list_eq (map to_lower a) (map to_lower b)

pub data ProtocolParseError : Type 0 where
  unknown unknown_anonymity invalid_connect_port : Bytes → ProtocolParseError

pub data Parsed (A : Type 0) : Type 0 where
  err : ProtocolParseError → Parsed A
  ok : A → Parsed A

abbrev level_of : Bytes → Parsed Anonymity
level_of [] = ok Anonymity.unknown
level_of (c ∷ level) =
    if eq_ignore_ascii_case (c ∷ level) (codes "transparent")
    then ok Anonymity.transparent
    else if eq_ignore_ascii_case (c ∷ level) (codes "anonymous")
    then ok Anonymity.anonymous
    else if eq_ignore_ascii_case (c ∷ level) (codes "elite")
    then ok Anonymity.elite
    else err (unknown_anonymity (c ∷ level))

unfoldable pub parse_anonymity : Option Bytes → Parsed Anonymity
unfolding trim
parse_anonymity none = ok Anonymity.unknown
parse_anonymity (some qualifier) = level_of (trim qualifier)

abbrev with_level : (Anonymity → Protocol) → Parsed Anonymity → Parsed Protocol
with_level make (err e) = err e
with_level make (ok a) = ok (make a)

abbrev port_of : Option Bytes → Option ℕ
port_of none = none
port_of (some p) = parse_u16 p

abbrev connect_or : Bytes → Option ℕ → Parsed Protocol
connect_or s none = err (invalid_connect_port s)
connect_or s (some port) = ok (Protocol.connect port)

unfoldable pub from_str : Bytes → Parsed Protocol
unfolding parse_anonymity second_part first_part parse_u16
from_str s =
    let head = first_part s in
    if list_eq head (codes "HTTP")
    then with_level Protocol.http (parse_anonymity (second_part s))
    else if list_eq head (codes "HTTPS")
    then with_level Protocol.https (parse_anonymity (second_part s))
    else if list_eq head (codes "SOCKS4")
    then ok Protocol.socks4
    else if list_eq head (codes "SOCKS5")
    then ok Protocol.socks5
    else if list_eq head (codes "CONNECT")
    then connect_or s (port_of (second_part s))
    else err (unknown s)

-- `Display for Protocol`
abbrev pub level_text : Anonymity → Bytes
level_text Anonymity.unknown = []
level_text Anonymity.elite = codes ": Elite"
level_text Anonymity.transparent = codes ": Transparent"
level_text Anonymity.anonymous = codes ": Anonymous"

unfoldable pub display : Protocol → Bytes
unfolding decimal
display (Protocol.http a) = codes "HTTP" ++ level_text a
display (Protocol.https a) = codes "HTTPS" ++ level_text a
display Protocol.socks4 = codes "SOCKS4"
display Protocol.socks5 = codes "SOCKS5"
display (Protocol.connect port) = codes "CONNECT:" ++ decimal 5 port
