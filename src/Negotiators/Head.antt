-- ===== src/Negotiators/Head.antt =====
-- The head of a response, read byte by byte to its first blank line, as src/negotiators/https.rs and
-- `connect_http` of src/rotator/server.rs do it, and where that line ends.
pub mod Blank
pub mod Stops
pub mod Status
mod Tests
use flx.Base.Bytes.{Bytes}
use flx.Base.{
  length, ℕ_eq, ltb, take, leb, ◌||◌, suc, false, some, ◌*◌, ◌++◌, none, [], list_eq, true,
  if◌then◌else◌, Bool, ◌∷◌, ℕ, List, Option,
}

-- `PROXY_RESPONSE_LIMIT`
abbrev pub proxy_response_limit : ℕ
proxy_response_limit = 16 * 1024

-- `b"\r\n\r\n"`
abbrev pub blank_line : Bytes
blank_line = 13 ∷ 10 ∷ 13 ∷ 10 ∷ []

abbrev pub one_more : Option ℕ → Option ℕ
one_more none = none
one_more (some n) = some (suc n)

-- A window of four bytes is a blank line.
unfoldable pub at_blank : Bytes → Bool
at_blank bytes = list_eq (take 4 bytes) blank_line

-- `windows(4).position(…)`, and four more.
unfoldable pub find_head_end : Bytes → Option ℕ
unfolding at_blank
find_head_end [] = none
find_head_end (b ∷ bytes) = if at_blank (b ∷ bytes) then some 4 else one_more (find_head_end bytes)

-- `ends_with`
unfoldable pub ends_with : Bytes → Bytes → Bool
ends_with [] suffix = list_eq [] suffix
ends_with (b ∷ bytes) suffix = list_eq (b ∷ bytes) suffix || ends_with bytes suffix

pub data Response : Type 0 where
  too_long closed : Response
  -- The response, and what is left in the stream.
  response : Bytes → Bytes → Response

-- The loop of `connect_http`, over what will arrive.
unfoldable pub read_response : Bytes → Bytes → Response
unfolding ends_with
read_response read [] = Response.closed
read_response read (byte ∷ incoming) =
    let rest = read_response (read ++ byte ∷ []) incoming in
    if leb proxy_response_limit (length read)
    then Response.too_long
    else if ends_with (read ++ byte ∷ []) blank_line
    then response (read ++ byte ∷ []) incoming
    else rest
