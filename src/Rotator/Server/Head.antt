-- ===== src/Rotator/Server/Head.antt =====
-- src/rotator/server.rs: the loop that reads the head of a request from a client, chunk by chunk.
pub mod Chunks
mod Tests
use flx.Base.Bytes.{Bytes}
use flx.Base.{
  length, ℕ_eq, ltb, take, leb, ◌||◌, suc, false, some, ◌*◌, ◌++◌, none, [], list_eq, true,
  if◌then◌else◌, Bool, ◌∷◌, ℕ, List, Option,
}
use flx.Negotiators.Head.{find_head_end}

-- `REQUEST_HEAD_LIMIT`
abbrev pub request_head_limit : ℕ
request_head_limit = 16 * 1024

-- A read that fails, and one that gives these bytes; none of them when the client has closed.
pub data Read : Type 0 where
  broken : Read
  chunk : Bytes → Read

pub data Head : Type 0 where
  too_long failed closed : Head
  -- The bytes read, and where the head ends.
  head : Bytes → ℕ → Head

abbrev pub found : Bytes → Option ℕ → Head → Head
found bytes (some end) rest = head bytes end
found bytes none rest = rest

abbrev pub is_empty : Bytes → Bool
is_empty [] = true
is_empty (b ∷ bytes) = false

-- The loop of `read_request`; no more reads is a client that has closed.
unfoldable pub read_head : Bytes → List Read → Head
unfolding find_head_end
read_head bytes [] = if ltb request_head_limit (length bytes) then too_long else closed
read_head bytes (broken ∷ reads) =
    if ltb request_head_limit (length bytes) then too_long else failed
read_head bytes (chunk read ∷ reads) =
    let rest = read_head (bytes ++ read) reads in
    if ltb request_head_limit (length bytes)
    then too_long
    else if is_empty read
    then closed
    else found (bytes ++ read) (find_head_end (bytes ++ read)) rest
