-- ===== src/Negotiators/Socks4/Packet.antt =====
-- The request of src/negotiators/socks4.rs, in a buffer or allocated.
use flx.Base.{ℕ, ◌+◌, ◌&&◌, [], ◌∷◌, ◌++◌, Option, none, some, is_some, if◌then◌else◌, ltb, length}
use flx.Base.Bytes.{Bytes}
use flx.Base.Outcome.{Outcome, returned, ◌>>=◌}
use flx.Negotiators.Buffer.{Cursor, start, put, filled}
use flx.Negotiators.Wire.{be16}
use flx.Proxy.Address.{Ipv4Addr}

abbrev pub octets : Ipv4Addr → Bytes
octets ip = ip.a ∷ ip.b ∷ ip.c ∷ ip.d ∷ []

-- `parse` is `str::parse::<Ipv4Addr>`.
module _ (parse : Bytes → Option Ipv4Addr) where
  -- The packet behind the port.
  abbrev pub owned_target : Bytes → Bytes → Option Ipv4Addr → Bytes
  owned_target host user_id (some ip) = octets ip ++ (user_id ++ 0 ∷ [])
  owned_target host user_id none = 0 ∷ 0 ∷ 0 ∷ 1 ∷ (user_id ++ 0 ∷ (host ++ 0 ∷ []))

  unfoldable pub owned_request : Bytes → ℕ → Bytes → Bytes
  owned_request host port user_id = 4 ∷ 1 ∷ (be16 port ++ owned_target host user_id (parse host))

  abbrev pub put_target : Bytes → Bytes → Option Ipv4Addr → Cursor → Outcome Cursor
  put_target host user_id (some ip) c = do
    c1 ← put (octets ip) c
    c2 ← put user_id c1
    put (0 ∷ []) c2
  put_target host user_id none c = do
    c1 ← put (0 ∷ 0 ∷ 0 ∷ 1 ∷ []) c
    c2 ← put user_id c1
    c3 ← put (0 ∷ []) c2
    c4 ← put host c3
    put (0 ∷ []) c4

  -- The packet in the buffer.
  abbrev pub put_request : Bytes → ℕ → Bytes → Cursor → Outcome Cursor
  put_request host port user_id c = do
    c1 ← put (4 ∷ 1 ∷ []) c
    c2 ← put (be16 port) c1
    put_target host user_id (parse host) c2

  unfoldable pub borrowed_request : Bytes → Bytes → ℕ → Bytes → Outcome Bytes
  borrowed_request buf host port user_id = do
    c ← put_request host port user_id (start buf)
    returned (filled c)

  unfoldable pub build_connect_request : Bytes → Bytes → ℕ → Bytes → Outcome Bytes
  unfolding borrowed_request owned_request
  build_connect_request buf host port user_id =
      if ltb (length buf) (10 + length user_id + length host)
      then returned (owned_request host port user_id)
      else if is_some (parse host) && ltb (length buf) (9 + length user_id)
      then returned (owned_request host port user_id)
      else borrowed_request buf host port user_id
