-- ===== src/Negotiators/Socks4/Request.antt =====
-- The request that goes out, whichever way it is built, and what a SOCKS4a server reads of it.
use flx.Base.{
  ℕ, ◌+◌, ◌≤◌, ◌≡◌, refl, false, [], ◌∷◌, ◌++◌, Option, none, some, ltb, length, arith,
  length-append, inl, inr, Bool-cases,
}
use flx.Base.Bytes.{Bytes}
use flx.Base.Outcome.{returned}
use flx.Negotiators.Buffer.{Appends, put-Appends, then-Appends, Appends-filled}
use flx.Negotiators.Socks4.Packet.{
  build_connect_request, borrowed_request, owned_request, put_target, put_request, owned_target,
  octets,
}
use flx.Negotiators.Wire.{be16}
use flx.Proxy.Address.{Ipv4Addr}

put_target-Appends :
    (parse : Bytes → Option Ipv4Addr) (n : ℕ) (host user_id : Bytes) (ip : Option Ipv4Addr)
    → Appends n (owned_target parse host user_id ip) (put_target parse host user_id ip)
put_target-Appends parse n host user_id (some ip) =
    then-Appends n (octets ip) (user_id ++ 0 ∷ []) _ _ (put-Appends n (octets ip))
      (then-Appends n user_id (0 ∷ []) _ _ (put-Appends n user_id) (put-Appends n (0 ∷ [])))
put_target-Appends parse n host user_id none =
    then-Appends n (0 ∷ 0 ∷ 0 ∷ 1 ∷ []) (user_id ++ 0 ∷ (host ++ 0 ∷ [])) _ _ (put-Appends n _) (
      then-Appends n user_id (0 ∷ (host ++ 0 ∷ [])) _ _ (put-Appends n user_id) (
        then-Appends n (0 ∷ []) (host ++ 0 ∷ []) _ _ (put-Appends n (0 ∷ []))
          (then-Appends n host (0 ∷ []) _ _ (put-Appends n host) (put-Appends n (0 ∷ [])))))

length-owned_target :
    (parse : Bytes → Option Ipv4Addr) (host user_id : Bytes) (ip : Option Ipv4Addr)
    → length (owned_target parse host user_id ip) ≤ 6 + length user_id + length host
length-owned_target parse host user_id (some ip) = omega (arith, length-append user_id (0 ∷ []))
length-owned_target parse host user_id none =
    omega (arith, length-append user_id (0 ∷ (host ++ 0 ∷ [])), length-append host (0 ∷ []))

put_request-Appends :
    (parse : Bytes → Option Ipv4Addr) (n : ℕ) (host : Bytes) (port : ℕ) (user_id : Bytes)
    → Appends n (owned_request parse host port user_id) (put_request parse host port user_id)
unfolding owned_request
put_request-Appends parse n host port user_id =
    let target = owned_target parse host user_id (parse host) in
    then-Appends n (4 ∷ 1 ∷ []) (be16 port ++ target) _ _ (put-Appends n (4 ∷ 1 ∷ [])) (
      then-Appends n (be16 port) target _ _ (put-Appends n (be16 port))
        (put_target-Appends parse n host user_id (parse host)))

borrowed-owned_request :
    (parse : Bytes → Option Ipv4Addr) (buf host : Bytes) (port : ℕ) (user_id : Bytes)
    → 10 + length user_id + length host ≤ length buf
    → borrowed_request parse buf host port user_id
      ≡ returned (owned_request parse host port user_id)
unfolding borrowed_request owned_request
borrowed-owned_request parse buf host port user_id fits =
    Appends-filled buf _ (put_request parse host port user_id)
      (put_request-Appends parse (length buf) host port user_id)
      (omega (arith, fits, length-owned_target parse host user_id (parse host)))

-- In every buffer, for every host, port and user name, `build_connect_request` does not panic, and the
-- packet that it borrows from the buffer is the one that `owned_request` allocates.
pub build-owned_request :
    (parse : Bytes → Option Ipv4Addr) (buf host : Bytes) (port : ℕ) (user_id : Bytes)
    → build_connect_request parse buf host port user_id
      ≡ returned (owned_request parse host port user_id)
unfolding build_connect_request
build-owned_request parse buf host port user_id =
    elim (Bool-cases (ltb (length buf) (10 + length user_id + length host))) [
      | inl e ↦ rw e refl
      | inr e ↦
          let fits : 10 + length user_id + length host ≤ length buf = ground arith in
          let narrow : ltb (length buf) (9 + length user_id) ≡ false = ground arith in
          ground (arith, e, narrow, borrowed-owned_request parse buf host port user_id fits)
    ]
