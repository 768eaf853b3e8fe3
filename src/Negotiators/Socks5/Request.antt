-- ===== src/Negotiators/Socks5/Request.antt =====
-- The request that goes out, and that no host overruns the buffer.
use flx.Base.{
  Option-cases, ℕ, ◌+◌, ◌≤◌, ◌≡◌, refl, ap, sym, [], ◌∷◌, ◌++◌, Option, none, some, if◌then◌else◌,
  ltb, length, length-append, replicate, arith, inl, inr, Bool-cases, append_assoc,
}
use flx.Base.Bytes.{Bytes}
use flx.Base.Outcome.{Outcome, returned, ◌>>=◌}
use flx.Negotiators.Buffer.{Cursor, start, put, Holds, start-Holds, put-Holds}
use flx.Negotiators.Socks5.Packet.{Host, v4, v6, name, build_connect_request, put_host, put_port}
use flx.Negotiators.Wire.{be16}

-- The address of RFC 1928: its type, and the octets or the name with its length in front.
abbrev pub address : Bytes → Host → Option Bytes
address host (v4 ip) = some (1 ∷ ip.a ∷ ip.b ∷ ip.c ∷ ip.d ∷ [])
address host (v6 octets) = some (4 ∷ octets)
address host name = if ltb 255 (length host) then none else some (3 ∷ length host ∷ host)

abbrev pub with_port : ℕ → Option Bytes → Option Bytes
with_port port none = none
with_port port (some a) = some (5 ∷ 1 ∷ 0 ∷ (a ++ be16 port))

-- An IPv6 address has sixteen octets.
abbrev pub IsHost : Host → Type 0
IsHost (v6 octets) = length octets ≡ 16
IsHost _ = Unit

abbrev value_or : Bytes → Option Bytes → Bytes
value_or x none = x
value_or x (some y) = y

some_injective : {x y : Bytes} → some x ≡ some y → x ≡ y
some_injective {x} e = ap (value_or x) e

-- The outcome is a cursor behind these bytes.
Written : ℕ → Bytes → Outcome (Option Cursor) → Type 0
Written n body o = (c' : Cursor) × (o ≡ returned (some c')) × Holds n body c'

module _ (n : ℕ) (body : Bytes) (c : Cursor) (h : Holds n body c) where
  put_two :
      (a b : Bytes)
      → length body + length (a ++ b) ≤ n
      → Written n (body ++ (a ++ b)) (put a c >>= λ c1. put b c1 >>= λ c2. returned (some c2))
  unfolding Written
  put_two a b fits =
      let (c1, e1, h1) = put-Holds n body a c h (omega (arith, length-append a b)) in
      let (c2, e2, h2) =
        put-Holds n (body ++ a) b c1 h1 (omega (arith, length-append a b, length-append body a)) in
      (c2, rw (e1, e2) refl, rw (sym (append_assoc body a b)) h2)

put_three :
    (n : ℕ) (body : Bytes) (c : Cursor) (a b d : Bytes)
    → Holds n body c
    → length body + length (a ++ (b ++ d)) ≤ n
    → Written n
        (body ++ (a ++ (b ++ d)))
        (put a c >>= λ c1. put b c1 >>= λ c2. put d c2 >>= λ c3. returned (some c3))
unfolding Written
put_three n body c a b d h fits =
    let sum = length-append a (b ++ d) in
    let (c1, e1, h1) = put-Holds n body a c h (omega (arith, sum)) in
    let (c2, e2, h2) = put_two n (body ++ a) c1 h1 b d (omega (arith, sum, length-append body a)) in
    (c2, rw e1 e2, rw (sym (append_assoc body a (b ++ d))) h2)

-- A host that has an address goes into the buffer as that address.
put_host_lem :
    (n : ℕ) (body : Bytes) (c : Cursor) (host : Bytes) (target : Host) (a : Bytes)
    → Holds n body c
    → address host target ≡ some a
    → length body + length a ≤ n
    → Written n (body ++ a) (put_host host target c)
put_host_lem n body c host (v4 ip) a h e fits =
    let same = some_injective e in
    rw (sym same) (
      put_two n body c h (1 ∷ []) (ip.a ∷ ip.b ∷ ip.c ∷ ip.d ∷ [])
        (omega (arith, ap length same, fits)))
put_host_lem n body c host (v6 octets) a h e fits =
    let same = some_injective e in
    rw (sym same) (put_two n body c h (4 ∷ []) octets (omega (arith, ap length same, fits)))
put_host_lem n body c host name a h e fits = elim (Bool-cases (ltb 255 (length host))) [
  | inl k ↦ absurd (ground (arith, k, e))
  | inr k ↦
      let same : 3 ∷ length host ∷ host ≡ a = ground (arith, k, e) in
      rw (k, sym same)
        (put_three n body c (3 ∷ []) (length host ∷ []) host h
          (omega (arith, ap length same, fits)))
]

length-address :
    (host : Bytes) (target : Host) (a : Bytes)
    → IsHost target
    → address host target ≡ some a
    → length a ≤ 257
length-address host (v4 ip) a h e = omega (arith, ap length (some_injective e))
length-address host (v6 octets) a h e = omega (arith, ap length (some_injective e), h)
length-address host name a h e = elim (Bool-cases (ltb 255 (length host))) [
  | inl k ↦ absurd (ground (arith, k, e))
  | inr k ↦
      let same : 3 ∷ length host ∷ host ≡ a = ground (arith, k, e) in
      let short : length host ≤ 255 = ground (arith, k) in omega (arith, ap length same, short)
]

build_some :
    (host : Bytes) (port : ℕ) (target : Host) (a : Bytes)
    → IsHost target
    → address host target ≡ some a
    → (put (5 ∷ 1 ∷ 0 ∷ []) (start (replicate 512 0)) >>= λ c1.
        put_host host target c1 >>= λ c2. put_port port c2)
      ≡ returned (some (5 ∷ 1 ∷ 0 ∷ (a ++ be16 port)))
unfolding Written
build_some host port target a h e =
    let short = length-address host target a h e in
    let front = 5 ∷ 1 ∷ 0 ∷ [] in
    let zeros : Bytes = replicate 512 0 in
    let (c1, e1, h1) = put-Holds 512 [] front (start zeros) (start-Holds zeros) (omega arith) in
    let (c2, e2, h2) = put_host_lem 512 front c1 host target a h1 e (omega (arith, short)) in
    let (c3, e3, h3) =
      put-Holds 512 (front ++ a) (be16 port) c2 h2 (omega (arith, short, length-append front a)) in
    rw (e1, e2, e3) (ap (λ b. returned (some b)) h3.front)

put_host-none :
    (host : Bytes) (target : Host) (c : Cursor)
    → address host target ≡ none
    → put_host host target c ≡ returned none
put_host-none host (v4 ip) c e = absurd (ground (arith, e))
put_host-none host (v6 octets) c e = absurd (ground (arith, e))
put_host-none host name c e = elim (Bool-cases (ltb 255 (length host))) [
  | inl k ↦ rw k refl
  | inr k ↦ absurd (ground (arith, k, e))
]

build_none :
    (host : Bytes) (port : ℕ) (target : Host)
    → address host target ≡ none
    → (put (5 ∷ 1 ∷ 0 ∷ []) (start (replicate 512 0)) >>= λ c1.
        put_host host target c1 >>= λ c2. put_port port c2)
      ≡ returned none
build_none host port target e =
    let zeros : Bytes = replicate 512 0 in
    let (c1, e1, h1) =
      put-Holds 512 [] (5 ∷ 1 ∷ 0 ∷ []) (start zeros) (start-Holds zeros) (omega arith) in
    rw (e1, put_host-none host target c1 e) refl

-- For every parser that gives IPv6 addresses sixteen octets, every host and every port: in the array of
-- 512 bytes `build_connect_request` does not panic. It fails exactly for a name of over 255 bytes,
-- and else gives version 5, command 1, a zero, the address of RFC 1928 and the port.
pub build-with_port :
    (parse : Bytes → Host) (host : Bytes) (port : ℕ)
    → IsHost (parse host)
    → build_connect_request parse (replicate 512 0) host port
      ≡ returned (with_port port (address host (parse host)))
unfolding build_connect_request
build-with_port parse host port h = elim (Option-cases (address host (parse host))) [
  | inl e ↦ rw e (build_none host port (parse host) e)
  | inr (a, e) ↦ rw e (build_some host port (parse host) a h e)
]
