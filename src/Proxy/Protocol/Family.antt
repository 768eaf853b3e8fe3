-- ===== src/Proxy/Protocol/Family.antt =====
-- The families of the filters and those of the quotas are the same.
use flx.Base.{◌≡◌, ◌↔◌, true, arith}
use flx.Proxy.Protocol.{Protocol, protocol_family, same_family, protocol_matches}

-- Two protocols are of one family for the quotas exactly when the filters' `protocol_family` maps them
-- to one protocol.
family_iff : (a b : Protocol) → (same_family a b ≡ true) ↔ (protocol_family a ≡ protocol_family b)
unfolding same_family protocol_family
family_iff a b = ground arith

-- A request can only be matched by a protocol of its family, the match is symmetric, and a request that
-- pins no anonymity is matched by all of its family.
matches_family :
    (a b : Protocol)
    → (protocol_matches a b ≡ true → same_family a b ≡ true)
      × (protocol_matches a b ≡ protocol_matches b a)
      × (protocol_matches (protocol_family a) b ≡ same_family a b)
unfolding same_family protocol_family protocol_matches
matches_family a b = (ground arith, ground arith, ground arith)

-- Quotas and filters agree on families: two protocols are of one family for `same_family` exactly when
-- `protocol_family` maps them to one protocol. A request is only matched by protocols of its family, the
-- match is symmetric, and a request that pins no anonymity level is matched by its whole family.
pub same_family_lem :
    (a b : Protocol)
    → ((same_family a b ≡ true) ↔ (protocol_family a ≡ protocol_family b))
      × (protocol_matches a b ≡ true → same_family a b ≡ true)
      × (protocol_matches a b ≡ protocol_matches b a)
      × (protocol_matches (protocol_family a) b ≡ same_family a b)
same_family_lem a b = let (m, s, w) = matches_family a b in (family_iff a b, m, s, w)
