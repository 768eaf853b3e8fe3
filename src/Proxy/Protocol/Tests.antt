-- ===== src/Proxy/Protocol/Tests.antt =====
-- Families and matches of HTTP at two levels.
use flx.Proxy.Protocol.{anonymous, elite, http, protocol_matches, same_family}
use flx.Base.{refl, false, true, ◌≡◌}

one_family : same_family (http elite) (http anonymous) ≡ true
unfolding same_family
one_family = refl

no_match : protocol_matches (http elite) (http anonymous) ≡ false
unfolding protocol_matches
no_match = refl
