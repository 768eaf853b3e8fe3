-- ===== src/Cli/Quotas/Closed.antt =====
-- `QuotaEnforcer::is_protocol_closed` of src/cli/quotas.rs.
use flx.Base.{
  any, append_assoc, length-append, ◌++◌, false, ℕ, ◌+◌, ◌≡◌, refl, Bool, true, List, [], ◌∷◌,
  length, arith, not, ◌&&◌, ◌||◌,
}
use flx.Base.Outcome.{returned}
use flx.Proxy.Protocol.{Protocol, same_family}
use flx.Cli.Quotas.{TypeQuota, QuotaEnforcer, closed_from, is_protocol_closed}
use flx.Cli.Quotas.Refine.{index_mid, room}

-- A quota of the family has room.
abbrev pub is_open : Protocol → List TypeQuota → List ℕ → Bool
is_open requested (q ∷ qs) (h ∷ hs) =
    (same_family q.protocol requested && room q.quota h) || is_open requested qs hs
is_open requested _ _ = false

abbrev pub names_family : Protocol → List TypeQuota → Bool
names_family requested quotas = any (λ (q : TypeQuota). same_family q.protocol requested) quotas

closed_from_lem :
    (requested : Protocol) (past hs : List ℕ) (i : ℕ) (found : Bool) (qs : List TypeQuota)
    → i ≡ length past
    → length hs ≡ length qs
    → closed_from requested (past ++ hs) i found qs
      ≡ returned ((found || names_family requested qs) && not (is_open requested qs hs))
unfolding closed_from
closed_from_lem requested past [] i found [] e n = ground arith
closed_from_lem requested past (h ∷ hs) i found [] e n = absurd (omega arith)
closed_from_lem requested past [] i found (q ∷ qs) e n = absurd (omega arith)
closed_from_lem requested past (h ∷ hs) i found (q ∷ qs) e n =
    let ih = λ (b : Bool).
      closed_from_lem requested (past ++ h ∷ []) hs (i + 1) b qs
        (omega (arith, length-append past (h ∷ []))) (omega arith) in
    let skipped = rw (append_assoc past (h ∷ []) hs) at ih found in
    let counted = rw (append_assoc past (h ∷ []) hs) at ih true in
    ground (arith, skipped, counted, index_mid past hs h i e)

-- A type is closed exactly when some quota names its family and none of those has room.
pub is_protocol_closed_lem :
    (requested : Protocol) (e : QuotaEnforcer)
    → length e.hits ≡ length e.quotas
    → is_protocol_closed requested e
      ≡ returned (names_family requested e.quotas && not (is_open requested e.quotas e.hits))
unfolding is_protocol_closed
is_protocol_closed_lem requested e n = closed_from_lem requested [] e.hits 0 false e.quotas refl n
