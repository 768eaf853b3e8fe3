-- ===== src/Cli/Quotas.antt =====
-- `QuotaEnforcer` of src/cli/quotas.rs: the caps of `flx find HTTP=8`, one for each requested type.
pub mod Refine
pub mod Caps
pub mod Satisfied
pub mod Closed
mod Tests
use flx.Base.{
  ℕ, zero, suc, ◌+◌, Bool, true, false, not, ◌&&◌, ◌||◌, List, [], ◌∷◌, Option, none, some,
  if◌then◌else◌, any, is_some, length, ltb, replicate, set,
}
use flx.Base.Outcome.{Outcome, returned, panicked, ◌>>=◌, index}
use flx.Proxy.Protocol.{Protocol, same_family, protocol_matches}
use flx.Proxy.Float.{Float}
use flx.Proxy.Model.{Proxy, carried}

pub record TypeQuota : Type 0 where
  pub protocol : Protocol
  pub quota : Option ℕ

unfoldable pub uncapped : Protocol → TypeQuota
uncapped protocol = record { protocol = protocol; quota = none }

pub record QuotaEnforcer : Type 0 where
  pub quotas : List TypeQuota
  pub hits : List ℕ
  pub has_groups : Bool

unfoldable pub new : List TypeQuota → QuotaEnforcer
new quotas = record { quotas = quotas; hits = replicate (length quotas) 0; has_groups = false }

unfoldable pub set_has_groups : Bool → QuotaEnforcer → QuotaEnforcer
set_has_groups b e = record e { has_groups = b }

abbrev pub is_none : Option ℕ → Bool
is_none o = not (is_some o)

unfoldable pub has_any_quota : QuotaEnforcer → Bool
has_any_quota e = any (λ (q : TypeQuota). is_some q.quota) e.quotas

-- The quotas from the index `i` on; `any` stops at the first that has room.
unfoldable pub unfilled_from : List ℕ → ℕ → List TypeQuota → Outcome Bool
unfilled_from hits i [] = returned false
unfilled_from hits i (q ∷ qs) =
    let rest = unfilled_from hits (i + 1) qs in
    elim q.quota [
      | none ↦ rest
      | some n ↦ (do h ← index hits i; if ltb h n then returned true else rest)
    ]

unfoldable pub has_unfilled : QuotaEnforcer → Outcome Bool
has_unfilled e = unfilled_from e.hits 0 e.quotas

unfoldable pub has_uncapped : QuotaEnforcer → Bool
has_uncapped e = any (λ (q : TypeQuota). is_none q.quota) e.quotas

unfoldable pub is_satisfied : QuotaEnforcer → Outcome Bool
is_satisfied e = do
  unfilled ← has_unfilled e
  returned (has_any_quota e && (not unfilled && (not (has_uncapped e) && not e.has_groups)))

abbrev pub shares_family : List TypeQuota → List Protocol → Bool
shares_family quotas types = any (λ (q : TypeQuota). any (same_family q.protocol) types) quotas

-- The first loop of `should_emit`: the indices of the quotas that the proxy counts toward.
unfoldable pub consume_from : List Protocol → List ℕ → ℕ → List TypeQuota → Outcome (List ℕ)
consume_from types hits i [] = returned []
consume_from types hits i (q ∷ qs) =
    let rest = consume_from types hits (i + 1) qs in
    let push = (do is ← rest; returned (i ∷ is)) in
    if any (protocol_matches q.protocol) types
    then elim q.quota [
      | none ↦ push
      | some n ↦ (do h ← index hits i; if ltb h n then push else rest)
    ]
    else rest

-- The second loop: the hits of the capped ones.
unfoldable pub count_hits : List TypeQuota → List ℕ → List ℕ → Outcome (List ℕ)
count_hits quotas [] hits = returned hits
count_hits quotas (i ∷ is) hits = do
  q ← index quotas i
  hits' ←
      (if is_some q.quota
        then (do h ← index hits i; returned (set hits i (h + 1)))
        else returned hits)
  count_hits quotas is hits'

abbrev nonempty : List ℕ → Bool
nonempty [] = false
nonempty (i ∷ is) = true

unfoldable pub emit_types : List Protocol → QuotaEnforcer → Outcome (Bool × QuotaEnforcer)
emit_types types e = if not (shares_family e.quotas types) then returned (true, e) else (do
  consume ← consume_from types e.hits 0 e.quotas
  hits ← count_hits e.quotas consume e.hits
  returned (nonempty consume, record e { hits = hits }))

module _ (f : Float) where
  unfoldable pub should_emit : Proxy f → QuotaEnforcer → Outcome (Bool × QuotaEnforcer)
  unfolding emit_types
  should_emit proxy e = emit_types (carried f proxy) e

-- The loop of `is_protocol_closed`: `found` is its `any`.
unfoldable pub closed_from : Protocol → List ℕ → ℕ → Bool → List TypeQuota → Outcome Bool
closed_from requested hits i found [] = returned found
closed_from requested hits i found (q ∷ qs) =
    let skipped = closed_from requested hits (i + 1) found qs in
    let counted = closed_from requested hits (i + 1) true qs in
    if same_family q.protocol requested
    then elim q.quota [
      | none ↦ returned false
      | some n ↦ (do h ← index hits i; if ltb h n then returned false else counted)
    ]
    else skipped

unfoldable pub is_protocol_closed : Protocol → QuotaEnforcer → Outcome Bool
is_protocol_closed requested e = closed_from requested e.hits 0 false e.quotas
