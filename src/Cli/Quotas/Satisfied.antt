-- ===== src/Cli/Quotas/Satisfied.antt =====
-- Enforcers for which `is_satisfied` answers true.
use flx.Base.{
  ltb, any, ◌∙◌, append_assoc, length-append, ◌++◌, false, ℕ, ◌+◌, ◌≡◌, refl, Bool, true, List, [],
  ◌∷◌, Option, none, some, if◌then◌else◌, length, arith,
}
use flx.Base.Outcome.{returned}
use flx.Proxy.Protocol.{Protocol}
use flx.Proxy.Float.{Float}
use flx.Proxy.Model.{Proxy, carried}
use flx.Cli.Quotas.{
  has_uncapped, is_none, has_unfilled, unfilled_from, is_satisfied, TypeQuota, QuotaEnforcer,
  shares_family, should_emit,
}
use flx.Cli.Quotas.Refine.{
  index_mid, room, should_emit_refines, takes, new_hits, some_takes, emit_spec,
}

-- The quotas that a satisfied enforcer has: capped, and full.
abbrev Full : List TypeQuota → List ℕ → Type 0
Full [] hs = Unit
Full (q ∷ qs) [] = ⊥
Full (q ∷ qs) (h ∷ hs) = (room q.quota h ≡ false) × Full qs hs

Full-takes :
    (types : List Protocol) (qs : List TypeQuota) (hs : List ℕ)
    → Full qs hs
    → (some_takes types qs hs ≡ false) × (new_hits types qs hs ≡ hs)
unfolding takes
Full-takes types [] hs h = (refl, refl)
Full-takes types (q ∷ qs) [] h = absurd h
Full-takes types (q ∷ qs) (k ∷ hs) h =
    let (none_takes, same) = Full-takes types qs hs h.1 in
    (ground (arith, h.0, none_takes), ground (arith, h.0, same))

abbrev capped_room : Option ℕ → ℕ → Bool
capped_room none h = false
capped_room (some n) h = ltb h n

abbrev unfilled : List TypeQuota → List ℕ → Bool
unfilled (q ∷ qs) (h ∷ hs) = if capped_room q.quota h then true else unfilled qs hs
unfilled _ _ = false

unfilled_from_lem :
    (before hs : List ℕ) (i : ℕ) (qs : List TypeQuota)
    → i ≡ length before
    → length hs ≡ length qs
    → unfilled_from (before ++ hs) i qs ≡ returned (unfilled qs hs)
unfolding unfilled_from
unfilled_from_lem before [] i [] e n = refl
unfilled_from_lem before (h ∷ hs) i [] e n = absurd (omega arith)
unfilled_from_lem before [] i (q ∷ qs) e n = absurd (omega arith)
unfilled_from_lem before (h ∷ hs) i (q ∷ qs) e n =
    let ih =
      unfilled_from_lem (before ++ h ∷ []) hs (i + 1) qs
        (omega (arith, length-append before (h ∷ []))) (omega arith) in
    let rest : unfilled_from (before ++ h ∷ hs) (i + 1) qs ≡ returned (unfilled qs hs) =
      rw (append_assoc before (h ∷ []) hs) at ih in
    ground (arith, rest, index_mid before hs h i e)

-- Nothing uncapped and nothing unfilled is left.
unfilled-Full :
    (qs : List TypeQuota) (hs : List ℕ)
    → length hs ≡ length qs
    → unfilled qs hs ≡ false
    → any (λ (q : TypeQuota). is_none q.quota) qs ≡ false
    → Full qs hs
unfilled-Full [] hs n u c = tt
unfilled-Full (q ∷ qs) [] n u c = absurd (omega arith)
unfilled-Full (q ∷ qs) (h ∷ hs) n u c =
    (ground arith, unfilled-Full qs hs (omega arith) (ground arith) (ground arith))

satisfied-Full :
    (e : QuotaEnforcer)
    → length e.hits ≡ length e.quotas
    → is_satisfied e ≡ returned true
    → Full e.quotas e.hits
unfolding is_satisfied has_unfilled has_uncapped
satisfied-Full e n s =
    let u = unfilled_from_lem [] e.hits 0 e.quotas refl n in
    unfilled-Full e.quotas e.hits n (ground (arith, u)) (ground (arith, u))

-- Once the enforcer is satisfied, `should_emit` refuses every proxy that shares a family with a quota
-- and leaves the enforcer as it is, so it stays satisfied.
pub should_emit-satisfied :
    (f : Float) (p : Proxy f) (e : QuotaEnforcer)
    → length e.hits ≡ length e.quotas
    → is_satisfied e ≡ returned true
    → shares_family e.quotas (carried f p) ≡ true
    → should_emit f p e ≡ returned (false, e)
unfolding emit_spec
should_emit-satisfied f p e n s shared =
    let (refused, same) = Full-takes (carried f p) e.quotas e.hits (satisfied-Full e n s) in
    should_emit_refines f p e n ∙ ground (arith, shared, refused, same)
