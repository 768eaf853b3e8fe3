-- ===== src/Cli/Quotas/Refine.antt =====
-- The two index loops of `should_emit` against a description of each quota by itself.
use flx.Proxy.Float.{Float}
use flx.Proxy.Model.{Proxy, carried}
use flx.Base.{
  inl, inr, ◌∙◌, Bool-cases, not, ℕ, zero, suc, ◌+◌, ◌≡◌, refl, ap, Bool, true, false, ◌&&◌, List,
  [], ◌∷◌, ◌++◌, Option, none, some, if◌then◌else◌, any, is_some, length, length-append,
  append_assoc, ltb, set, arith,
}
use flx.Base.Outcome.{returned, index, index-append}
use flx.Proxy.Protocol.{Protocol, protocol_matches}
use flx.Cli.Quotas.{
  should_emit, shares_family, nonempty, emit_types, count_hits, QuotaEnforcer, TypeQuota,
  consume_from,
}

-- Whether a quota that was hit `h` times takes a proxy of these types.
abbrev pub room : Option ℕ → ℕ → Bool
room none h = true
room (some n) h = ltb h n

unfoldable pub takes : List Protocol → TypeQuota → ℕ → Bool
takes types q h = any (protocol_matches q.protocol) types && room q.quota h

abbrev pub bump : TypeQuota → ℕ → ℕ
bump q h = if is_some q.quota then h + 1 else h

-- Every quota that takes the proxy counts it, if it is capped.
abbrev pub new_hits : List Protocol → List TypeQuota → List ℕ → List ℕ
new_hits types (q ∷ qs) (h ∷ hs) = (if takes types q h then bump q h else h) ∷ new_hits types qs hs
new_hits types _ hs = hs

abbrev pub some_takes : List Protocol → List TypeQuota → List ℕ → Bool
some_takes types (q ∷ qs) (h ∷ hs) = if takes types q h then true else some_takes types qs hs
some_takes types _ hs = false

abbrev taken : List Protocol → ℕ → List TypeQuota → List ℕ → List ℕ
taken types i (q ∷ qs) (h ∷ hs) =
    if takes types q h then i ∷ taken types (i + 1) qs hs else taken types (i + 1) qs hs
taken types i _ hs = []

pub index_mid {ℓ} :
    {A : Type ℓ} (before after : List A) (a : A) (i : ℕ)
    → i ≡ length before
    → index (before ++ a ∷ after) i ≡ returned a
unfolding index
index_mid before after a i e =
    let at : index (before ++ a ∷ after) (length before + 0) ≡ returned a =
      index-append before (a ∷ after) 0 in
    let k : i ≡ length before + 0 = omega arith in rw k at

set_mid {ℓ} :
    {A : Type ℓ} (before after : List A) (a b : A) (i : ℕ)
    → i ≡ length before
    → set (before ++ a ∷ after) i b ≡ before ++ b ∷ after
set_mid [] after a b zero e = refl
set_mid [] after a b (suc i) e = absurd (omega arith)
set_mid (x ∷ before) after a b zero e = absurd (omega arith)
set_mid (x ∷ before) after a b (suc i) e =
    ap (λ l. x ∷ l) (set_mid before after a b i (omega arith))

module _ (types : List Protocol) where
  consume_from_lem :
      (before hs : List ℕ) (i : ℕ) (qs : List TypeQuota)
      → i ≡ length before
      → length hs ≡ length qs
      → consume_from types (before ++ hs) i qs ≡ returned (taken types i qs hs)
  unfolding consume_from takes
  consume_from_lem before [] i [] e n = refl
  consume_from_lem before (h ∷ hs) i [] e n = absurd (omega arith)
  consume_from_lem before [] i (q ∷ qs) e n = absurd (omega arith)
  consume_from_lem before (h ∷ hs) i (q ∷ qs) e n =
      let ih =
        consume_from_lem (before ++ h ∷ []) hs (i + 1) qs
          (omega (arith, length-append before (h ∷ []))) (omega arith) in
      let rest : consume_from types (before ++ h ∷ hs) (i + 1) qs
          ≡ returned (taken types (i + 1) qs hs) =
        rw (append_assoc before (h ∷ []) hs) at ih in
      ground (arith, rest, index_mid before hs h i e)

  -- One index of the second loop.
  count_one :
      (quotas : List TypeQuota) (hits is : List ℕ) (i h : ℕ) (q : TypeQuota)
      → index quotas i ≡ returned q
      → index hits i ≡ returned h
      → set hits i h ≡ hits
      → count_hits quotas (i ∷ is) hits ≡ count_hits quotas is (set hits i (bump q h))
  unfolding count_hits
  count_one quotas hits is i h q eq eh same = ground (arith, eq, eh, same)

  regroup :
      (qpre : List TypeQuota) (before is hs : List ℕ) (qs : List TypeQuota) (out : List ℕ)
      (q : TypeQuota) (h : ℕ)
      → count_hits ((qpre ++ q ∷ []) ++ qs) is ((before ++ h ∷ []) ++ hs)
        ≡ returned ((before ++ h ∷ []) ++ out)
      → count_hits (qpre ++ q ∷ qs) is (before ++ h ∷ hs) ≡ returned (before ++ h ∷ out)
  regroup qpre before is hs qs out q h e =
      rw
        (
          append_assoc qpre (q ∷ []) qs,
          append_assoc before (h ∷ []) hs,
          append_assoc before (h ∷ []) out,
        )
        at e

  count_hits_lem :
      (qpre : List TypeQuota) (before hs : List ℕ) (i : ℕ) (qs : List TypeQuota)
      → i ≡ length before
      → i ≡ length qpre
      → length hs ≡ length qs
      → count_hits (qpre ++ qs) (taken types i qs hs) (before ++ hs)
        ≡ returned (before ++ new_hits types qs hs)
  count_hits_lem qpre before [] i [] e eq n = unfold count_hits in refl
  count_hits_lem qpre before (h ∷ hs) i [] e eq n = absurd (omega arith)
  count_hits_lem qpre before [] i (q ∷ qs) e eq n = absurd (omega arith)
  count_hits_lem qpre before (h ∷ hs) i (q ∷ qs) e eq n =
      let next : (h' : ℕ)
          → count_hits (qpre ++ q ∷ qs) (taken types (i + 1) qs hs) (before ++ h' ∷ hs)
            ≡ returned (before ++ h' ∷ new_hits types qs hs) =
        λ h'. regroup qpre before (taken types (i + 1) qs hs) hs qs (new_hits types qs hs) q h' (
          count_hits_lem (qpre ++ q ∷ []) (before ++ h' ∷ []) hs (i + 1) qs
            (omega (arith, length-append before (h' ∷ [])))
            (omega (arith, length-append qpre (q ∷ []))) (omega arith)) in
      elim (Bool-cases (takes types q h)) [
        | inl yes' ↦ rw yes' (
            count_one (qpre ++ q ∷ qs) (before ++ h ∷ hs) (taken types (i + 1) qs hs) i h q
              (index_mid qpre qs q i eq) (index_mid before hs h i e) (set_mid before hs h h i e)
            ∙ ap (count_hits (qpre ++ q ∷ qs) (taken types (i + 1) qs hs))
                (set_mid before hs h (bump q h) i e)
            ∙ next (bump q h))
        | inr no' ↦ rw no' (next h)
      ]

  taken-nonempty :
      (i : ℕ) (qs : List TypeQuota) (hs : List ℕ)
      → nonempty (taken types i qs hs) ≡ some_takes types qs hs
  taken-nonempty i [] hs = refl
  taken-nonempty i (q ∷ qs) [] = refl
  taken-nonempty i (q ∷ qs) (h ∷ hs) = ground (arith, taken-nonempty (i + 1) qs hs)

-- The step of the enforcer as a function of each quota by itself.
unfoldable pub emit_spec : List Protocol → QuotaEnforcer → Bool × QuotaEnforcer
emit_spec types e =
    if not (shares_family e.quotas types)
    then (true, e)
    else (some_takes types e.quotas e.hits, record e { hits = new_hits types e.quotas e.hits })

emit_types_refines :
    (types : List Protocol) (e : QuotaEnforcer)
    → length e.hits ≡ length e.quotas
    → emit_types types e ≡ returned (emit_spec types e)
unfolding emit_types emit_spec
emit_types_refines types e n = ground (
  arith,
  consume_from_lem types [] e.hits 0 e.quotas refl n,
  count_hits_lem types [] [] e.hits 0 e.quotas refl refl n,
  taken-nonempty types 0 e.quotas e.hits,
)

-- With one counter for each quota `should_emit` does not panic, and takes the types that a proxy was
-- validated for, or those that it advertises if there are none. A proxy that shares no family with a
-- quota is emitted and counted nowhere. Any other is emitted exactly when some quota that it matches is
-- uncapped or has room, and each capped quota that it matches and that has room counts one hit more.
pub should_emit_refines :
    (f : Float) (proxy : Proxy f) (e : QuotaEnforcer)
    → length e.hits ≡ length e.quotas
    → should_emit f proxy e ≡ returned (emit_spec (carried f proxy) e)
unfolding should_emit
should_emit_refines f proxy e n = emit_types_refines (carried f proxy) e n
