-- ===== src/Cli/Quotas/Caps.antt =====
-- The caps of the quotas, for one proxy and for a whole run.
use flx.Base.{
  ◌∙◌, ℕ, suc, ◌+◌, ◌≤◌, ◌≡◌, refl, ap, Bool, true, List, [], ◌∷◌, Option, none, some,
  if◌then◌else◌, is_some, length, arith, Bool-cases, inl, inr,
}
use flx.Base.Outcome.{Outcome, returned, ◌>>=◌}
use flx.Proxy.Protocol.{Protocol}
use flx.Proxy.Float.{Float}
use flx.Proxy.Model.{Proxy, carried}
use flx.Cli.Quotas.{TypeQuota, QuotaEnforcer, new, shares_family, should_emit}
use flx.Cli.Quotas.Refine.{should_emit_refines, takes, bump, new_hits, some_takes, emit_spec}

abbrev pub AtMost : Option ℕ → ℕ → Type 0
AtMost none h = Unit
AtMost (some n) h = h ≤ n

-- One counter for each quota, none above its cap.
abbrev pub Within : List TypeQuota → List ℕ → Type 0
Within [] [] = Unit
Within (q ∷ qs) (h ∷ hs) = AtMost q.quota h × Within qs hs
Within _ _ = ⊥

pub Within-length : (qs : List TypeQuota) (hs : List ℕ) → Within qs hs → length hs ≡ length qs
Within-length [] [] w = refl
Within-length [] (h ∷ hs) w = absurd w
Within-length (q ∷ qs) [] w = absurd w
Within-length (q ∷ qs) (h ∷ hs) w = ap suc (Within-length qs hs w.1)

AtMost-bump :
    (types : List Protocol) (p : Protocol) (o : Option ℕ) (h : ℕ)
    → let q : TypeQuota = record { protocol = p; quota = o } in
      AtMost o h → AtMost o (if takes types q h then bump q h else h)
unfolding takes
AtMost-bump types p none h a = tt
AtMost-bump types p (some n) h a = ground arith

new_hits-Within :
    (types : List Protocol) (qs : List TypeQuota) (hs : List ℕ)
    → Within qs hs
    → Within qs (new_hits types qs hs)
new_hits-Within types [] [] w = tt
new_hits-Within types [] (h ∷ hs) w = absurd w
new_hits-Within types (q ∷ qs) [] w = absurd w
new_hits-Within types (q ∷ qs) (h ∷ hs) w =
    (AtMost-bump types q.protocol q.quota h w.0, new_hits-Within types qs hs w.1)

-- A new enforcer counts nothing.
pub new-Within : (qs : List TypeQuota) → Within qs (new qs).hits
unfolding new
new-Within [] = tt
new-Within (q ∷ qs) = (zero_within q.quota, new-Within qs)
  where
    zero_within : (o : Option ℕ) → AtMost o 0
    zero_within none = tt
    zero_within (some n) = omega arith

emit_spec-Within :
    (types : List Protocol) (e : QuotaEnforcer)
    → Within e.quotas e.hits
    → ((emit_spec types e).1.quotas ≡ e.quotas) × Within e.quotas (emit_spec types e).1.hits
unfolding emit_spec
emit_spec-Within types e w = elim (Bool-cases (shares_family e.quotas types)) [
  | inl shared ↦ rw shared (refl, new_hits-Within types e.quotas e.hits w)
  | inr apart ↦ rw apart (refl, w)
]

-- The sum of the counters, and that of the caps.
abbrev pub sum : List ℕ → ℕ
sum [] = 0
sum (h ∷ hs) = h + sum hs

-- Every quota is capped.
abbrev pub AllCapped : List TypeQuota → Type 0
AllCapped [] = Unit
AllCapped (q ∷ qs) = (is_some q.quota ≡ true) × AllCapped qs

abbrev pub cap_of : Option ℕ → ℕ
cap_of none = 0
cap_of (some n) = n

abbrev pub sum_caps : List TypeQuota → ℕ
sum_caps [] = 0
sum_caps (q ∷ qs) = cap_of q.quota + sum_caps qs

sum-le-sum_caps :
    (qs : List TypeQuota) (hs : List ℕ) → AllCapped qs → Within qs hs → sum hs ≤ sum_caps qs
sum-le-sum_caps [] [] c w = omega arith
sum-le-sum_caps [] (h ∷ hs) c w = absurd w
sum-le-sum_caps (q ∷ qs) [] c w = absurd w
sum-le-sum_caps (q ∷ qs) (h ∷ hs) c w = ground (arith, sum-le-sum_caps qs hs c.1 w.1)

sum-new_hits_grows :
    (types : List Protocol) (qs : List TypeQuota) (hs : List ℕ)
    → sum hs ≤ sum (new_hits types qs hs)
sum-new_hits_grows types [] hs = omega arith
sum-new_hits_grows types (q ∷ qs) [] = omega arith
sum-new_hits_grows types (q ∷ qs) (h ∷ hs) = ground (arith, sum-new_hits_grows types qs hs)

-- An emission under caps is counted.
sum-new_hits :
    (types : List Protocol) (qs : List TypeQuota) (hs : List ℕ)
    → AllCapped qs
    → some_takes types qs hs ≡ true
    → sum hs + 1 ≤ sum (new_hits types qs hs)
sum-new_hits types [] hs c t = cc
sum-new_hits types (q ∷ qs) [] c t = cc
sum-new_hits types (q ∷ qs) (h ∷ hs) c t =
    ground (arith, sum-new_hits types qs hs c.1, sum-new_hits_grows types qs hs)

-- How many proxies that share a family with a quota are emitted, in a run of the enforcer.
abbrev counted : Bool → Bool → ℕ
counted true true = 1
counted _ _ = 0

module _ (f : Float) where
  pub emitted : List (Proxy f) → QuotaEnforcer → Outcome (ℕ × QuotaEnforcer)
  emitted [] e = returned (0, e)
  emitted (p ∷ proxies) e = do
    out ← should_emit f p e
    rest ← emitted proxies out.1
    returned (counted (shares_family e.quotas (carried f p)) out.0 + rest.0, rest.1)

  Emits : List (Proxy f) → QuotaEnforcer → Type 0
  Emits proxies e =
      (n : ℕ) × (e' : QuotaEnforcer) × (emitted proxies e ≡ returned (n, e'))
      × (e'.quotas ≡ e.quotas)
      × Within e.quotas e'.hits
      × (n + sum e.hits ≤ sum e'.hits)

  emit_counted :
      (types : List Protocol) (e : QuotaEnforcer)
      → AllCapped e.quotas
      → counted (shares_family e.quotas types) (emit_spec types e).0 + sum e.hits
        ≤ sum (emit_spec types e).1.hits
  unfolding emit_spec
  emit_counted types e c =
      ground (arith, sum-new_hits types e.quotas e.hits c, sum-new_hits_grows types e.quotas e.hits)

  emits :
      (proxies : List (Proxy f)) (e : QuotaEnforcer)
      → AllCapped e.quotas
      → Within e.quotas e.hits
      → Emits proxies e
  unfolding emitted Emits
  emits [] e c w = (0, e, refl, refl, w, omega arith)
  emits (p ∷ proxies) e c w =
      let types = carried f p in
      let (same, w') = emit_spec-Within types e w in
      let next = (emit_spec types e).1 in
      let (n, e', run, kept, w'', total) = emits proxies next (rw same c) (rw same w') in
      let one = emit_counted types e c in
      (
        counted (shares_family e.quotas types) (emit_spec types e).0 + n,
        e',
        rw (should_emit_refines f p e (Within-length e.quotas e.hits w), run),
        kept ∙ same,
        rw same at w'',
        omega arith,
      )

  -- Let every quota be capped, and every counter within its cap. Then a run of `should_emit` over any
  -- proxies panics nowhere, leaves every counter within its cap, and of the proxies that share a family
  -- with a quota it emits no more than the caps had room for in all.
  pub emitted_bound :
      (proxies : List (Proxy f)) (e : QuotaEnforcer)
      → AllCapped e.quotas
      → Within e.quotas e.hits
      → (n : ℕ) × (e' : QuotaEnforcer) × (emitted proxies e ≡ returned (n, e'))
        × Within e.quotas e'.hits
        × (n + sum e.hits ≤ sum_caps e.quotas)
  unfolding Emits
  emitted_bound proxies e c w =
      let (n, e', run, kept, w', total) = emits proxies e c w in
      (n, e', run, w', omega (arith, total, sum-le-sum_caps e.quotas e'.hits c w'))
