-- ===== src/Cli/Quotas/Tests.antt =====
-- `HTTP=2 SOCKS5=1`, with the HTTP cap filled by one more proxy.
use flx.Base.{ℕ, ◌+◌, ◌≤◌, ◌≡◌, refl, true, false, List, [], ◌∷◌, some, arith}
use flx.Base.Outcome.{returned, index}
use flx.Proxy.Protocol.{socks4, http, elite, unknown, socks5, same_family, protocol_matches}
use flx.Proxy.Model.{carried}
use flx.Proxy.Sample.{whole, advertised}
use flx.Cli.Quotas.{
  closed_from, is_protocol_closed, TypeQuota, QuotaEnforcer, should_emit, is_satisfied,
  consume_from, count_hits, has_unfilled, has_uncapped, has_any_quota, unfilled_from,
}
use flx.Cli.Quotas.Refine.{emit_spec, should_emit_refines}
use flx.Cli.Quotas.Caps.{Within, emitted, emitted_bound}
use flx.Cli.Quotas.Satisfied.{should_emit-satisfied}

abbrev quotas : List TypeQuota
quotas =
    record { protocol = http unknown; quota = some 2 }
    ∷ record { protocol = socks5; quota = some 1 }
    ∷ []

abbrev part_full : QuotaEnforcer
part_full = record { quotas = quotas; hits = 1 ∷ 1 ∷ []; has_groups = false }

abbrev full : QuotaEnforcer
full = record { quotas = quotas; hits = 2 ∷ 1 ∷ []; has_groups = false }

fills : should_emit whole (advertised (http elite ∷ [])) part_full ≡ returned (true, full)
unfolding should_emit carried same_family protocol_matches consume_from count_hits index
fills = refl

should_emit_refines_example :
    should_emit whole (advertised (http elite ∷ [])) part_full
    ≡ returned (emit_spec (carried whole (advertised (http elite ∷ []))) part_full)
should_emit_refines_example =
    should_emit_refines whole (advertised (http elite ∷ [])) part_full refl

emitted_bound_example :
    (n : ℕ) × (e' : QuotaEnforcer) × (emitted whole
        (advertised (http elite ∷ []) ∷ advertised (http unknown ∷ []) ∷ [])
        part_full
      ≡ returned (n, e'))
    × Within quotas e'.hits
    × (n + 2 ≤ 3)
emitted_bound_example =
    emitted_bound whole (advertised (http elite ∷ []) ∷ advertised (http unknown ∷ []) ∷ [])
      part_full (refl, (refl, tt)) (omega arith)

full_satisfied : is_satisfied full ≡ returned true
unfolding is_satisfied has_unfilled has_uncapped has_any_quota unfilled_from index
full_satisfied = refl

should_emit-satisfied_example :
    should_emit whole (advertised (http elite ∷ [])) full ≡ returned (false, full)
unfolding carried same_family
should_emit-satisfied_example =
    should_emit-satisfied whole (advertised (http elite ∷ [])) full refl full_satisfied refl

-- SOCKS5 is full, HTTP has room, and no quota names SOCKS4.
closed : is_protocol_closed socks5 part_full ≡ returned true
unfolding is_protocol_closed closed_from same_family index
closed = refl

not_closed : is_protocol_closed (http elite) part_full ≡ returned false
unfolding is_protocol_closed closed_from same_family index
not_closed = refl

unnamed : is_protocol_closed socks4 full ≡ returned false
unfolding is_protocol_closed closed_from same_family index
unnamed = refl
