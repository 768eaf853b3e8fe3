-- ===== src/Validator/Manager/Tests.antt =====
-- Two groups, one of which names a protocol twice.
use flx.Validator.Manager.{
  total_of, retain_new, dedup_groups, slots_from, spec_from, Config, group_spec, check,
}
use flx.Base.{nat_eq, ◌&&◌, length, ltb, refl, ◌∷◌, map, none, contains, [], ℕ, ◌≡◌}
use flx.Proxy.Protocol.{Protocol_eq, Protocol, connect, socks5, socks4}
use flx.Validator.Manager.Slots.{Place_eq, place_of}
use flx.Validator.Manager.Spec.{group_spec_lem, group_at}
use flx.Validator.Manager.Firsts.{Slot_eq, variety, before}
use flx.Fetcher.Dedup.Refine.{Distinct}

abbrev config : Config
config = record {
  types = [];
  groups = (socks4 ∷ socks5 ∷ socks4 ∷ []) ∷ (connect 25 ∷ []) ∷ [];
  concurrency_limit = 10;
  request_timeout = 5;
  max_attempts = 1;
}

passes_checks : check config ≡ none
unfolding check
passes_checks = refl

three_members :
    group_spec (dedup_groups config.groups)
    ≡ (0, 0, socks4) ∷ (0, 1, socks5) ∷ (1, 0, connect 25) ∷ []
unfolding group_spec spec_from slots_from dedup_groups retain_new
three_members = refl

group_spec_lem_example :
    ((g s : ℕ) (p : Protocol)
      → contains (group_spec (dedup_groups config.groups)) (g, s, p) ≡ (
          contains (group_at config.groups g) p
          && nat_eq s (variety (before p (group_at config.groups g)))))
    × (((g s : ℕ)
          → contains (map place_of (group_spec (dedup_groups config.groups))) (g, s)
            ≡ ltb s (variety (group_at config.groups g)))
        × (Distinct (map place_of (group_spec (dedup_groups config.groups)))
            × (total_of (group_spec (dedup_groups config.groups)) ≡ length config.groups)))
group_spec_lem_example = group_spec_lem config passes_checks
