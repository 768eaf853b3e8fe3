-- ===== src/Filters/Tests.antt =====
-- The filters and streams at a few proxies.
use flx.Base.{map, ℕ, ◌≡◌, refl, Bool, true, List, [], ◌∷◌, none, some, ltb, arith}
use flx.Filters.{is_excluded, min_anonymity, proxy_anonymity_rank}
use flx.Filters.Shuffle.{shuffle}
use flx.Filters.Shuffled.{IsShuffle, shuffle-IsShuffle}
use flx.Filters.Ordered.{scored_first, sort-scored_first}
use flx.Filters.Sort.{SortKey, SortOrder, sort_proxies, insert_by}
use flx.Filters.Stream.{Upstream, BufferedState}
use flx.Filters.Stream.Drained.{items, drain_buffered, drain_buffered_lem}
use flx.Proxy.Model.{Proxy, carried}
use flx.Proxy.Protocol.{Protocol, protocol_family, Anonymity, rank}
use flx.Proxy.Sample.{whole, advertised}

abbrev with_total : ℕ → Proxy whole
with_total n = record (advertised []) {
  health_score = some (record { reliability = 0; speed = 0; anonymity = 0; total = n });
}

abbrev three_proxies : List (Proxy whole)
three_proxies = advertised (Protocol.socks5 ∷ []) ∷ with_total 30 ∷ with_total 70 ∷ []

best_first :
    sort_proxies whole three_proxies SortKey.score SortOrder.desc
    ≡ with_total 70 ∷ with_total 30 ∷ advertised (Protocol.socks5 ∷ []) ∷ []
unfolding sort_proxies insert_by
best_first = refl

any_proxy : Proxy whole → Bool
any_proxy p = true

sort-scored_first_example :
    scored_first whole (sort_proxies whole three_proxies SortKey.score SortOrder.desc) ≡ true
sort-scored_first_example = sort-scored_first whole SortOrder.desc three_proxies

abbrev numbers : Upstream ℕ
numbers = some 3 ∷ none ∷ some 9 ∷ some 2 ∷ []

abbrev small : ℕ → Bool
small n = ltb n 5

abbrev backwards : List ℕ → List ℕ
backwards (a ∷ b ∷ c ∷ []) = c ∷ b ∷ a ∷ []
backwards xs = xs

drain_buffered_lem_example :
    drain_buffered backwards 8 (BufferedState.collecting []) numbers ≡ backwards (items numbers)
drain_buffered_lem_example = drain_buffered_lem backwards 8 numbers (omega arith)

abbrev deck : List ℕ
deck = 3 ∷ 9 ∷ 2 ∷ []

shuffle-IsShuffle_example : IsShuffle deck (shuffle 1_700_000_000_000_000_000 4711 deck)
shuffle-IsShuffle_example = shuffle-IsShuffle 1_700_000_000_000_000_000 4711 deck

abbrev excluded_by_family : Bool
excluded_by_family =
    is_excluded whole (Protocol.http Anonymity.elite ∷ [])
      (advertised (Protocol.http Anonymity.unknown ∷ []))

family_is_excluded : excluded_by_family ≡ true
unfolding is_excluded carried protocol_family
family_is_excluded = refl

-- A proxy of unknown level passes the filter for elite proxies.
abbrev passed : List Protocol → Proxy whole
passed types = record (advertised []) {
  proxy_types =
      map (λ (p : Protocol). record { protocol = p; checked = true; checked_on = 1 }) types;
}

unknown_is_elite :
    min_anonymity whole Anonymity.elite (passed (Protocol.http Anonymity.unknown ∷ [])) ≡ true
unfolding min_anonymity rank proxy_anonymity_rank
unknown_is_elite = refl
