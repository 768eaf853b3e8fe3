-- ===== src/Filters.antt =====
-- src/filters.rs: the filters, the order and the buffered streams of proxies.
pub mod Sort
pub mod Ordered
pub mod Stream
pub mod Shuffle
pub mod Shuffled
mod Tests
use flx.Base.{
  ℕ, zero, Bool, true, false, not, ◌&&◌, List, [], ◌∷◌, Option, none, some, if◌then◌else◌, any, ltb,
  leb, contains, map,
}
use flx.Proxy.Float.{Float}
use flx.Proxy.Model.{Proxy, ProxyType, HealthScore, carried, avg_response_time}
use flx.Proxy.Protocol.{
  Anonymity, Anonymity_eq, Protocol, Protocol_eq, protocol_eq, protocol_family, rank,
}

module _ (f : Float) where
  open f use {F, le}

  -- The level of an HTTP or HTTPS type.
  abbrev pub level : Protocol → Option Anonymity
  level (Protocol.http a) = some a
  level (Protocol.https a) = some a
  level _ = none

  abbrev pub larger : ℕ → ℕ → ℕ
  larger a b = if ltb a b then b else a

  abbrev pub max_with : Option Anonymity → Option ℕ → Option ℕ
  max_with none o = o
  max_with (some a) none = some (rank a)
  max_with (some a) (some n) = some (larger (rank a) n)

  -- `filter_map(…).max()`
  unfoldable pub max_rank : List (ProxyType f) → Option ℕ
  unfolding rank
  max_rank [] = none
  max_rank (t ∷ types) = max_with (level t.protocol) (max_rank types)

  abbrev pub or_unknown : Option ℕ → ℕ
  or_unknown none = rank Anonymity.unknown
  or_unknown (some n) = n

  unfoldable pub proxy_anonymity_rank : Proxy f → ℕ
  unfolding max_rank
  proxy_anonymity_rank proxy = or_unknown (max_rank proxy.proxy_types)

  unfoldable pub is_excluded : List Protocol → Proxy f → Bool
  is_excluded [] proxy = false
  is_excluded (e ∷ excluded) proxy =
      any
        (λ (p : Protocol).
          any (λ (x : Protocol). protocol_eq (protocol_family x) (protocol_family p))
            (e ∷ excluded))
        (carried f proxy)

  abbrev in_levels : List Anonymity → Option Anonymity → Bool
  in_levels levels none = false
  in_levels levels (some a) = contains levels a

  -- The predicates of the filters.
  unfoldable pub min_anonymity : Anonymity → Proxy f → Bool
  min_anonymity min proxy = leb (rank min) (proxy_anonymity_rank proxy)

  unfoldable pub levels : List Anonymity → Proxy f → Bool
  levels ls proxy = any (λ (t : ProxyType f). in_levels ls (level t.protocol)) proxy.proxy_types

  unfoldable pub min_response_time : F → Proxy f → Bool
  min_response_time seconds proxy = le seconds (avg_response_time f proxy)

  unfoldable pub max_response_time : F → Proxy f → Bool
  max_response_time seconds proxy = le (avg_response_time f proxy) seconds

  abbrev scores : F → Option (HealthScore f) → Bool
  scores score none = false
  scores score (some h) = le score h.total

  unfoldable pub min_score : F → Proxy f → Bool
  min_score score proxy = scores score proxy.health_score

  unfoldable pub exclude_types : List Protocol → Proxy f → Bool
  exclude_types excluded proxy = not (is_excluded excluded proxy)
