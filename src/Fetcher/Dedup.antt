-- ===== src/Fetcher/Dedup.antt =====
-- src/fetcher/dedup.rs: the table that drops endpoints seen before, of bounded size.
-- The hash set is `hashbrown::HashSet`, a package that the table takes through `HashSet`.
pub mod Hash
pub mod Refine
pub mod Window
mod Tests
use flx.Base.{
  ℕ, ◌≡◌, ◌↔◌, Bool, true, false, not, ◌&&◌, List, [], ◌∷◌, ◌++◌, Eq, if◌then◌else◌, ltb, nat_eq,
  arith,
}
use Hash.{HashSet}

-- `MAX_DEDUP_ENDPOINTS`
abbrev pub max_dedup_endpoints : ℕ
max_dedup_endpoints = 100_000

-- Address, port, and the hash of the advertised protocols.
abbrev pub EndpointKey : Type 0
EndpointKey = ℕ × ℕ × ℕ

abbrev pub endpoint_key_eq : EndpointKey → EndpointKey → Bool
endpoint_key_eq (ip, port, protocols) (ip', port', protocols') =
    nat_eq ip ip' && nat_eq port port' && nat_eq protocols protocols'

pub endpoint_key_eq_iff : (a b : EndpointKey) → (endpoint_key_eq a b ≡ true) ↔ (a ≡ b)
endpoint_key_eq_iff (a, b, c) (a', b', c') = ground arith

instance abbrev pub EndpointKey_eq : Eq EndpointKey
EndpointKey_eq = record { beq = endpoint_key_eq; beq_iff = endpoint_key_eq_iff }

-- The keys are `EndpointKey`; nothing in the table depends on what a key is.
module _ {K : Type 0} ⦃e : Eq K⦄ (h : HashSet K) where
  -- `order` is the `VecDeque`, its front first.
  pub record DedupTable : Type 0 where
    pub seen : h.Set
    pub order : List K
    pub capacity : ℕ

  pub with_capacity : ℕ → DedupTable
  with_capacity capacity = record { seen = h.empty; order = []; capacity = capacity }

  pub new : DedupTable
  unfolding with_capacity
  new = with_capacity max_dedup_endpoints

  -- `if let Some(oldest) = self.order.pop_front() { self.seen.remove(&oldest); }`
  pub evict_oldest : h.Set → List K → h.Set × List K
  evict_oldest seen [] = (seen, [])
  evict_oldest seen (oldest ∷ rest) = (h.remove seen oldest, rest)

  pub insert : DedupTable → K → DedupTable × Bool
  unfolding evict_oldest
  insert t endpoint =
      let (fresh, seen) = h.insert t.seen endpoint in
      if not fresh
      then (record t { seen = seen }, false)
      else (let (seen', order') =
            if ltb t.capacity (h.len seen) then evict_oldest seen t.order else (seen, t.order) in
          (record t { seen = seen'; order = order' ++ endpoint ∷ [] }, true))

  -- The calls of a fetch, in order.
  pub insert_all : DedupTable → List K → DedupTable
  insert_all t [] = t
  insert_all t (k ∷ ks) = insert_all (insert t k).0 ks
