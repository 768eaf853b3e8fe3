-- ===== src/Proxy/Protocol.antt =====
-- `Anonymity` and `Protocol` of src/proxy/models.rs, and the comparisons that the filters
-- (src/filters.rs) and the quotas (src/cli/quotas.rs) make between two protocols.
pub mod Family
mod Tests
use flx.Base.{ℕ, ◌≡◌, ◌↔◌, Bool, true, false, ◌||◌, Eq, nat_eq, arith}

pub data Anonymity : Type 0 where
  elite transparent anonymous unknown : Anonymity

unfoldable pub rank : Anonymity → ℕ
rank transparent = 0
rank anonymous = 1
rank elite = 2
rank unknown = 3

pub data Protocol : Type 0 where
  http : Anonymity → Protocol
  https : Anonymity → Protocol
  socks4 : Protocol
  socks5 : Protocol
  connect : ℕ → Protocol

-- The derived equalities.
abbrev pub anonymity_eq : Anonymity → Anonymity → Bool
anonymity_eq elite elite = true
anonymity_eq transparent transparent = true
anonymity_eq anonymous anonymous = true
anonymity_eq unknown unknown = true
anonymity_eq _ _ = false

pub anonymity_eq_iff : (a b : Anonymity) → (anonymity_eq a b ≡ true) ↔ (a ≡ b)
anonymity_eq_iff a b = ground arith

abbrev pub protocol_eq : Protocol → Protocol → Bool
protocol_eq (http a) (http b) = anonymity_eq a b
protocol_eq (https a) (https b) = anonymity_eq a b
protocol_eq socks4 socks4 = true
protocol_eq socks5 socks5 = true
protocol_eq (connect p) (connect q) = nat_eq p q
protocol_eq _ _ = false

pub protocol_eq_iff : (p q : Protocol) → (protocol_eq p q ≡ true) ↔ (p ≡ q)
protocol_eq_iff p q = ground arith

instance abbrev pub Anonymity_eq : Eq Anonymity
Anonymity_eq = record { beq = anonymity_eq; beq_iff = anonymity_eq_iff }

instance abbrev pub Protocol_eq : Eq Protocol
Protocol_eq = record { beq = protocol_eq; beq_iff = protocol_eq_iff }

-- `protocol_family` of src/filters.rs.
unfoldable pub protocol_family : Protocol → Protocol
protocol_family (http _) = http unknown
protocol_family (https _) = https unknown
protocol_family other = other

-- `same_family` and `protocol_matches` of src/cli/quotas.rs.
unfoldable pub same_family : Protocol → Protocol → Bool
same_family (http _) (http _) = true
same_family (https _) (https _) = true
same_family (connect port) (connect other) = nat_eq port other
same_family a b = protocol_eq a b

abbrev level_matches : Anonymity → Anonymity → Bool
level_matches a b = anonymity_eq a unknown || anonymity_eq b unknown || anonymity_eq a b

unfoldable pub protocol_matches : Protocol → Protocol → Bool
protocol_matches (http a) (http b) = level_matches a b
protocol_matches (https a) (https b) = level_matches a b
protocol_matches (connect a) (connect b) = nat_eq a b
protocol_matches requested candidate = protocol_eq requested candidate
