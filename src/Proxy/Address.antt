-- ===== src/Proxy/Address.antt =====
-- `std::net::Ipv4Addr`, by its octets.
use flx.Base.{ℕ, ◌<◌, ◌≡◌, ◌↔◌, Bool, true, ◌&&◌, Eq, nat_eq, arith}

pub record Ipv4Addr : Type 0 where
  pub a : ℕ
  pub b : ℕ
  pub c : ℕ
  pub d : ℕ

-- Each octet is a byte.
pub record IsAddr (ip : Ipv4Addr) : Type 0 where
  pub a : ip.a < 256
  pub b : ip.b < 256
  pub c : ip.c < 256
  pub d : ip.d < 256

abbrev pub addr_eq : Ipv4Addr → Ipv4Addr → Bool
addr_eq x y = nat_eq x.a y.a && (nat_eq x.b y.b && (nat_eq x.c y.c && nat_eq x.d y.d))

pub addr_eq_iff : (x y : Ipv4Addr) → (addr_eq x y ≡ true) ↔ (x ≡ y)
addr_eq_iff x y = ground arith

instance abbrev pub Ipv4Addr_eq : Eq Ipv4Addr
Ipv4Addr_eq = record { beq = addr_eq; beq_iff = addr_eq_iff }
