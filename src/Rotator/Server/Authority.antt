-- ===== src/Rotator/Server/Authority.antt =====
-- The authority of a CONNECT request: the text that src/negotiators/https.rs and src/rotator/server.rs
-- write for a host and a port, read back by `parse_authority`.
use flx.Negotiators.Https.{colon, contains_byte, write_authority}
use flx.Rotator.Server.Request.{
  keep_end, parse_authority, trim_start, rsplit_colon, trim_end, unbracket,
}
use flx.Base.Bytes.{Bytes}
use flx.Proxy.Text.Number.{parse_u16-decimal, decimal_digits, all_digits}
use flx.Base.{
  sym, append_assoc, inr, inl, refl, Bool-cases, some, ◌∙◌, [], arith, nat_eq, ap, ◌++◌, ◌<◌, ◌∷◌,
  none, ℕ, false, true, ◌≡◌,
}
use flx.Proxy.Text.{decimal}

digits_colon : (text : Bytes) → all_digits text ≡ true → contains_byte 58 text ≡ false
digits_colon [] h = refl
digits_colon (b ∷ text) h = ground (arith, h, digits_colon text)

rsplit_none : (text : Bytes) → contains_byte 58 text ≡ false → rsplit_colon text ≡ none
unfolding rsplit_colon
rsplit_none [] h = refl
rsplit_none (b ∷ text) h = ground (arith, h, rsplit_none text)

rsplit_last :
    (xs tail : Bytes)
    → contains_byte 58 tail ≡ false
    → rsplit_colon (xs ++ 58 ∷ tail) ≡ some (xs, tail)
unfolding rsplit_colon
rsplit_last [] tail h = ground (arith, rsplit_none tail h)
rsplit_last (x ∷ xs) tail h = rw (rsplit_last xs tail h) refl

start_none : (b : ℕ) (text : Bytes) → contains_byte b text ≡ false → trim_start b text ≡ text
unfolding trim_start
start_none b [] h = refl
start_none b (c ∷ text) h = ground (arith, h)

keep_none : (b c : ℕ) (text : Bytes) → nat_eq c b ≡ false → keep_end b c text ≡ c ∷ text
keep_none b c [] h = rw h refl
keep_none b c (d ∷ text) h = refl

end_none : (b : ℕ) (text : Bytes) → contains_byte b text ≡ false → trim_end b text ≡ text
unfolding trim_end
end_none b [] h = refl
end_none b (c ∷ text) h =
    ap (keep_end b c) (end_none b text (ground (arith, h))) ∙ keep_none b c text (ground (arith, h))

end_snoc : (b : ℕ) (text : Bytes) → trim_end b (text ++ b ∷ []) ≡ trim_end b text
unfolding trim_end
end_snoc b [] = ground arith
end_snoc b (c ∷ text) = ap (keep_end b c) (end_snoc b text)

start_end :
    (b c : ℕ) (text : Bytes)
    → contains_byte b text ≡ false
    → nat_eq c b ≡ false
    → trim_start b (text ++ c ∷ []) ≡ text ++ c ∷ []
unfolding trim_start
start_end b c [] h k = ground (arith, k)
start_end b c (d ∷ text) h k = ground (arith, h)

unbracket_bare :
    (host : Bytes)
    → contains_byte 91 host ≡ false
    → contains_byte 93 host ≡ false
    → unbracket host ≡ host
unfolding unbracket
unbracket_bare host h k = ap (trim_end 93) (start_none 91 host h) ∙ end_none 93 host k

unbracket_lem :
    (host : Bytes)
    → contains_byte 91 host ≡ false
    → contains_byte 93 host ≡ false
    → unbracket (91 ∷ (host ++ 93 ∷ [])) ≡ host
unfolding unbracket trim_start
unbracket_lem host h k =
    ap (trim_end 93) (start_end 91 93 host h refl) ∙ (end_snoc 93 host ∙ end_none 93 host k)

port_after :
    (front host : Bytes) (port : ℕ)
    → port < 65536
    → unbracket front ≡ host
    → parse_authority (front ++ 58 ∷ decimal 5 port) ≡ some (host, port)
unfolding parse_authority
port_after front host port h e =
    rw
      (
        rsplit_last front (decimal 5 port) (digits_colon (decimal 5 port) (decimal_digits 5 port)),
        parse_u16-decimal port h,
        e,
      )
      refl

-- The authority that is written for a host and a port, an IPv6 address in brackets, is read back as that
-- host and port, for every port and every host that holds no bracket.
pub parse_authority-write_authority :
    (host : Bytes) (port : ℕ)
    → contains_byte 91 host ≡ false
    → contains_byte 93 host ≡ false
    → port < 65536
    → parse_authority (write_authority host port) ≡ some (host, port)
unfolding write_authority
parse_authority-write_authority host port h k p = elim (Bool-cases (contains_byte colon host)) [
  | inl v6 ↦
      let assoc = append_assoc host (93 ∷ []) (58 ∷ decimal 5 port) in
      rw v6 (
        ap (λ l. parse_authority (91 ∷ l)) (sym assoc)
        ∙ port_after (91 ∷ (host ++ 93 ∷ [])) host port p (unbracket_lem host h k))
  | inr other ↦ rw other (port_after host host port p (unbracket_bare host h k))
]
