-- ===== src/Negotiators/Socks5/Accepted.antt =====
-- Which answers of a proxy complete the SOCKS5 handshake, from the method on.
use flx.Base.{
  refl, ap, true, false, ◌≡◌, refl, ap, true, false, [], ◌∷◌, ◌++◌, none, some, ltb, length, arith,
  ℕ_eq,
}
use flx.Base.Bytes.{Bytes}
use flx.Base.Outcome.{index}
use flx.Negotiators.Socks5.Handshake.{Credentials, choose, greeting, auth_request}
use flx.Negotiators.Socks5.Reply.{wire}
use flx.Negotiators.Wire.{same_wire, Answer, gave, Wire, Wire, Answer, gave, same_wire}

-- What a proxy sends that takes the client without a name, or with the name it sent.
abbrev pub selected : Credentials → Bytes
selected none = 5 ∷ 0 ∷ []
selected (some _) = 5 ∷ 2 ∷ 1 ∷ 0 ∷ []

-- What was sent by then.
abbrev pub opening : Credentials → Bytes → Bytes
opening none sent = sent ++ greeting none
opening (some c) sent = (sent ++ greeting (some c)) ++ auth_request c

pub choose-selected :
    (c : Credentials) (left sent : Bytes)
    → choose c (wire (selected c ++ left) sent true) ≡ (gave tt, wire left (opening c sent) true)
unfolding choose index
choose-selected none left sent =
    let long : ltb (length (5 ∷ 0 ∷ left)) 2 ≡ false = ground arith in rw long refl
choose-selected (some c) left sent =
    let long : ltb (length (5 ∷ 2 ∷ 1 ∷ 0 ∷ left)) 2 ≡ false = ground arith in
    let more : ltb (length (1 ∷ 0 ∷ left)) 2 ≡ false = ground arith in rw (long, more) refl

module _ (sent : Bytes) (w' : Wire) where
  abbrev pub Selects : Bytes → Credentials → Type 0
  Selects incoming c =
      (incoming ≡ selected c ++ w'.incoming) × (w' ≡ wire w'.incoming (opening c sent) true)

  pub selected_none :
      (incoming : Bytes)
      → choose none (wire incoming sent true) ≡ (gave tt, w')
      → Selects incoming none
  unfolding choose index
  selected_none [] h = absurd (ground (arith, ap (λ (o : Answer (Unit {0}) × Wire). o.0) h))
  selected_none (a ∷ []) h = absurd (ground (arith, ap (λ (o : Answer (Unit {0}) × Wire). o.0) h))
  selected_none (a ∷ b ∷ rest) h =
      let code = ap (λ (o : Answer (Unit {0}) × Wire). o.0) h in
      let left = ap (λ (o : Answer (Unit {0}) × Wire). o.1.incoming) h in
      let sent' = ap (λ (o : Answer (Unit {0}) × Wire). o.1.sent) h in
      let writable' = ap (λ (o : Answer (Unit {0}) × Wire). o.1.writable) h in
      (
        ground (arith, code, left),
        same_wire w' _ true (ground (arith, code, sent')) (ground (arith, code, writable')),
      )

  pub selected_some :
      (c : Bytes × Bytes) (incoming : Bytes)
      → choose (some c) (wire incoming sent true) ≡ (gave tt, w')
      → Selects incoming (some c)
  unfolding choose index
  selected_some c (a ∷ b ∷ d ∷ e ∷ rest) h =
      let code = ap (λ (o : Answer (Unit {0}) × Wire). o.0) h in
      let left = ap (λ (o : Answer (Unit {0}) × Wire). o.1.incoming) h in
      let sent' = ap (λ (o : Answer (Unit {0}) × Wire). o.1.sent) h in
      let writable' = ap (λ (o : Answer (Unit {0}) × Wire). o.1.writable) h in
      (
        ground (arith, code, left),
        same_wire w' _ true (ground (arith, code, sent')) (ground (arith, code, writable')),
      )
  selected_some c [] h = absurd (ground (arith, ap (λ (o : Answer (Unit {0}) × Wire). o.0) h))
  selected_some c (a ∷ []) h = absurd (ground (arith, ap (λ (o : Answer (Unit {0}) × Wire). o.0) h))
  selected_some c (a ∷ b ∷ []) h =
      absurd (ground (arith, ap (λ (o : Answer (Unit {0}) × Wire). o.0) h))
  selected_some c (a ∷ b ∷ d ∷ []) h =
      absurd (ground (arith, ap (λ (o : Answer (Unit {0}) × Wire). o.0) h))
