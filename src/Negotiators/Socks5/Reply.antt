-- ===== src/Negotiators/Socks5/Reply.antt =====
-- Which replies to the request complete the SOCKS5 handshake.
use flx.Base.{
  inl, inr, ℕ, ◌+◌, ◌≤◌, ◌<◌, ◌≡◌, refl, sym, ap, ap₂, ◌∙◌, Bool, true, false, ◌&&◌, [], ◌∷◌, ◌++◌,
  ltb, length, take, drop, drop-append, length-append, length-take, append-take-drop, arith, ℕ_eq,
  ◌⊎◌, inl, inr,
}
use flx.Base.Bytes.{Bytes}
use flx.Base.Outcome.{index}
use flx.Negotiators.Socks5.Handshake.{read_reply, read_tail}
use flx.Negotiators.Wire.{Wire, Answer, gave}

abbrev pub all_bytes : Bytes → Bool
all_bytes [] = true
all_bytes (b ∷ bytes) = ltb b 256 && all_bytes bytes

abbrev pub wire : Bytes → Bytes → Bool → Wire
wire incoming sent writable = record { incoming = incoming; sent = sent; writable = writable }

-- The replies of RFC 1928 that report success: version 5, status 0, a reserved byte, and an address
-- of either type or a name, with its port.
pub data IsReply : Bytes → Type 0 where
  ipv4 : (rsv : ℕ) (tail : Bytes) → length tail ≡ 6 → IsReply (5 ∷ 0 ∷ rsv ∷ 1 ∷ tail)
  ipv6 : (rsv : ℕ) (tail : Bytes) → length tail ≡ 18 → IsReply (5 ∷ 0 ∷ rsv ∷ 4 ∷ tail)
  named : (rsv n : ℕ) (tail : Bytes) → length tail ≡ n + 2 → IsReply (5 ∷ 0 ∷ rsv ∷ 3 ∷ n ∷ tail)

-- What arrives is a reply, and then what is left.
abbrev pub Replied : Bytes → Bytes → Type 0
Replied incoming left = (reply : Bytes) × (IsReply reply × (incoming ≡ reply ++ left))

module _ (sent : Bytes) (writable : Bool) where
  abbrev pub Ends : Answer (Unit {0}) × Wire → Bytes → Type 0
  Ends o left = o ≡ (gave tt, wire left sent writable)

  tail-Ends :
      (k : ℕ) (tail left : Bytes)
      → length tail ≡ k
      → k ≤ 258
      → Ends (read_tail k (wire (tail ++ left) sent writable)) left
  tail-Ends k tail left h short =
      let fits : ltb 258 k ≡ false = ground arith in
      let long : ltb (length (tail ++ left)) k ≡ false = ground (arith, length-append tail left) in
      let behind : drop k (tail ++ left) ≡ left =
        ap (λ n. drop n (tail ++ left)) (sym h) ∙ drop-append tail left in
      rw (fits, long, behind) refl

  Ends-tail :
      (k : ℕ) (incoming : Bytes) (w' : Wire)
      → read_tail k (wire incoming sent writable) ≡ (gave tt, w')
      → (length (take k incoming) ≡ k)
        × (incoming ≡ take k incoming ++ w'.incoming)
        × (w' ≡ wire w'.incoming sent writable)
  Ends-tail k incoming w' h =
      let whole = append-take-drop k incoming in
      let code = ap (λ (o : Answer (Unit {0}) × Wire). o.0) h in
      let left = ap (λ (o : Answer (Unit {0}) × Wire). o.1.incoming) h in
      let sent' = ap (λ (o : Answer (Unit {0}) × Wire). o.1.sent) h in
      let writable' = ap (λ (o : Answer (Unit {0}) × Wire). o.1.writable) h in
      let same_sent : sent ≡ w'.sent = ground (arith, code, sent') in
      let same_writable : writable ≡ w'.writable = ground (arith, code, writable') in
      (
        ground (arith, code, length-take k incoming),
        ground (arith, code, left, whole),
        ap₂ (λ (s : Bytes) (b : Bool). wire w'.incoming s b) (sym same_sent) (sym same_writable),
      )

  pub reply-Replied :
      (incoming left : Bytes)
      → all_bytes incoming ≡ true
      → Replied incoming left
      → Ends (read_reply (wire incoming sent writable)) left
  unfolding read_reply index
  reply-Replied incoming left h (reply, (ipv4 rsv tail n, e)) =
      let long : ltb (length (5 ∷ 0 ∷ rsv ∷ 1 ∷ (tail ++ left))) 4 ≡ false = ground arith in
      rw (e, long) (tail-Ends 6 tail left n (omega arith))
  reply-Replied incoming left h (reply, (ipv6 rsv tail n, e)) =
      let long : ltb (length (5 ∷ 0 ∷ rsv ∷ 4 ∷ (tail ++ left))) 4 ≡ false = ground arith in
      rw (e, long) (tail-Ends 18 tail left n (omega arith))
  reply-Replied incoming left h (reply, (named rsv n tail m, e)) =
      let long : ltb (length (5 ∷ 0 ∷ rsv ∷ 3 ∷ n ∷ (tail ++ left))) 4 ≡ false = ground arith in
      let one : ltb (length (n ∷ (tail ++ left))) 1 ≡ false = ground arith in
      let byte : n < 256 = ground (arith, e, h, ap all_bytes e) in
      rw (e, long, one) (tail-Ends (n + 2) tail left m (omega (arith, byte)))

  -- A reply of four bytes and more, by its version, status and address type.
  head_lem :
      (a b r t : ℕ) (rest : Bytes) (w' : Wire)
      → read_reply (wire (a ∷ b ∷ r ∷ t ∷ rest) sent writable) ≡ (gave tt, w')
      → (a ≡ 5) × (b ≡ 0) × ((t ≡ 1) ⊎ ((t ≡ 4) ⊎ (t ≡ 3)))
  unfolding read_reply index
  head_lem a b r t rest w' h =
      let code = ap (λ (o : Answer (Unit {0}) × Wire). o.0) h in
      (ground (arith, code), ground (arith, code), ground (arith, code))

  short_lem :
      (incoming : Bytes) (w' : Wire)
      → length incoming < 4
      → read_reply (wire incoming sent writable) ≡ (gave tt, w')
      → ⊥
  unfolding read_reply
  short_lem incoming w' h e =
      let code = ap (λ (o : Answer (Unit {0}) × Wire). o.0) e in ground (arith, code)

  Replied-named :
      (r : ℕ) (rest : Bytes) (w' : Wire)
      → read_reply (wire (5 ∷ 0 ∷ r ∷ 3 ∷ rest) sent writable) ≡ (gave tt, w')
      → Replied (5 ∷ 0 ∷ r ∷ 3 ∷ rest) w'.incoming × (w' ≡ wire w'.incoming sent writable)
  unfolding read_reply index
  Replied-named r [] w' h = absurd (ground (arith, ap (λ (o : Answer (Unit {0}) × Wire). o.0) h))
  Replied-named r (n ∷ rest) w' h =
      let long : ltb (length (5 ∷ 0 ∷ r ∷ 3 ∷ n ∷ rest)) 4 ≡ false = ground arith in
      let one : ltb (length (n ∷ rest)) 1 ≡ false = ground arith in
      let step : read_reply (wire (5 ∷ 0 ∷ r ∷ 3 ∷ n ∷ rest) sent writable)
          ≡ read_tail (n + 2) (wire rest sent writable) =
        rw (long, one) refl in
      let (size, whole, same) = Ends-tail (n + 2) rest w' (sym step ∙ h) in
      (
        (
          5 ∷ 0 ∷ r ∷ 3 ∷ n ∷ take (n + 2) rest,
          (named r n (take (n + 2) rest) size, ap (λ l. 5 ∷ 0 ∷ r ∷ 3 ∷ n ∷ l) whole),
        ),
        same,
      )

  Replied-ipv4 :
      (r : ℕ) (rest : Bytes) (w' : Wire)
      → read_reply (wire (5 ∷ 0 ∷ r ∷ 1 ∷ rest) sent writable) ≡ (gave tt, w')
      → Replied (5 ∷ 0 ∷ r ∷ 1 ∷ rest) w'.incoming × (w' ≡ wire w'.incoming sent writable)
  unfolding read_reply index
  Replied-ipv4 r rest w' h =
      let long : ltb (length (5 ∷ 0 ∷ r ∷ 1 ∷ rest)) 4 ≡ false = ground arith in
      let step : read_reply (wire (5 ∷ 0 ∷ r ∷ 1 ∷ rest) sent writable)
          ≡ read_tail 6 (wire rest sent writable) =
        rw long refl in
      let (size, whole, same) = Ends-tail 6 rest w' (sym step ∙ h) in
      (
        (
          5 ∷ 0 ∷ r ∷ 1 ∷ take 6 rest,
          (ipv4 r (take 6 rest) size, ap (λ l. 5 ∷ 0 ∷ r ∷ 1 ∷ l) whole),
        ),
        same,
      )

  Replied-ipv6 :
      (r : ℕ) (rest : Bytes) (w' : Wire)
      → read_reply (wire (5 ∷ 0 ∷ r ∷ 4 ∷ rest) sent writable) ≡ (gave tt, w')
      → Replied (5 ∷ 0 ∷ r ∷ 4 ∷ rest) w'.incoming × (w' ≡ wire w'.incoming sent writable)
  unfolding read_reply index
  Replied-ipv6 r rest w' h =
      let long : ltb (length (5 ∷ 0 ∷ r ∷ 4 ∷ rest)) 4 ≡ false = ground arith in
      let step : read_reply (wire (5 ∷ 0 ∷ r ∷ 4 ∷ rest) sent writable)
          ≡ read_tail 18 (wire rest sent writable) =
        rw long refl in
      let (size, whole, same) = Ends-tail 18 rest w' (sym step ∙ h) in
      (
        (
          5 ∷ 0 ∷ r ∷ 4 ∷ take 18 rest,
          (ipv6 r (take 18 rest) size, ap (λ l. 5 ∷ 0 ∷ r ∷ 4 ∷ l) whole),
        ),
        same,
      )

  pub Replied-reply :
      (incoming : Bytes) (w' : Wire)
      → read_reply (wire incoming sent writable) ≡ (gave tt, w')
      → Replied incoming w'.incoming × (w' ≡ wire w'.incoming sent writable)
  Replied-reply [] w' h = absurd (short_lem [] w' (omega arith) h)
  Replied-reply (a ∷ []) w' h = absurd (short_lem (a ∷ []) w' (omega arith) h)
  Replied-reply (a ∷ b ∷ []) w' h = absurd (short_lem (a ∷ b ∷ []) w' (omega arith) h)
  Replied-reply (a ∷ b ∷ r ∷ []) w' h = absurd (short_lem (a ∷ b ∷ r ∷ []) w' (omega arith) h)
  Replied-reply (a ∷ b ∷ r ∷ t ∷ rest) w' h =
      let (ea, eb, et) = head_lem a b r t rest w' h in
      let Goal : ℕ → ℕ → ℕ → Type 0 = λ x y z.
        read_reply (wire (x ∷ y ∷ r ∷ z ∷ rest) sent writable) ≡ (gave tt, w')
        → Replied (x ∷ y ∷ r ∷ z ∷ rest) w'.incoming × (w' ≡ wire w'.incoming sent writable) in
      let at : Goal a b t = elim et [
        | inl e ↦ rw (ea, eb, e) (Replied-ipv4 r rest w')
        | inr (inl e) ↦ rw (ea, eb, e) (Replied-ipv6 r rest w')
        | inr (inr e) ↦ rw (ea, eb, e) (Replied-named r rest w')
      ] in
      at h
