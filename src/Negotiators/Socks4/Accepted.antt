-- ===== src/Negotiators/Socks4/Accepted.antt =====
-- Which answers of a proxy complete the handshake.
use flx.Base.{
  ℕ, ◌≤◌, ◌≡◌, ◌↔◌, refl, sym, ap, ◌∙◌, Bool, true, false, [], ◌∷◌, ◌++◌, Option, some, ltb, length,
  take, drop, drop-append, length-append, length-take, append-take-drop, arith, replicate, ap₂, inl,
  inr, Bool-cases,
}
use flx.Base.Bytes.{Bytes}
use flx.Base.Outcome.{index}
use flx.Negotiators.Socks4.Packet.{owned_request}
use flx.Negotiators.Socks4.Handshake.{
  read_answer, check_response, connect_to, negotiate_with_auth, user_of,
}
use flx.Negotiators.Socks4.Request.{build-owned_request}
use flx.Negotiators.Wire.{
  context_calm, no_host, no_port, Wire, Answer, gave, is_panic, Uri, target_port,
}
use flx.Proxy.Address.{Ipv4Addr}
use flx.Proxy.Model.{ProxyAuth}

-- The incoming bytes are version 0, code 90 and six more, and then what is left.
pub Granted : Bytes → Bytes → Type 0
Granted incoming left =
    (bytes : Bytes) × ((length bytes ≡ 6) × (incoming ≡ 0 ∷ 90 ∷ (bytes ++ left)))

answer-Granted :
    (w : Wire) (bytes left : Bytes)
    → length bytes ≡ 6
    → w.incoming ≡ 0 ∷ 90 ∷ (bytes ++ left)
    → read_answer w ≡ (gave tt, record w { incoming = left })
unfolding read_answer check_response index
answer-Granted w bytes left h e =
    let long : ltb (length (0 ∷ 90 ∷ (bytes ++ left))) 8 ≡ false =
      ground (arith, length-append bytes left) in
    let behind : drop 6 (bytes ++ left) ≡ left =
      ap (λ n. drop n (bytes ++ left)) (sym h) ∙ drop-append bytes left in
    rw (e, long, behind) refl

Granted-answer :
    (incoming sent : Bytes) (writable : Bool) (w' : Wire)
    → read_answer (record { incoming = incoming; sent = sent; writable = writable }) ≡ (gave tt, w')
    → Granted incoming w'.incoming × (w'.sent ≡ sent) × (w'.writable ≡ writable)
unfolding Granted read_answer check_response index
Granted-answer [] sent writable w' h = absurd (ground arith)
Granted-answer (a ∷ []) sent writable w' h = absurd (ground arith)
Granted-answer (a ∷ b ∷ rest) sent writable w' h =
    let whole = append-take-drop 6 rest in
    let code = ap (λ (o : Answer (Unit {0}) × Wire). o.0) h in
    let left = ap (λ (o : Answer (Unit {0}) × Wire). o.1.incoming) h in
    let sent' = ap (λ (o : Answer (Unit {0}) × Wire). o.1.sent) h in
    let writable' = ap (λ (o : Answer (Unit {0}) × Wire). o.1.writable) h in
    (
      (take 6 rest, (ground (arith, code, length-take 6 rest), ground (arith, code, left, whole))),
      ground (arith, sent'),
      ground (arith, writable'),
    )

calm_at :
    (incoming sent : Bytes) (writable : Bool)
    → is_panic (read_answer (record { incoming = incoming; sent = sent; writable = writable })).0
      ≡ false
unfolding read_answer check_response index
calm_at [] sent writable = ground arith
calm_at (a ∷ []) sent writable = ground arith
calm_at (a ∷ b ∷ rest) sent writable = ground arith

connect_calm :
    (parse : Bytes → Option Ipv4Addr) (host : Bytes) (port : ℕ) (user_id : Bytes) (w : Wire)
    → is_panic (connect_to parse host port user_id w).0 ≡ false
unfolding connect_to
connect_calm parse host port user_id w =
    let packet = build-owned_request parse (replicate 512 0) host port user_id in
    let sent = w.sent ++ owned_request parse host port user_id in
    elim (Bool-cases (ltb 255 (length user_id))) [
      | inl e ↦ rw e refl
      | inr e ↦ elim (Bool-cases w.writable) [
        | inl h ↦ rw (e, packet, h) (calm_at w.incoming sent true)
        | inr h ↦ rw (e, packet, h) refl
      ]
    ]

module _ (parse : Bytes → Option Ipv4Addr) (uri : Uri) (auth : Option ProxyAuth) where
  -- The request goes out, and then the answer decides.
  negotiate_lem :
      (host : Bytes) (port : ℕ) (w : Wire)
      → uri.host ≡ some host
      → target_port uri ≡ some port
      → length (user_of auth) ≤ 255
      → w.writable ≡ true
      → negotiate_with_auth parse uri auth w
        ≡ read_answer (record w { sent = w.sent ++ owned_request parse host port (user_of auth) })
  unfolding negotiate_with_auth connect_to
  negotiate_lem host port w e e' short h =
      let fits : ltb 255 (length (user_of auth)) ≡ false = ground arith in
      let packet = build-owned_request parse (replicate 512 0) host port (user_of auth) in
      rw (e', e, fits, packet, h) refl

  -- For a target with a host and a port and a user name of at most 255 bytes, on a connection that can
  -- be written: the handshake returns `Ok` exactly if the proxy answers with version 0, code 90 and six
  -- more bytes. It has then sent one request, and has read those eight bytes and none behind them.
  pub negotiate-Granted :
      (host : Bytes) (port : ℕ) (w w' : Wire)
      → uri.host ≡ some host
      → target_port uri ≡ some port
      → length (user_of auth) ≤ 255
      → w.writable ≡ true
      → (negotiate_with_auth parse uri auth w ≡ (gave tt, w')) ↔ (
          Granted w.incoming w'.incoming
          × (w'.sent ≡ w.sent ++ owned_request parse host port (user_of auth))
          × (w'.writable ≡ true))
  unfolding Granted
  negotiate-Granted host port w w' e e' short h =
      let went = negotiate_lem host port w e e' short h in
      let sent = w.sent ++ owned_request parse host port (user_of auth) in
      (
        λ ok.
            let (a, b, c) = Granted-answer w.incoming sent w.writable w' (sym went ∙ ok) in
            (a, b, c ∙ h),
        λ (((bytes, (n, at)), b, c) : Granted w.incoming w'.incoming
              × (w'.sent ≡ sent)
              × (w'.writable ≡ true)).
            went
            ∙ answer-Granted (record w { sent = sent }) bytes w'.incoming n at
            ∙ ap₂
                (λ (s : Bytes) (b : Bool).
                  (gave tt, record { incoming = w'.incoming; sent = s; writable = b }))
                (sym b) (h ∙ sym c),
      )

  -- On every connection, target and user name the handshake ends without a panic.
  pub negotiate_calm : (w : Wire) → is_panic (negotiate_with_auth parse uri auth w).0 ≡ false
  unfolding negotiate_with_auth connect_to
  negotiate_calm w = context_calm uri.host no_host _ w (λ host.
      context_calm (target_port uri) no_port _ w
        (λ port. connect_calm parse host port (user_of auth) w))
