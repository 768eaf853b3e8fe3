-- ===== src/Negotiators/Socks5/Completed.antt =====
-- The whole SOCKS5 handshake.
use flx.Base.{◌≡◌, ◌↔◌, refl, sym, ap, ◌∙◌, true, ◌++◌, Option, none, some, ℕ, arith}
use flx.Base.Bytes.{Bytes}
use flx.Negotiators.Socks5.Accepted.{
  selected, opening, choose-selected, selected_none, selected_some, Selects,
}
use flx.Negotiators.Socks5.Handshake.{
  Credentials, choose, request, negotiate_with_auth, credentials_of, read_reply,
}
use flx.Negotiators.Socks5.Packet.{Host}
use flx.Negotiators.Socks5.Reply.{IsReply, wire, all_bytes, reply-Replied, Replied-reply}
use flx.Negotiators.Socks5.Request.{IsHost, address, with_port, build-with_port}
use flx.Negotiators.Wire.{Wire, gave, gave-then, Talk, Uri, target_port, ◌>>◌}
use flx.Proxy.Model.{ProxyAuth, socks5_user_pass}

-- The credentials that go into the handshake.
abbrev pub IsLogin : Option ProxyAuth → Credentials → Type 0
IsLogin none none = Unit
IsLogin (some auth) (some c) = socks5_user_pass auth ≡ some c
IsLogin _ _ = ⊥

credentials_lem :
    (auth : Option ProxyAuth) (c : Credentials) (w : Wire)
    → IsLogin auth c
    → credentials_of auth w ≡ (gave c, w)
credentials_lem none none w h = refl
credentials_lem (some auth) (some c) w h = rw h refl
credentials_lem none (some c) w h = absurd h
credentials_lem (some auth) none w h = absurd h

request_lem :
    (parse : Bytes → Host) (uri : Uri) (host : Bytes) (port : ℕ) (packet incoming sent : Bytes)
    → uri.host ≡ some host
    → target_port uri ≡ some port
    → IsHost (parse host)
    → with_port port (address host (parse host)) ≡ some packet
    → request parse uri (wire incoming sent true) ≡ (gave tt, wire incoming (sent ++ packet) true)
unfolding request
request_lem parse uri host port packet incoming sent e e' h at =
    rw (e', e, build-with_port parse host port h, at) refl

all_bytes-selected :
    (c : Credentials) (rest : Bytes) → all_bytes (selected c ++ rest) ≡ true → all_bytes rest ≡ true
all_bytes-selected none rest h = ground arith
all_bytes-selected (some c) rest h = ground arith

selected_lem :
    (c : Credentials) (incoming sent : Bytes) (w' : Wire)
    → choose c (wire incoming sent true) ≡ (gave tt, w')
    → Selects sent w' incoming c
selected_lem none incoming sent w' h = selected_none sent w' incoming h
selected_lem (some c) incoming sent w' h = selected_some sent w' c incoming h

module _ (parse : Bytes → Host) (uri : Uri) (auth : Option ProxyAuth) (c : Credentials)
    (host : Bytes) (port : ℕ) (packet : Bytes) (login : IsLogin auth c)
    (has_host : uri.host ≡ some host) (has_port : target_port uri ≡ some port)
    (is_host : IsHost (parse host))
    (fits : with_port port (address host (parse host)) ≡ some packet) where
  after_credentials :
      (incoming sent : Bytes)
      → negotiate_with_auth parse uri auth (wire incoming sent true)
        ≡ (choose c >> (request parse uri >> read_reply)) (wire incoming sent true)
  unfolding negotiate_with_auth
  after_credentials incoming sent = rw (credentials_lem auth c (wire incoming sent true) login) refl

  after_choose :
      (left sent : Bytes)
      → (request parse uri >> read_reply) (wire left sent true)
        ≡ read_reply (wire left (sent ++ packet) true)
  after_choose left sent =
      rw (request_lem parse uri host port packet left sent has_host has_port is_host fits) refl

  -- The proxy selects the method, accepts the name if one is sent, and replies with success.
  abbrev pub Completes : Bytes → Bytes → Bytes → Wire → Type 0
  Completes incoming sent reply w' =
      IsReply reply
      × (incoming ≡ selected c ++ (reply ++ w'.incoming))
      × (w' ≡ wire w'.incoming (opening c sent ++ packet) true)

  completed :
      (incoming sent : Bytes) (w' : Wire)
      → negotiate_with_auth parse uri auth (wire incoming sent true) ≡ (gave tt, w')
      → (reply : Bytes) × Completes incoming sent reply w'
  completed incoming sent w' ok =
      let next : Talk (Unit {0}) = request parse uri >> read_reply in
      let (_, (w1, (e1, e2))) =
        gave-then (choose c) (λ _. next) (wire incoming sent true) w' tt
          (sym (after_credentials incoming sent) ∙ ok) in
      let (at, same) = selected_lem c incoming sent w1 e1 in
      let e3 = sym (after_choose w1.incoming (opening c sent)) ∙ (ap next (sym same) ∙ e2) in
      let ((reply, (is_reply, e)), same') =
        Replied-reply (opening c sent ++ packet) true w1.incoming w' e3 in
      (reply, (is_reply, at ∙ ap (λ l. selected c ++ l) e, same'))

  completes :
      (incoming sent reply : Bytes) (w' : Wire)
      → all_bytes incoming ≡ true
      → Completes incoming sent reply w'
      → negotiate_with_auth parse uri auth (wire incoming sent true) ≡ (gave tt, w')
  completes incoming sent reply w' h (is_reply, e, same) =
      let rest = reply ++ w'.incoming in
      let next : Talk (Unit {0}) = request parse uri >> read_reply in
      let bytes = all_bytes-selected c rest (sym (ap all_bytes e) ∙ h) in
      let chosen : (choose c >> next) (wire (selected c ++ rest) sent true)
          ≡ next (wire rest (opening c sent) true) =
        rw (choose-selected c rest sent) refl in
      after_credentials incoming sent
      ∙ (ap (λ i. (choose c >> next) (wire i sent true)) e
          ∙ (chosen
              ∙ (after_choose rest (opening c sent)
                  ∙ (reply-Replied (opening c sent ++ packet) true rest w'.incoming bytes
                        (reply, (is_reply, refl))
                      ∙ ap (λ x. (gave tt, x)) (sym same)))))

  -- For a target whose host fits a request and whose port is known, with credentials that are absent or
  -- have 1 to 255 bytes each, on a connection that can be written and on which bytes arrive: the
  -- handshake returns `Ok` exactly if the proxy selects no authentication (with credentials: selects
  -- the user name and accepts it) and then sends a successful reply of RFC 1928. The client has
  -- then sent its greeting, the credentials if any and the request, and has read the reply and
  -- nothing behind it.
  pub negotiate-Completes :
      (incoming sent : Bytes) (w' : Wire)
      → all_bytes incoming ≡ true
      → (negotiate_with_auth parse uri auth (wire incoming sent true) ≡ (gave tt, w'))
        ↔ ((reply : Bytes) × Completes incoming sent reply w')
  negotiate-Completes incoming sent w' h = (
    completed incoming sent w',
    λ ((reply, done) : (reply : Bytes) × Completes incoming sent reply w').
        completes incoming sent reply w' h done,
  )
