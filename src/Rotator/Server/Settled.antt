-- ===== src/Rotator/Server/Settled.antt =====
-- What a connection leaves behind once a request has been read, up to its last event.
use flx.Base.{
  sym, ◌∙◌, ap, if◌then◌else◌, List_eq, ℕ_eq, refl, none, some, not, is_some, contains, true, ◌++◌,
  false, arith, [], ◌≡◌, Option, ◌∷◌, Bool, ℕ, List,
}
use flx.Proxy.Float.{Float}
use flx.Base.Bytes.{codes, Bytes}
use flx.Rotator.Server.Upstream.{open_upstream, Packages}
use flx.Rotator.Server.Connection.{
  emit, relayed, text_of, response_bad_gateway, reason_of, reply, with_upstream, ServeEvent, report,
  as_text, response_no_proxy, response_unauthorized, State, send, response_bad_request, Outside,
}
use flx.Rotator.Server.Request.{ClientRequest}
use flx.Proxy.Model.{Proxy}
use flx.Negotiators.Wire.{Answer, is_panic, Wire}
use flx.Rotator.Pool.{report_success, RotatorPool}
use flx.Base.Outcome.{returned, Outcome}
use flx.Rotator.Pool.Invariant.{methods-IsValid, IsValid}

abbrev pub answers : List Bytes
answers = response_bad_request ∷ response_unauthorized ∷ response_no_proxy ∷ []

module _ (f : Float) (k : Packages) where
  -- A connection for which no upstream was picked: the client gets one of the refusals, and nothing else
  -- changes. Else the pool has been told of the picked proxy how it went.
  abbrev pub Settled : Outside → Bool → State f k → State f k → Option Bytes → Type 0
  Settled o ok s s' none =
      (ok ≡ false)
      × ((s'.pool.entries ≡ s.pool.entries)
          × ((s'.forwarded ≡ s.forwarded)
              × (o.writable ≡ true
                  → (body : Bytes) × ((contains answers body ≡ true)
                      × (s'.replied ≡ s.replied ++ body)))))
  Settled o ok s s' (some text) =
      (proxy : Proxy f) × ((as_text f k proxy ≡ text)
        × ((pool : RotatorPool (as_text f k)) × ((pool.entries ≡ s.pool.entries)
              × (report f k o.reported_at ok proxy pool ≡ returned s'.pool))))

  pub record Completes (o : Outside) (id : ℕ) (s s' : State f k) : Type 0 where
    pub method : Bytes
    pub target : Bytes
    pub upstream : Option Bytes
    pub ok : Bool
    pub reason : Option Bytes
    pub event :
        s'.events ≡ s.events ++ ServeEvent.completed id method target upstream ok reason ∷ []
    pub reasoned : is_some reason ≡ not ok
    pub valid : IsValid (as_text f k) s'.pool
    pub settled : Settled o ok s s' upstream

  abbrev pub Calm : Outside → Type 0
  Calm o =
      (proxy : Proxy f) (request : ClientRequest)
      → is_panic (open_upstream f k proxy request o.upstream).0 ≡ false

  abbrev pub Ends : Outside → ℕ → State f k → Outcome (State f k) → Type 0
  Ends o id s r = (s' : State f k) × ((r ≡ returned s') × Completes o id s s')

  report_total :
      (now : ℕ) (ok : Bool) (proxy : Proxy f) (pool : RotatorPool (as_text f k))
      → IsValid (as_text f k) pool
      → (pool' : RotatorPool (as_text f k)) × ((report f k now ok proxy pool ≡ returned pool')
          × IsValid (as_text f k) pool')
  report_total now true proxy pool v = (
    report_success (as_text f k) proxy pool,
    (refl, (methods-IsValid (as_text f k) now proxy pool v).1),
  )
  report_total now false proxy pool v =
      let (pool', e, v') = (methods-IsValid (as_text f k) now proxy pool v).2 in (pool', (e, v'))

  send_pool :
      (o : Outside) (request : ClientRequest) (w : Wire) (s : State f k)
      → ((send f k o request w s).1.pool ≡ s.pool) × ((send f k o request w s).1.events ≡ s.events)
  unfolding send
  send_pool o request w s = (ground arith, ground arith)

  reason_lem : (ok : Bool) → is_some (reason_of f k ok) ≡ not ok
  reason_lem true = refl
  reason_lem false = refl

  -- A reply changes what the client was sent alone.
  pub reply_kept :
      (o : Outside) (body : Bytes) (s : State f k)
      → ((reply f k o body s).pool ≡ s.pool)
        × ((reply f k o body s).events ≡ s.events)
        × ((reply f k o body s).forwarded ≡ s.forwarded)
        × (o.writable ≡ true → (reply f k o body s).replied ≡ s.replied ++ body)
  reply_kept o body s = (ground arith, ground arith, ground arith, λ h. ground (arith, h))

  pub with_upstream-Ends :
      (o : Outside) (id : ℕ) (request : ClientRequest) (proxy : Proxy f)
      (opened : Answer (Unit {0}) × Wire) (s : State f k)
      → is_panic opened.0 ≡ false
      → IsValid (as_text f k) s.pool
      → Ends o id s (with_upstream f k o id request proxy opened s)
  unfolding with_upstream
  with_upstream-Ends o id request proxy (Answer.panicked, w) s calm v =
      absurd (ground (arith, calm))
  with_upstream-Ends o id request proxy (Answer.bailed e, w) s calm v =
      let (pool, t, valid) = (methods-IsValid (as_text f k) o.reported_at proxy s.pool v).2 in
      let body = if request.tunnel then response_bad_gateway else response_no_proxy in
      let reason = if request.tunnel then codes "bad gateway" else codes "no proxy" in
      let (p, ev, fw, re) = reply_kept o body (record s { pool = pool }) in
      (
        emit f k
            (ServeEvent.completed id request.method (text_of f k request) (some (as_text f k proxy))
              false (some reason))
            (reply f k o body (record s { pool = pool })),
        (
          rw t refl,
          record {
            method = request.method;
            target = text_of f k request;
            upstream = some (as_text f k proxy);
            ok = false;
            reason = some reason;
            event =
                ap
                  (λ l.
                    l
                    ++ ServeEvent.completed id request.method (text_of f k request)
                        (some (as_text f k proxy)) false (some reason)
                      ∷ [])
                  ev;
            reasoned = refl;
            valid = rw p valid;
            settled = (proxy, (refl, (s.pool, (refl, t ∙ ap returned (sym p)))));
          },
        ),
      )
  with_upstream-Ends o id request proxy (Answer.gave u, w) s calm v =
      let sent = send f k o request w s in
      let (same_pool, same_events) = send_pool o request w s in
      let ok = relayed f k sent.0 o.relay in
      let (pool, (t, valid)) = report_total o.reported_at ok proxy sent.1.pool (rw same_pool v) in
      (
        emit f k
            (ServeEvent.completed id request.method (text_of f k request) (some (as_text f k proxy))
              ok (reason_of f k ok))
            (record sent.1 { pool = pool }),
        (
          rw t refl,
          record {
            method = request.method;
            target = text_of f k request;
            upstream = some (as_text f k proxy);
            ok = ok;
            reason = reason_of f k ok;
            event =
                ap
                  (λ l.
                    l
                    ++ ServeEvent.completed id request.method (text_of f k request)
                        (some (as_text f k proxy)) ok (reason_of f k ok)
                      ∷ [])
                  same_events;
            reasoned = reason_lem ok;
            valid = valid;
            settled = (
              proxy,
              (
                refl,
                (sent.1.pool, (ap (λ (p : RotatorPool (as_text f k)). p.entries) same_pool, t)),
              ),
            );
          },
        ),
      )
