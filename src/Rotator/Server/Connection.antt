-- ===== src/Rotator/Server/Connection.antt =====
-- `handle_connection` of src/rotator/server.rs. Of an event, the address of the client and the times are
-- left out, and the trace lines are.
use flx.Base.Outcome.{◌>>=◌}
use flx.Base.Bytes.{codes, Bytes}
use flx.Base.{none, false, [], true, some, ◌&&◌, if◌then◌else◌, Option, Bool, ◌∷◌, ◌++◌, ℕ, List}
use flx.Proxy.Float.{Float}
use flx.Rotator.Server.Upstream.{Upstream, open_upstream, Packages}
use flx.Rotator.Server.Head.{Read}
use flx.Rotator.Pool.{pick, report_failure, report_success, RotatorPool}
use flx.Proxy.Model.{Proxy}
use flx.Negotiators.Https.{line_end}
use flx.Proxy.Text.{decimal}
use flx.Negotiators.Wire.{Answer, Wire}
use flx.Rotator.Server.Request.{ClientRequest, read_request}
use flx.Base.Outcome.{returned, panicked, Outcome}

abbrev crlf : Bytes → Bytes
crlf line = line ++ line_end

abbrev refusal : Bytes → Bytes
refusal status =
    crlf status
    ++ (crlf (codes "Content-Length: 0") ++ (crlf (codes "Connection: close") ++ line_end))

abbrev pub response_established : Bytes
response_established = crlf (codes "HTTP/1.1 200 Connection established") ++ line_end

abbrev pub response_bad_request : Bytes
response_bad_request = refusal (codes "HTTP/1.1 400 Bad Request")

abbrev pub response_no_proxy : Bytes
response_no_proxy = refusal (codes "HTTP/1.1 503 Service Unavailable")

abbrev pub response_bad_gateway : Bytes
response_bad_gateway = refusal (codes "HTTP/1.1 502 Bad Gateway")

abbrev pub response_unauthorized : Bytes
response_unauthorized =
    crlf (codes "HTTP/1.1 407 Proxy Authentication Required")
    ++ refusal (codes "Proxy-Authenticate: Basic realm=\"flx\"")

pub data ServeEvent : Type 0 where
  -- The number of the connection, the method and the target.
  incoming : ℕ → Bytes → Bytes → ServeEvent
  -- Besides those, the upstream, whether it went well, and the reason if not.
  completed : ℕ → Bytes → Bytes → Option Bytes → Bool → Option Bytes → ServeEvent

-- How the two-way copy ends: both sides closed, an error, or the deadline.
pub data Relay : Type 0 where
  finished broke late : Relay

-- What happens around a connection: the client's reads, whether its head is late, whether writes to it
-- succeed, the upstream as it answers, the relay, and the clock and the draw for the pool.
pub record Outside : Type 0 where
  pub reads : List Read
  pub head_late : Bool
  pub writable : Bool
  pub upstream : Upstream
  pub relay : Relay
  pub chance : ℕ
  pub picked_at : ℕ
  pub reported_at : ℕ

module _ (f : Float) (k : Packages) where
  abbrev pub as_text : Proxy f → Bytes
  as_text proxy = proxy.text

  abbrev pub Pool : Type 0
  Pool = RotatorPool as_text

  -- The pool, what the client has been sent by the server, the bytes sent to the upstream after the
  -- handshake, and the events offered to the channel.
  pub record State : Type 0 where
    pub pool : Pool
    pub replied : Bytes
    pub forwarded : Bytes
    pub events : List ServeEvent

  abbrev pub emit : ServeEvent → State → State
  emit event s = record s { events = s.events ++ event ∷ [] }

  abbrev pub reply : Outside → Bytes → State → State
  reply o body s = if o.writable then record s { replied = s.replied ++ body } else s

  abbrev pub text_of : ClientRequest → Bytes
  text_of request = request.host ++ (codes ":" ++ decimal 5 request.port)

  -- A write that fails is one of which nothing arrived.
  -- The bytes of the request, or what the client sent after the head of a CONNECT; whether it was sent.
  abbrev pub forward : Bytes → Wire → State → Bool × State
  forward body w s =
      if w.writable then (true, record s { forwarded = s.forwarded ++ body }) else (false, s)

  abbrev is_empty : Bytes → Bool
  is_empty [] = true
  is_empty (b ∷ body) = false

  unfoldable pub send : Outside → ClientRequest → Wire → State → Bool × State
  send o request w s =
      if request.tunnel
      then (let s' = reply o response_established s in
          if is_empty request.forward
          then (o.writable, s')
          else (let sent = forward request.forward w s' in (o.writable && sent.0, sent.1)))
      else forward request.forward w s

  abbrev pub relayed : Bool → Relay → Bool
  relayed false relay = false
  relayed true Relay.finished = true
  relayed true Relay.broke = true
  relayed true Relay.late = false

  abbrev pub report : ℕ → Bool → Proxy f → Pool → Outcome Pool
  report now true proxy pool = returned (report_success as_text proxy pool)
  report now false proxy pool = report_failure as_text now proxy pool

  abbrev pub reason_of : Bool → Option Bytes
  reason_of true = none
  reason_of false = some (codes "relay failed")

  -- After `open_upstream`.
  unfoldable pub with_upstream :
      Outside → ℕ → ClientRequest → Proxy f → Answer (Unit {0}) × Wire → State → Outcome State
  unfolding send
  with_upstream o id request proxy (Answer.panicked, w) s = panicked
  with_upstream o id request proxy (Answer.bailed e, w) s = do
    pool ← report_failure as_text o.reported_at proxy s.pool
    let body = if request.tunnel then response_bad_gateway else response_no_proxy
    let reason = if request.tunnel then codes "bad gateway" else codes "no proxy"
    returned (
        emit
          (ServeEvent.completed id request.method (text_of request) (some (as_text proxy)) false
            (some reason))
          (reply o body (record s { pool = pool })))
  with_upstream o id request proxy (Answer.gave u, w) s = do
    let sent = send o request w s
    let ok = relayed sent.0 o.relay
    pool ← report o.reported_at ok proxy sent.1.pool
    returned (
        emit
          (ServeEvent.completed id request.method (text_of request) (some (as_text proxy)) ok
            (reason_of ok))
          (record sent.1 { pool = pool }))

  unfoldable pub with_proxy : Outside → ℕ → ClientRequest → Option (Proxy f) → State → Outcome State
  unfolding with_upstream open_upstream
  with_proxy o id request none s = returned (
      emit
        (ServeEvent.completed id request.method (text_of request) none false
          (some (codes "no proxy")))
        (reply o response_no_proxy s))
  with_proxy o id request (some proxy) s =
      with_upstream o id request proxy (open_upstream f k proxy request o.upstream) s

  unfoldable pub with_request : Outside → ℕ → Option ClientRequest → State → Outcome State
  unfolding with_proxy decimal
  with_request o id none s = returned (
      emit (ServeEvent.completed id (codes "-") (codes "-") none false (some (codes "bad request")))
        (reply o response_bad_request s))
  with_request o id (some request) s =
      let s' = emit (ServeEvent.incoming id request.method (text_of request)) s in
      if request.authorized
      then (do
        picked ← pick as_text o.picked_at o.chance s'.pool
        with_proxy o id request picked.0 (record s' { pool = picked.1 }))
      else returned (
          emit
            (ServeEvent.completed id request.method (text_of request) none false
              (some (codes "auth required")))
            (reply o response_unauthorized s'))

  -- The value of the header that is asked for, of the user name and the password.
  abbrev pub expected_auth : Option (Bytes × Bytes) → Option Bytes
  expected_auth none = none
  expected_auth (some (user, pass)) =
      some (codes "Basic " ++ k.encode (user ++ (codes ":" ++ pass)))

  unfoldable pub handle_connection : Outside → ℕ → Option (Bytes × Bytes) → State → Outcome State
  unfolding with_request read_request
  handle_connection o id auth s =
      with_request o id
        (if o.head_late
          then none
          else read_request k.parse_request k.parse_uri o.reads (expected_auth auth))
        s
