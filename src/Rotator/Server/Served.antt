-- ===== src/Rotator/Server/Served.antt =====
-- What a connection leaves behind, whichever way it ends.
use flx.Base.Outcome.{◌>>=◌}
use mathlib.Core.Path.{subst}
use flx.Base.{
  if_false, if_true, inr, inl, Bool-cases, append-nil, any, ◌≤◌, length, sym, ◌∙◌, ap,
  if◌then◌else◌, List_eq, ℕ_eq, refl, none, some, contains, true, ◌++◌, false, arith, [], ◌≡◌,
  Option, ◌∷◌, Bool, ℕ, List,
}
use flx.Proxy.Float.{Float}
use flx.Base.Bytes.{codes, Bytes}
use flx.Rotator.Server.Upstream.{open_upstream, Packages}
use flx.Rotator.Server.Connection.{
  expected_auth, handle_connection, with_request, with_proxy, emit, text_of, reply, ServeEvent,
  as_text, response_no_proxy, response_unauthorized, State, response_bad_request, Outside,
}
use flx.Rotator.Server.Request.{read_request, ClientRequest}
use flx.Proxy.Model.{Proxy}
use flx.Rotator.Pool.{pick, RotatorPool}
use flx.Base.Outcome.{returned}
use flx.Rotator.Pool.Invariant.{IsValid}
use flx.Rotator.Pool.Pick.{pick_lem}
use flx.Rotator.Server.Settled.{
  with_upstream-Ends, reply_kept, Ends, Settled, Completes, Calm, answers,
}

abbrev pub is_completion : ServeEvent → Bool
is_completion (ServeEvent.incoming id method target) = false
is_completion (ServeEvent.completed id method target upstream ok reason) = true

module _ (f : Float) (k : Packages) where
  refuses :
      (o : Outside) (id : ℕ) (s : State f k) (method target body why : Bytes)
      → contains answers body ≡ true
      → IsValid (as_text f k) s.pool
      → Completes f k o id s (
          emit f k
            (ServeEvent.completed id method target none false (some why))
            (reply f k o body s))
  refuses o id s method target body why known v =
      let (p, ev, fw, re) = reply_kept f k o body s in
      record {
        method = method;
        target = target;
        upstream = none;
        ok = false;
        reason = some why;
        event = ap (λ l. l ++ ServeEvent.completed id method target none false (some why) ∷ []) ev;
        reasoned = refl;
        valid = rw p v;
        settled = (
          refl,
          (ap (λ (x : RotatorPool (as_text f k)). x.entries) p, (fw, λ h. (body, (known, re h)))),
        );
      }

  with_proxy-Ends :
      (o : Outside) (id : ℕ) (request : ClientRequest) (picked : Option (Proxy f)) (s : State f k)
      → Calm f k o
      → IsValid (as_text f k) s.pool
      → Ends f k o id s (with_proxy f k o id request picked s)
  unfolding with_proxy
  with_proxy-Ends o id request none s calm v = (
    _,
    (
      refl,
      refuses o id s request.method (text_of f k request) response_no_proxy (codes "no proxy") refl
          v,
    ),
  )
  with_proxy-Ends o id request (some proxy) s calm v =
      with_upstream-Ends f k o id request proxy (open_upstream f k proxy request o.upstream) s
        (calm proxy request) v

  same_entries :
      (pool pool' : RotatorPool (as_text f k))
      → pool'.entries ≡ pool.entries
      → IsValid (as_text f k) pool
      → IsValid (as_text f k) pool'
  same_entries pool pool' e v = record {
    bound = rw e v.bound;
    distinct = rw e v.distinct;
    below = rw e v.below;
  }

  -- The connection is one for the pool before the pick too.
  Settled-before :
      (o : Outside) (ok : Bool) (s s1 s' : State f k) (upstream : Option Bytes)
      → s1.pool.entries ≡ s.pool.entries
      → s1.replied ≡ s.replied
      → s1.forwarded ≡ s.forwarded
      → Settled f k o ok s1 s' upstream
      → Settled f k o ok s s' upstream
  Settled-before o ok s s1 s' none e r w (no_relay, (kept, (fw, re))) = (
    no_relay,
    (
      kept ∙ e,
      (fw ∙ w, λ h. let (body, (known, x)) = re h in (body, (known, x ∙ ap (λ l. l ++ body) r))),
    ),
  )
  Settled-before o ok s s1 s' (some text) e r w (proxy, (t, (pool, (kept, reported)))) =
      (proxy, (t, (pool, (kept ∙ e, reported))))

  -- The events of a connection: perhaps that a request came in, then that it was completed.
  pub record IsServed (o : Outside) (id : ℕ) (s s' : State f k) : Type 0 where
    pub started : List ServeEvent
    pub at_most_one : length started ≤ 1
    pub no_completion : any is_completion started ≡ false
    pub completes : Completes f k o id (record s { events = s.events ++ started }) s'

  authorized-Ends :
      (o : Outside) (id : ℕ) (request : ClientRequest) (s : State f k)
      → Calm f k o
      → IsValid (as_text f k) s.pool
      → Ends f k o id (emit f k (ServeEvent.incoming id request.method (text_of f k request)) s) (
          pick (as_text f k) o.picked_at o.chance s.pool >>= λ picked.
          with_proxy f k o id request picked.0
            (record (emit f k (ServeEvent.incoming id request.method (text_of f k request)) s) {
              pool = picked.1;
            }))
  authorized-Ends o id request s calm v =
      let s1 = emit f k (ServeEvent.incoming id request.method (text_of f k request)) s in
      let (picked, pool, e, same, is_picked) = pick_lem (as_text f k) o.picked_at o.chance s.pool in
      let (s', (e', c)) =
        with_proxy-Ends o id request picked (record s1 { pool = pool }) calm
          (same_entries s.pool pool same v) in
      (
        s',
        (
          rw e e',
          record {
            method = c.method;
            target = c.target;
            upstream = c.upstream;
            ok = c.ok;
            reason = c.reason;
            event = c.event;
            reasoned = c.reasoned;
            valid = c.valid;
            settled =
                Settled-before o c.ok s1 (record s1 { pool = pool }) s' c.upstream same refl refl
                  c.settled;
          },
        ),
      )

  with_request-IsServed :
      (o : Outside) (id : ℕ) (request : Option ClientRequest) (s : State f k)
      → Calm f k o
      → IsValid (as_text f k) s.pool
      → (s' : State f k) × ((with_request f k o id request s ≡ returned s') × IsServed o id s s')
  unfolding with_request
  with_request-IsServed o id none s calm v =
      let s' =
        emit f k
          (ServeEvent.completed id (codes "-") (codes "-") none false (some (codes "bad request")))
          (reply f k o response_bad_request s) in
      (
        s',
        (
          refl,
          record {
            started = [];
            at_most_one = omega arith;
            no_completion = refl;
            completes =
                subst (λ l. Completes f k o id (record s { events = l }) s')
                  (sym (append-nil s.events))
                  (refuses o id s (codes "-") (codes "-") response_bad_request (codes "bad request")
                    refl v);
          },
        ),
      )
  with_request-IsServed o id (some request) s calm v = elim (Bool-cases request.authorized) [
    | inl ok ↦
        let (s', (e, c)) = authorized-Ends o id request s calm v in
        (
          s',
          (
            if_true request.authorized _ _ ok ∙ e,
            record {
              started = ServeEvent.incoming id request.method (text_of f k request) ∷ [];
              at_most_one = omega arith;
              no_completion = refl;
              completes = c;
            },
          ),
        )
    | inr unknown ↦
        let s1 = emit f k (ServeEvent.incoming id request.method (text_of f k request)) s in
        (
          emit f k
              (ServeEvent.completed id request.method (text_of f k request) none false
                (some (codes "auth required")))
              (reply f k o response_unauthorized s1),
          (
            if_false request.authorized _ _ unknown,
            record {
              started = ServeEvent.incoming id request.method (text_of f k request) ∷ [];
              at_most_one = omega arith;
              no_completion = refl;
              completes =
                  refuses o id s1 request.method (text_of f k request) response_unauthorized
                    (codes "auth required") refl v;
            },
          ),
        )
  ]

  -- Whatever the client sends, the upstream answers and the relay does, a connection to a server whose
  -- pool is valid, with handshakes that do not panic, does not panic and leaves the pool valid. It offers
  -- at most one event before it and exactly one completion, as the last event; a reason is given exactly
  -- when it did not go well. If no upstream was picked, the pool keeps its entries, nothing is forwarded,
  -- and the client, if it can be written to, gets one of the answers 400, 407 and 503. Otherwise the pool,
  -- with the entries it had, is told once, of the upstream in the event, whether it went well.
  pub handle_connection-IsServed :
      (o : Outside) (id : ℕ) (auth : Option (Bytes × Bytes)) (s : State f k)
      → Calm f k o
      → IsValid (as_text f k) s.pool
      → (s' : State f k) × ((handle_connection f k o id auth s ≡ returned s') × IsServed o id s s')
  unfolding handle_connection
  handle_connection-IsServed o id auth s calm v =
      with_request-IsServed o id
        (if o.head_late
          then none
          else read_request k.parse_request k.parse_uri o.reads (expected_auth f k auth))
        s calm v
