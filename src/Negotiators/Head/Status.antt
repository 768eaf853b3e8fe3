-- ===== src/Negotiators/Head/Status.antt =====
-- The answer to a CONNECT request: its head, parsed by `httparse`, and the status that is wanted.
-- What `httparse::Response::parse` says: an error, not yet complete, or the code.
use flx.Base.Bytes.{Bytes}
use flx.Base.{
  refl, ◌∙◌, sym, leb, true, Bool, Option-cases, ◌↔◌, inr, inl, Bool-cases, ◌+◌, take, drop, ap,
  nat_eq, arith, ◌≤◌, none, false, if◌then◌else◌, some, ◌≡◌, [], ℕ, Option,
}
use flx.Negotiators.Wire.{
  Failure, rejected, Answer, give, gave, io, bailed, malformed, bail, Wire, Talk,
}
use flx.Negotiators.Head.{proxy_response_limit, find_head_end, Response, read_response}
use flx.Negotiators.Head.Stops.{cut, read_response_lem, is_response}

pub data ParsedHead : Type 0 where
  wrong partial : ParsedHead
  complete : Option ℕ → ParsedHead

abbrev pub code_of : Option ℕ → ℕ
code_of none = 0
code_of (some code) = code

abbrev code_status : Bool → Talk (Unit {0})
code_status true = give tt
code_status false = bail rejected

abbrev pub check_status : ParsedHead → Talk (Unit {0})
check_status wrong = bail malformed
check_status partial = bail malformed
check_status (complete code) = code_status (nat_eq (code_of code) 200)

module _ (parse : Bytes → ParsedHead) where
  abbrev pub answered : Response → Talk (Unit {0})
  answered Response.closed w = (bailed io, record w { incoming = [] })
  answered Response.too_long w =
      (bailed Failure.too_long, record w { incoming = drop (proxy_response_limit + 1) w.incoming })
  answered (Response.response read left) w =
      check_status (parse read) (record w { incoming = left })

  unfoldable pub read_status : Talk (Unit {0})
  unfolding read_response
  read_status w = answered (read_response [] w.incoming) w

  -- A complete head within the limit, with status 200, and what follows it.
  pub record IsAccepted (w w' : Wire) : Type 0 where
    pub end : ℕ
    pub blank : find_head_end w.incoming ≡ some end
    pub within : end ≤ proxy_response_limit
    pub status : parse (take end w.incoming) ≡ complete (some 200)
    pub rest : w' ≡ record w { incoming = drop end w.incoming }

  not_answered :
      (r : Response) (w w' : Wire) → is_response r ≡ false → ¬ (answered r w ≡ (gave tt, w'))
  not_answered Response.closed w w' h e =
      ground (arith, ap (λ (o : Answer (Unit {0}) × Wire). o.0) e)
  not_answered Response.too_long w w' h e =
      ground (arith, ap (λ (o : Answer (Unit {0}) × Wire). o.0) e)
  not_answered (Response.response read left) w w' h e = ground (arith, h)

  checked_code :
      (ok : Bool) (w w' : Wire) → code_status ok w ≡ (gave tt, w') → (ok ≡ true) × (w' ≡ w)
  checked_code true w w' e = (refl, sym (ap (λ (o : Answer (Unit {0}) × Wire). o.1) e))
  checked_code false w w' e = absurd (ground (arith, ap (λ (o : Answer (Unit {0}) × Wire). o.0) e))

  checked_status :
      (p : ParsedHead) (w w' : Wire)
      → check_status p w ≡ (gave tt, w')
      → (p ≡ complete (some 200)) × (w' ≡ w)
  checked_status wrong w w' e =
      absurd (ground (arith, ap (λ (o : Answer (Unit {0}) × Wire). o.0) e))
  checked_status partial w w' e =
      absurd (ground (arith, ap (λ (o : Answer (Unit {0}) × Wire). o.0) e))
  checked_status (complete none) w w' e =
      absurd (ground (arith, ap (λ (o : Answer (Unit {0}) × Wire). o.0) e))
  checked_status (complete (some code)) w w' e =
      let (ok, same) = checked_code (nat_eq code 200) w w' e in
      (ap (λ n. complete (some n)) (ground (arith, ok)), same)

  accepted :
      (w w' : Wire) → answered (read_response [] w.incoming) w ≡ (gave tt, w') → IsAccepted w w'
  accepted w w' e = elim (Option-cases (find_head_end w.incoming)) [
    | inl missing ↦ absurd (
        not_answered (read_response [] w.incoming) w w' ((read_response_lem w.incoming).1 missing)
          e)
    | inr (end, here) ↦
        let r = (read_response_lem w.incoming).0 end here in
        let e' : answered (cut end w.incoming) w ≡ (gave tt, w') =
          ap (λ x. answered x w) (sym r) ∙ e in
        elim (Bool-cases (leb end proxy_response_limit)) [
          | inl short ↦
              let e2 : check_status (parse (take end w.incoming))
                    (record w { incoming = drop end w.incoming })
                  ≡ (gave tt, w') =
                ap
                  (λ b.
                    answered
                      (if b
                        then Response.response (take end w.incoming) (drop end w.incoming)
                        else Response.too_long)
                      w)
                  (sym short)
                ∙ e' in
              let (p, same) =
                checked_status (parse (take end w.incoming))
                  (record w { incoming = drop end w.incoming }) w' e2 in
              record {
                end = end;
                blank = here;
                within = ground (arith, short);
                status = p;
                rest = same;
              }
          | inr long ↦ absurd (
              not_answered Response.too_long w w' refl (
                ap
                  (λ b.
                    answered
                      (if b
                        then Response.response (take end w.incoming) (drop end w.incoming)
                        else Response.too_long)
                      w)
                  (sym long)
                ∙ e'))
        ]
  ]

  accepts :
      (w w' : Wire) → IsAccepted w w' → answered (read_response [] w.incoming) w ≡ (gave tt, w')
  accepts w w' a =
      let r = (read_response_lem w.incoming).0 a.end a.blank in
      let short : leb a.end proxy_response_limit ≡ true = ground (arith, a.within) in
      rw (r, short, a.status) (ap (λ x. (gave tt, x)) (sym a.rest))

  -- The handshake goes through exactly with an accepted head, and takes that head alone.
  pub read_status-IsAccepted : (w w' : Wire) → (read_status w ≡ (gave tt, w')) ↔ IsAccepted w w'
  unfolding read_status
  read_status-IsAccepted w w' = (accepted w w', accepts w w')
