-- ===== src/Validator/Judgement/EarlyExit.antt =====
-- Stopping early does not change what an answer says.
use flx.Validator.Judgement.{
  raw_head, until_from, verdict_of, to_raw_response_early_exit, of_frames, to_raw_response, verdict,
  referer_marker, cookie_marker, Verdict, max_judge_body_bytes, Frame, classify_anonymity, Wanted,
  read_until, checked, should_stop, read_bounded_body,
}
use flx.Validator.Work.{contains_text, starts_with}
use flx.Base.Bytes.{Bytes}
use flx.Base.{
  Option-cases, none, Option, inr, inl, Bool-cases, length-append, false, ◌+◌, ◌-◌, ltb,
  append_assoc, ap, append-nil, ◌∙◌, length, refl, sym, ◌∷◌, ◌++◌, List, arith, true, some, ℕ, [],
  ◌≡◌,
}
use flx.Proxy.Protocol.{transparent}

same_some : (a b : Bytes) → some a ≡ some b → a ≡ b
same_some a b h = ground (arith, h)

starts_with_nil : (text : Bytes) → starts_with text [] ≡ true
unfolding starts_with
starts_with_nil [] = refl
starts_with_nil (c ∷ text) = refl

starts_contains :
    (text needle : Bytes) → starts_with text needle ≡ true → contains_text text needle ≡ true
unfolding contains_text
starts_contains [] needle h = h
starts_contains (c ∷ text) needle h = ground (arith, h)

starts_with-append :
    (text more needle : Bytes)
    → starts_with text needle ≡ true
    → starts_with (text ++ more) needle ≡ true
unfolding starts_with
starts_with-append [] more [] h = starts_with_nil more
starts_with-append [] more (b ∷ needle) h = absurd (ground (arith, h))
starts_with-append (c ∷ text) more [] h = refl
starts_with-append (c ∷ text) more (b ∷ needle) h =
    ground (arith, h, starts_with-append text more needle)

pub contains_text-append :
    (text more needle : Bytes)
    → contains_text text needle ≡ true
    → contains_text (text ++ more) needle ≡ true
unfolding contains_text
contains_text-append [] more needle h =
    starts_contains more needle (starts_with-append [] more needle h)
contains_text-append (c ∷ text) more needle h =
    ground
      (arith, h, starts_with-append (c ∷ text) more needle, contains_text-append text more needle)

-- What stops the read is still there in a longer text.
checked_stop :
    (w : Wanted) (text more : Bytes)
    → should_stop w text ≡ true
    → checked w (text ++ more) (λ body. classify_anonymity body w.my_ip) ≡ Verdict.level transparent
unfolding should_stop checked classify_anonymity
checked_stop w text more h = ground (
  arith,
  h,
  contains_text-append text more w.token_marker,
  contains_text-append text more cookie_marker,
  contains_text-append text more referer_marker,
  contains_text-append text more w.my_ip,
)

more_lem :
    (limit : ℕ) (frames : List Frame) (collected full : Bytes)
    → read_bounded_body limit collected frames ≡ some full
    → (more : Bytes) × (full ≡ collected ++ more)
unfolding read_bounded_body
more_lem limit [] collected full h =
    ([], same_some full collected (sym h) ∙ sym (append-nil collected))
more_lem limit (Frame.failed ∷ frames) collected full h = absurd (ground (arith, h))
more_lem limit (Frame.chunk d ∷ frames) collected full h =
    let (more, e) = more_lem limit frames (collected ++ d) full (ground (arith, h)) in
    (d ++ more, e ∙ append_assoc collected d more)

read_until_lem :
    (w : Wanted) (head : Bytes) (frames : List Frame) (collected full : Bytes)
    → read_bounded_body max_judge_body_bytes collected frames ≡ some full
    → (content : Bytes) × ((read_until w (length head) (head ++ collected) frames ≡ some content)
        × (checked w content (λ body. classify_anonymity body w.my_ip)
            ≡ checked w (head ++ full) (λ body. classify_anonymity body w.my_ip)))
unfolding read_bounded_body read_until
read_until_lem w head [] collected full h = (
  head ++ collected,
  (
    refl,
    ap (λ l. checked w (head ++ l) (λ body. classify_anonymity body w.my_ip))
        (same_some collected full h),
  ),
)
read_until_lem w head (Frame.failed ∷ frames) collected full h = absurd (ground (arith, h))
read_until_lem w head (Frame.chunk d ∷ frames) collected full h =
    let text = head ++ (collected ++ d) in
    let assoc : (head ++ collected) ++ d ≡ text = append_assoc head collected d in
    let small : ltb max_judge_body_bytes (length (head ++ collected) - length head + length d)
        ≡ false =
      ground (arith, h, length-append head collected) in
    let rest : read_bounded_body max_judge_body_bytes (collected ++ d) frames ≡ some full =
      ground (arith, h) in
    elim (Bool-cases (should_stop w text)) [
      | inl stop ↦
          let (more, e) = more_lem max_judge_body_bytes frames (collected ++ d) full rest in
          (
            text,
            (
              rw (small, assoc, stop) refl,
              ap (λ l. checked w l (λ body. classify_anonymity body w.my_ip))
                    (sym (append-nil text))
                  ∙ (checked_stop w text [] stop
                      ∙ (sym (checked_stop w text more stop)
                          ∙ ap (λ l. checked w l (λ body. classify_anonymity body w.my_ip))
                              (append_assoc head (collected ++ d) more
                                ∙ ap (λ l. head ++ l) (sym e)))),
            ),
          )
      | inr on ↦
          let (content, (e, same)) = read_until_lem w head frames (collected ++ d) full rest in
          (content, (rw (small, assoc, on) e, same))
    ]

early_of :
    (w : Wanted) (head : Option Bytes) (frames : List Frame) (full : Bytes)
    → of_frames frames head ≡ some full
    → verdict_of w (λ body. classify_anonymity body w.my_ip) (until_from w frames head)
      ≡ verdict_of w (λ body. classify_anonymity body w.my_ip) (of_frames frames head)
unfolding read_until read_bounded_body
early_of w none frames full h = absurd (ground (arith, h))
early_of w (some head) frames full h =
    elim (Option-cases (read_bounded_body max_judge_body_bytes [] frames)) [
      | inl long ↦ absurd (ground (arith, h, long))
      | inr (body, e) ↦
          let (content, (stopped, same)) = read_until_lem w head frames [] body e in
          let stopped' : read_until w (length head) head frames ≡ some content =
            ap (λ l. read_until w (length head) l frames) (sym (append-nil head)) ∙ stopped in
          rw (stopped', e) same
    ]

-- Where the whole answer of a judge can be read, the read that stops as soon as everything looked for and
-- the address of this machine have been seen gives the verdict that reading the whole and looking the
-- address up afterwards gives: the same refusal, or the same anonymity level.
pub verdict_early :
    (w : Wanted) (ip : Bytes) (looked_up : Option Bytes) (headers : List (Bytes × Option Bytes))
    (frames : List Frame) (full : Bytes)
    → to_raw_response headers frames ≡ some full
    → verdict w (some ip) looked_up headers frames ≡ verdict w none (some ip) headers frames
unfolding verdict to_raw_response to_raw_response_early_exit checked
verdict_early w ip looked_up headers frames full h =
    early_of (record w { my_ip = ip }) (raw_head headers) frames full h
