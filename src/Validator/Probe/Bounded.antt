-- ===== src/Validator/Probe/Bounded.antt =====
-- Both loops, whatever the tries give.
use native.Mathlib.Nat.{mod-lt}
use flx.Base.Outcome.{index-of_lt, returned, Outcome}
use flx.Validator.Probe.{
  tunnel_reaction, http_reaction, total_attempts, is_over, fresh, then_outcome, then_loop, Ask,
  Reach, Probing, support_tunnel, tunnel_try, support_http, http_try, Loop, http_attempts,
  tunnel_offsets, http_targets,
}
use flx.Base.{
  ◌%◌, zero, ◌+◌, suc, ◌*◌, ℕ_eq, List_eq, arith, inr, inl, [], refl, length, contains, ◌<◌, none,
  Bool-cases, ◌∷◌, List, ℕ, Option, ◌≡◌,
}
use flx.Proxy.Protocol.{Protocol}
use flx.Base.Bytes.{Bytes}
use flx.Validator.Probe.Reports.{
  ended_lem, react-IsLoop, then_loop-IsLoop, fresh-IsProbing, IsProbing, IsProbed, IsLoop,
}

http_try-IsLoop :
    (ask : ℕ → Bytes → Ask) (attempt : ℕ) (url : Bytes) (s : Probing)
    → IsProbing s
    → IsLoop (http_try ask attempt url s)
unfolding http_try
http_try-IsLoop ask attempt url s h = elim (Bool-cases (contains s.cooling_down url)) [
  | inl cooling ↦ rw cooling h
  | inr cool ↦ rw cool (react-IsLoop url (http_reaction (ask attempt url)) s cool h)
]

http_targets-IsLoop :
    (ask : ℕ → Bytes → Ask) (attempt : ℕ) (urls : List Bytes) (s : Probing)
    → IsProbing s
    → IsLoop (http_targets ask attempt urls s)
unfolding http_targets
http_targets-IsLoop ask attempt [] s h = h
http_targets-IsLoop ask attempt (url ∷ urls) s h =
    then_loop-IsLoop (http_try ask attempt url s) (http_targets ask attempt urls)
      (http_try-IsLoop ask attempt url s h) (http_targets-IsLoop ask attempt urls)

abbrev pub Ends : Loop → Type 0
Ends l =
    (result : Option Protocol) × ((s : Probing) × ((l ≡ Loop.ended result s) × IsProbed result s))

then_loop-Ends :
    (l : Loop) (k : Probing → Loop)
    → IsLoop l
    → ((s : Probing) → IsProbing s → Ends (k s))
    → Ends (then_loop l k)
then_loop-Ends (Loop.going s) k h g = g s h
then_loop-Ends (Loop.ended result s) k h g = (result, (s, (refl, h)))

http_attempts-Ends :
    (ask : ℕ → Bytes → Ask) (urls : List Bytes) (left attempt : ℕ) (s : Probing)
    → IsProbing s
    → Ends (http_attempts ask urls left attempt s)
unfolding http_attempts
http_attempts-Ends ask urls zero attempt s h = (none, (s, (refl, ended_lem s h)))
http_attempts-Ends ask urls (suc left) attempt s h =
    then_loop-Ends (http_targets ask attempt urls s) (http_attempts ask urls left (attempt + 1))
      (http_targets-IsLoop ask attempt urls s h) (http_attempts-Ends ask urls left (attempt + 1))

tunnel_try-IsLoop :
    (protocol : Protocol) (reach : Reach) (url : Bytes) (s : Probing)
    → IsProbing s
    → IsLoop (tunnel_try protocol reach url s)
unfolding tunnel_try
tunnel_try-IsLoop protocol reach url s h = elim (Bool-cases (is_over reach)) [
  | inl over ↦ rw over (ended_lem s h)
  | inr time ↦ rw time (elim (Bool-cases (contains s.cooling_down url)) [
    | inl cooling ↦ rw cooling h
    | inr cool ↦ rw cool (react-IsLoop url (tunnel_reaction protocol reach) s cool h)
  ])
]

abbrev pub EndsWell : Outcome Loop → Type 0
EndsWell o = (l : Loop) × ((o ≡ returned l) × Ends l)

then_outcome-EndsWell :
    (l : Loop) (k : Probing → Outcome Loop)
    → IsLoop l
    → ((s : Probing) → IsProbing s → EndsWell (k s))
    → EndsWell (then_outcome l k)
then_outcome-EndsWell (Loop.going s) k h g = g s h
then_outcome-EndsWell (Loop.ended result s) k h g =
    (Loop.ended result s, (refl, (result, (s, (refl, h)))))

tunnel_offsets-EndsWell :
    (reach : ℕ → Bytes → Reach) (protocol : Protocol) (urls : List Bytes) (left offset : ℕ)
    (s : Probing)
    → 0 < length urls
    → IsProbing s
    → EndsWell (tunnel_offsets reach protocol urls left offset s)
unfolding tunnel_offsets
tunnel_offsets-EndsWell reach protocol urls zero offset s some_url h =
    (Loop.ended none s, (refl, (none, (s, (refl, ended_lem s h)))))
tunnel_offsets-EndsWell reach protocol urls (suc left) offset s some_url h =
    let (url, e) = index-of_lt urls (offset % length urls) (mod-lt offset some_url) in
    rw e (
      then_outcome-EndsWell (tunnel_try protocol (reach offset url) url s)
        (tunnel_offsets reach protocol urls left (offset + 1))
        (tunnel_try-IsLoop protocol (reach offset url) url s h)
        (λ t g. tunnel_offsets-EndsWell reach protocol urls left (offset + 1) t some_url g))

no_attempts : (n : ℕ) → total_attempts n 0 ≡ 0
no_attempts n = let z : n * 0 ≡ 0 = omega arith in rw z refl

-- Both probes come to an end, without a panic, for every list of judges, every number of attempts and
-- whatever the tries give. The pool is told of one success if the probe has a result and of none
-- otherwise, and of at most one failure of each judge, since a judge that has failed is not asked again
-- in a later attempt.
pub probes-Ends :
    (ask : ℕ → Bytes → Ask) (reach : ℕ → Bytes → Reach) (protocol : Protocol) (urls : List Bytes)
    (max_attempts : ℕ)
    → Ends (support_http ask urls max_attempts)
      × EndsWell (support_tunnel reach protocol urls max_attempts)
unfolding support_http support_tunnel
probes-Ends ask reach protocol [] max_attempts = (
  http_attempts-Ends ask [] max_attempts 0 fresh fresh-IsProbing,
  let none_left : total_attempts max_attempts 0 ≡ 0 = no_attempts max_attempts in
      rw none_left
        (Loop.ended none fresh, (refl, (none, (fresh, (refl, ended_lem fresh fresh-IsProbing))))),
)
probes-Ends ask reach protocol (url ∷ urls) max_attempts = (
  http_attempts-Ends ask (url ∷ urls) max_attempts 0 fresh fresh-IsProbing,
  tunnel_offsets-EndsWell reach protocol (url ∷ urls)
      (total_attempts max_attempts (length (url ∷ urls))) 0 fresh (omega arith) fresh-IsProbing,
)
