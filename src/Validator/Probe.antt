-- ===== src/Validator/Probe.antt =====
-- The loops of `support_http` (src/validator/checker/support.rs) and `support_tunnel`
-- (src/validator/tunnel/mod.rs) over attempts and judges. What a try gives is passed in, the time that is
-- left included; a judge is named by its address, and what the pool is told is listed.
pub mod Reports
pub mod Bounded
mod Tests
use flx.Base.{
  List_eq, ℕ_eq, ◌*◌, ◌-◌, ◌%◌, zero, ◌+◌, ◌^◌, some, suc, ◌++◌, ltb, ◌∷◌, false, contains, length,
  none, ℕ, true, [], if◌then◌else◌, Bool, List, Option,
}
use flx.Proxy.Protocol.{Anonymity, Protocol}
use flx.Validator.Judgement.{Verdict}
use flx.Base.Bytes.{Bytes}
use flx.Base.Outcome.{◌>>=◌, index, returned, Outcome}

-- What a try of `support_http` gives.
pub data Ask : Type 0 where
  out_of_time unbuilt unreachable bad_status : Ask
  answered : Verdict → Ask

-- What a try of `support_tunnel` gives: the last is the level, where one is measured.
pub data Reach : Type 0 where
  out_of_time failed late : Reach
  reached : Anonymity → Reach

-- What a try does to the loop.
pub data Reaction : Type 0 where
  stops fails ignored : Reaction
  passes : Protocol → Reaction

unfoldable pub http_reaction : Ask → Reaction
http_reaction Ask.out_of_time = Reaction.stops
http_reaction Ask.unbuilt = Reaction.ignored
http_reaction Ask.unreachable = Reaction.fails
http_reaction Ask.bad_status = Reaction.fails
http_reaction (Ask.answered Verdict.unreadable) = Reaction.ignored
http_reaction (Ask.answered Verdict.foreign) = Reaction.fails
http_reaction (Ask.answered Verdict.no_cookie) = Reaction.ignored
http_reaction (Ask.answered Verdict.no_referer) = Reaction.ignored
http_reaction (Ask.answered (Verdict.level l)) = Reaction.passes (Protocol.http l)

abbrev measured : Protocol → Anonymity → Protocol
measured (Protocol.https level) l = Protocol.https l
measured protocol l = protocol

unfoldable pub tunnel_reaction : Protocol → Reach → Reaction
tunnel_reaction protocol Reach.out_of_time = Reaction.stops
tunnel_reaction protocol Reach.failed = Reaction.fails
tunnel_reaction protocol Reach.late = Reaction.fails
tunnel_reaction protocol (Reach.reached l) = Reaction.passes (measured protocol l)

-- The judges that have failed, and the reports to the pool: of a success or of a failure.
pub record Probing : Type 0 where
  pub cooling_down : List Bytes
  pub reports : List (Bytes × Bool)

pub data Loop : Type 0 where
  going : Probing → Loop
  ended : Option Protocol → Probing → Loop

unfoldable pub react : Bytes → Reaction → Probing → Loop
react url Reaction.stops s = ended none s
react url Reaction.ignored s = going s
react url Reaction.fails s =
    going (record {
      cooling_down = s.cooling_down ++ url ∷ [];
      reports = s.reports ++ (url, false) ∷ [];
    })
react url (Reaction.passes protocol) s =
    ended (some protocol) (record s { reports = s.reports ++ (url, true) ∷ [] })

abbrev pub then_loop : Loop → (Probing → Loop) → Loop
then_loop (going s) k = k s
then_loop (ended result s) k = ended result s

unfoldable pub http_try : (ℕ → Bytes → Ask) → ℕ → Bytes → Probing → Loop
unfolding react http_reaction
http_try ask attempt url s =
    if contains s.cooling_down url then going s else react url (http_reaction (ask attempt url)) s

unfoldable pub http_targets : (ℕ → Bytes → Ask) → ℕ → List Bytes → Probing → Loop
unfolding http_try
http_targets ask attempt [] s = going s
http_targets ask attempt (url ∷ urls) s =
    then_loop (http_try ask attempt url s) (http_targets ask attempt urls)

-- `left` attempts to go.
unfoldable pub http_attempts : (ℕ → Bytes → Ask) → List Bytes → ℕ → ℕ → Probing → Loop
unfolding http_targets
http_attempts ask urls zero attempt s = ended none s
http_attempts ask urls (suc left) attempt s =
    then_loop (http_targets ask attempt urls s) (http_attempts ask urls left (attempt + 1))

abbrev pub fresh : Probing
fresh = record { cooling_down = []; reports = [] }

unfoldable pub support_http : (ℕ → Bytes → Ask) → List Bytes → ℕ → Loop
unfolding http_attempts
support_http ask urls max_attempts = http_attempts ask urls max_attempts 0 fresh

-- The time is looked at before the judge.
abbrev is_over : Reach → Bool
is_over Reach.out_of_time = true
is_over _ = false

unfoldable pub tunnel_try : Protocol → Reach → Bytes → Probing → Loop
unfolding react tunnel_reaction
tunnel_try protocol reach url s =
    if is_over reach
    then ended none s
    else if contains s.cooling_down url
    then going s
    else react url (tunnel_reaction protocol reach) s

abbrev pub then_outcome : Loop → (Probing → Outcome Loop) → Outcome Loop
then_outcome (going s) k = k s
then_outcome (ended result s) k = returned (ended result s)

-- `left` offsets to go.
unfoldable pub tunnel_offsets :
    (ℕ → Bytes → Reach) → Protocol → List Bytes → ℕ → ℕ → Probing → Outcome Loop
unfolding tunnel_try
tunnel_offsets reach protocol urls zero offset s = returned (ended none s)
tunnel_offsets reach protocol urls (suc left) offset s =
    index urls (offset % length urls) >>= λ url.
    then_outcome (tunnel_try protocol (reach offset url) url s)
      (tunnel_offsets reach protocol urls left (offset + 1))

-- `saturating_mul`
abbrev pub total_attempts : ℕ → ℕ → ℕ
total_attempts max_attempts judges =
    if ltb (2 ^ 64 - 1) (max_attempts * judges) then 2 ^ 64 - 1 else max_attempts * judges

-- The addresses are those that `JudgeTarget::from_validation_target` has parsed; the early return for one
-- that it cannot parse is not here.
unfoldable pub support_tunnel : (ℕ → Bytes → Reach) → Protocol → List Bytes → ℕ → Outcome Loop
unfolding tunnel_offsets
support_tunnel reach protocol urls max_attempts =
    tunnel_offsets reach protocol urls (total_attempts max_attempts (length urls)) 0 fresh
