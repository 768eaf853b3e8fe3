-- ===== src/Validator/Judgement.antt =====
-- src/validator/checker/support.rs: what the answer of a judge says about a proxy. The text of an answer is
-- its bytes: what is looked for is ASCII, which the lossy decoding neither makes nor removes.
pub mod EarlyExit
mod Tests
use flx.Base.Bytes.{codes, Bytes}
use flx.Base.{
  ◌+◌, ◌-◌, ◌&&◌, false, any, ltb, [], length, ◌∷◌, ◌*◌, leb, none, map, not, ◌++◌, Bool, ℕ, some,
  if◌then◌else◌, List, Option,
}
use flx.Proxy.Protocol.{elite, anonymous, transparent, unknown, Anonymity}
use flx.Validator.Work.{contains_text}

-- `MAX_JUDGE_BODY_BYTES`
abbrev pub max_judge_body_bytes : ℕ
max_judge_body_bytes = 512 * 1024

-- `ANON_INTEREST`
abbrev pub anon_interest : List Bytes
anon_interest =
    codes "CLIENT-IP"
    ∷ codes "CLIENT_IP"
    ∷ codes "FORWARDED-FOR"
    ∷ codes "FORWARDED-FOR-IP"
    ∷ codes "FORWARDED_FOR"
    ∷ codes "HTTP-FORWARDED"
    ∷ codes "PROXY-CONNECTION"
    ∷ codes "VIA"
    ∷ codes "X-FORWARDED"
    ∷ codes "X-FORWARDED-FOR"
    ∷ codes "X-IMFORWARDS"
    ∷ codes "X-PROXY-CONNECTION"
    ∷ codes "X-PROXY-ID"
    ∷ codes "X-REAL-IP"
    ∷ codes "X_FORWARDED FORWARDED"
    ∷ []

unfoldable pub classify_anonymity : Bytes → Bytes → Anonymity
unfolding contains_text
classify_anonymity body my_ip =
    if contains_text body my_ip
    then transparent
    else if any (contains_text body) anon_interest
    then anonymous
    else elite

-- A frame of a body: data, which is empty for trailers, or an error, that of the deadline among them.
pub data Frame : Type 0 where
  failed : Frame
  chunk : Bytes → Frame

-- Header names are written in upper case; a value that is no text is an error.
abbrev to_upper : ℕ → ℕ
to_upper c = if leb 97 c && leb c 122 then c - 32 else c

abbrev with_header : Bytes → Option Bytes → Option Bytes → Option Bytes
with_header name none rest = none
with_header name (some value) none = none
with_header name (some value) (some rest) =
    some (map to_upper name ++ (codes ": " ++ (value ++ 10 ∷ rest)))

unfoldable pub raw_head : List (Bytes × Option Bytes) → Option Bytes
raw_head [] = some (10 ∷ 10 ∷ [])
raw_head ((name, value) ∷ headers) = with_header name value (raw_head headers)

-- `read_bounded_body`, with what has been collected.
unfoldable pub read_bounded_body : ℕ → Bytes → List Frame → Option Bytes
read_bounded_body limit collected [] = some collected
read_bounded_body limit collected (failed ∷ frames) = none
read_bounded_body limit collected (chunk data_ ∷ frames) =
    let rest = read_bounded_body limit (collected ++ data_) frames in
    if ltb limit (length collected + length data_) then none else rest

abbrev after_head : Bytes → Option Bytes → Option Bytes
after_head head none = none
after_head head (some body) = some (head ++ body)

abbrev of_frames : List Frame → Option Bytes → Option Bytes
of_frames frames none = none
of_frames frames (some head) = after_head head (read_bounded_body max_judge_body_bytes [] frames)

unfoldable pub to_raw_response : List (Bytes × Option Bytes) → List Frame → Option Bytes
unfolding raw_head read_bounded_body
to_raw_response headers frames = of_frames frames (raw_head headers)

-- What is looked for in an answer.
pub record Wanted : Type 0 where
  pub token_marker : Bytes
  pub my_ip : Bytes
  pub support_cookies : Bool
  pub support_referer : Bool

abbrev pub cookie_marker : Bytes
cookie_marker = codes "HTTP_COOKIE = cookie=ok"

abbrev pub referer_marker : Bytes
referer_marker = codes "HTTP_REFERER = https://google.com/"

unfoldable pub should_stop : Wanted → Bytes → Bool
unfolding contains_text
should_stop w buf =
    if not (contains_text buf w.token_marker)
    then false
    else if w.support_cookies && not (contains_text buf cookie_marker)
    then false
    else if w.support_referer && not (contains_text buf referer_marker)
    then false
    else contains_text buf w.my_ip

-- The loop of `to_raw_response_early_exit`, from the head on.
unfoldable pub read_until : Wanted → ℕ → Bytes → List Frame → Option Bytes
unfolding should_stop
read_until w header_len content [] = some content
read_until w header_len content (failed ∷ frames) = none
read_until w header_len content (chunk data_ ∷ frames) =
    let rest = read_until w header_len (content ++ data_) frames in
    if ltb max_judge_body_bytes (length content - header_len + length data_)
    then none
    else if should_stop w (content ++ data_)
    then some (content ++ data_)
    else rest

abbrev until_from : Wanted → List Frame → Option Bytes → Option Bytes
until_from w frames none = none
until_from w frames (some head) = read_until w (length head) head frames

unfoldable pub to_raw_response_early_exit :
    Wanted → List (Bytes × Option Bytes) → List Frame → Option Bytes
unfolding raw_head read_until
to_raw_response_early_exit w headers frames = until_from w frames (raw_head headers)

-- What `support_http` makes of an answer.
pub data Verdict : Type 0 where
  unreadable foreign no_cookie no_referer : Verdict
  level : Anonymity → Verdict

unfoldable pub checked : Wanted → Bytes → (Bytes → Anonymity) → Verdict
unfolding contains_text
checked w body judge =
    if not (contains_text body w.token_marker)
    then foreign
    else if w.support_cookies && not (contains_text body cookie_marker)
    then no_cookie
    else if w.support_referer && not (contains_text body referer_marker)
    then no_referer
    else level (judge body)

abbrev pub verdict_of : Wanted → (Bytes → Anonymity) → Option Bytes → Verdict
verdict_of w judge none = unreadable
verdict_of w judge (some body) = checked w body judge

-- With the address of this machine at hand, the read may stop early; otherwise it is looked up after,
-- and without it the level is unknown.
abbrev pub judged_by : Option Bytes → Bytes → Anonymity
judged_by none body = unknown
judged_by (some ip) body = classify_anonymity body ip

unfoldable pub verdict :
    Wanted → Option Bytes → Option Bytes → List (Bytes × Option Bytes) → List Frame → Verdict
unfolding to_raw_response to_raw_response_early_exit checked
verdict w (some ip) looked_up headers frames =
    let w' = record w { my_ip = ip } in
    verdict_of w' (judged_by (some ip)) (to_raw_response_early_exit w' headers frames)
verdict w none looked_up headers frames =
    verdict_of w (judged_by looked_up) (to_raw_response headers frames)
