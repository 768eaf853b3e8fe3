-- ===== src/Validator/Judgement/Tests.antt =====
-- An answer in two frames: the first one is enough.
use flx.Validator.Judgement.{
  Verdict, classify_anonymity, checked, should_stop, read_until, read_bounded_body,
  to_raw_response_early_exit, Frame, raw_head, verdict, to_raw_response, Wanted,
}
use flx.Base.{refl, ◌++◌, false, ◌≡◌, ◌∷◌, none, [], Option, some, List}
use flx.Base.Bytes.{Bytes, codes}
use flx.Validator.Judgement.EarlyExit.{verdict_early}
use flx.Validator.Work.{starts_with, contains_text}
use flx.Proxy.Protocol.{transparent}

abbrev wanted : Wanted
wanted = record {
  token_marker = codes "TOKEN = 7";
  my_ip = [];
  support_cookies = false;
  support_referer = false;
}

abbrev headers : List (Bytes × Option Bytes)
headers = (codes "server", some (codes "judge")) ∷ []

abbrev frames : List Frame
frames = Frame.chunk (codes "TOKEN = 7 REMOTE = 9.9.9.9") ∷ Frame.chunk (codes " VIA = p") ∷ []

readable :
    to_raw_response headers frames
    ≡ some (codes "SERVER: judge" ++ 10 ∷ 10 ∷ 10 ∷ codes "TOKEN = 7 REMOTE = 9.9.9.9 VIA = p")
unfolding to_raw_response raw_head read_bounded_body
readable = refl

verdict_early_example :
    verdict wanted (some (codes "9.9.9.9")) none headers frames
    ≡ verdict wanted none (some (codes "9.9.9.9")) headers frames
verdict_early_example =
    verdict_early wanted (codes "9.9.9.9") none headers frames
      (codes "SERVER: judge" ++ 10 ∷ 10 ∷ 10 ∷ codes "TOKEN = 7 REMOTE = 9.9.9.9 VIA = p") readable

leaks : verdict wanted (some (codes "9.9.9.9")) none headers frames ≡ Verdict.level transparent
unfolding verdict to_raw_response_early_exit read_until should_stop raw_head checked
    classify_anonymity contains_text starts_with
leaks = refl
