-- ===== src/Validator/Work/Tests.antt =====
-- A probe that passes, and a member of a dead group.
use flx.Validator.Work.{
  do_work, starts_with, key_of, do_group_work, contains_text, Answer, GroupMemberJob, Shared, Clock,
  GroupDeadMap, classify_failure,
}
use flx.Proxy.Model.{no_samples, Proxy}
use flx.Validator.Work.Verdict.{do_work_lem, IsWorked}
use flx.Validator.Work.Member.{do_group_work_lem, IsMember}
use flx.Health.{HealthRecord}
use flx.Base.{refl, ◌≡◌, ◌∷◌, [], true, false, none, Option, some}
use flx.Proxy.Sample.{advertised, whole}
use flx.Proxy.Protocol.{Anonymity, Protocol}
use flx.Health.Store.{written}
use flx.Base.Bytes.{codes, Bytes}

abbrev clock : Clock whole
clock = record {
  checked_on = 5;
  moment = record {
    now = 5;
    attempt = record { first = written; reopened = false; second = written };
  };
}

abbrev encode : HealthRecord whole → Option Bytes
encode r = some (codes "{}")

abbrev fresh : Shared whole
fresh = record {
  health = none;
  failures = some (record { room = 1; reported = [] });
  done = 0;
  passed = 0;
  sent = [];
}

abbrev elite_http : Answer whole
elite_http = Answer.supported (Protocol.http Anonymity.elite) (no_samples whole)

abbrev candidate : Proxy whole
candidate = advertised (Protocol.http Anonymity.unknown ∷ [])

do_work_lem_example :
    IsWorked whole clock candidate
      (Protocol.http Anonymity.unknown)
      (Protocol.http Anonymity.elite)
      elite_http
      fresh
      (do_work whole encode clock candidate
        (Protocol.http Anonymity.unknown)
        (Protocol.http Anonymity.elite)
        elite_http
        fresh)
do_work_lem_example =
    do_work_lem whole encode clock candidate (Protocol.http Anonymity.unknown)
      (Protocol.http Anonymity.elite) elite_http fresh

abbrev member : GroupMemberJob whole
member = record {
  proxy = candidate;
  proxy_id = 7;
  protocol = Protocol.http Anonymity.elite;
  group_idx = 0;
  slot = 1;
  group_len = 2;
}

abbrev dead_group : GroupDeadMap
dead_group = some ((key_of whole member, true) ∷ [])

do_group_work_lem_example :
    IsMember whole member elite_http dead_group
      (do_group_work whole encode clock member elite_http dead_group fresh).1.0
      fresh
      (do_group_work whole encode clock member elite_http dead_group fresh).1.1
      (do_group_work whole encode clock member elite_http dead_group fresh).0
do_group_work_lem_example = do_group_work_lem whole encode clock member elite_http dead_group fresh

timeout_class :
    classify_failure (codes "1.2.3.4:80: HTTP check failed: Timed Out") Protocol.socks5
    ≡ codes "timeout"
unfolding classify_failure contains_text starts_with
timeout_class = refl
