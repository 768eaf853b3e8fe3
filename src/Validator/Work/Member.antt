-- ===== src/Validator/Work/Member.antt =====
-- What the probe of a member of a group leaves behind.
-- An entry that is marked.
use flx.Validator.Groups.{GroupKey_eq, group_key_eq_iff, group_key_eq, GroupWorkResult, GroupKey}
use flx.Validator.Work.{
  after, Clock, run_probe, finish_member, do_group_work, report_failure, key_of, Shared, Answer,
  GroupDeadMap, GroupMemberJob, mark_dead, enter,
}
use flx.Proxy.Float.{Float}
use flx.Base.{
  ◌∙◌, Bool-cases, refl, ◌||◌, inr, inl, ◌&&◌, not, Option-cases, arith, none, true, if◌then◌else◌,
  some, is_some, false, ◌≡◌, Bool, Option,
}
use flx.Base.Dict.{lookup-insert, lookup}
use flx.Validator.Work.Verdict.{reason_of, passes}
use flx.Health.{HealthRecord}
use flx.Base.Bytes.{codes, Bytes}
use flx.Proxy.Model.{Proxy, validation_probe}
use flx.Proxy.Protocol.{Protocol}
use flx.Validator.Jobs.{result_satisfies_request}

abbrev pub marked : Option Bool → Bool
marked none = false
marked (some dead) = dead

-- Whether the map says that the group is dead.
abbrev pub is_dead : GroupKey → GroupDeadMap → Bool
is_dead key none = false
is_dead key (some map) = marked (lookup key map)

-- Whether the group has an entry.
abbrev pub is_entry : GroupKey → GroupDeadMap → Bool
is_entry key none = false
is_entry key (some map) = is_some (lookup key map)

module _ (f : Float) where
  pub record IsMember (member : GroupMemberJob f) (answer : Answer f) (dead dead' : GroupDeadMap)
      (s s' : Shared f) (m : GroupWorkResult f) : Type 0 where
    pub key : m.key ≡ key_of f member
    pub slot : m.slot ≡ member.slot
    pub group_len : m.group_len ≡ member.group_len
    pub passed :
        is_some m.proxy ≡ (not (is_dead (key_of f member) dead) && passes f member.protocol answer)
    pub own :
        is_some dead ≡ true
        → is_dead (key_of f member) dead'
          ≡ (is_dead (key_of f member) dead || not (passes f member.protocol answer))
    pub others :
        (k : GroupKey) → group_key_eq (key_of f member) k ≡ false → is_dead k dead' ≡ is_dead k dead
    pub counted : (s'.done ≡ s.done) × ((s'.passed ≡ s.passed) × (s'.sent ≡ s.sent))
    pub reported :
        is_some m.proxy ≡ false
        → s'.failures
          ≡ report_failure f s.failures member.proxy member.protocol (
              if is_dead (key_of f member) dead
              then codes "group-dead"
              else reason_of f member.protocol answer)

enter_dead :
    (key : GroupKey) (dead : GroupDeadMap) (k : GroupKey)
    → ((enter key dead).0 ≡ is_dead key dead)
      × (is_dead k (enter key dead).1 ≡ is_dead k dead)
      × (is_some (enter key dead).1 ≡ is_some dead)
      × (is_some dead ≡ true → is_entry key (enter key dead).1 ≡ true)
unfolding enter
enter_dead key none k = (refl, refl, refl, λ h. absurd (ground (arith, h)))
enter_dead key (some map) k = elim (Option-cases (lookup key map)) [
  | inl new ↦ ground (
    arith,
    new,
    lookup-insert key k false map,
    lookup-insert key key false map,
    group_key_eq_iff key k,
    group_key_eq_iff key key,
  )
  | inr (d, old) ↦ ground (arith, old)
]

entry_none : (key : GroupKey) → is_entry key (enter key none).1 ≡ false
unfolding enter
entry_none key = refl

mark_dead_lem :
    (key : GroupKey) (dead : GroupDeadMap) (k : GroupKey)
    → is_dead k (mark_dead key dead)
      ≡ (if group_key_eq key k then is_entry key dead else is_dead k dead)
unfolding mark_dead
mark_dead_lem key none k = ground arith
mark_dead_lem key (some map) k =
    ground (arith, lookup-insert key k true map, group_key_eq_iff key k)

module _ (f : Float) (to_vec : HealthRecord f → Option Bytes) where
  abbrev Ended : Proxy f → Protocol → Answer f → Shared f → Option (Proxy f) × Shared f → Type 0
  Ended proxy protocol answer s e =
      (is_some e.0 ≡ passes f protocol answer)
      × ((e.1.done ≡ s.done)
          × ((e.1.passed ≡ s.passed)
              × ((e.1.sent ≡ s.sent)
                  × (is_some e.0 ≡ false
                      → e.1.failures
                        ≡ report_failure f s.failures proxy protocol
                            (reason_of f protocol answer)))))

  ended_lem :
      (clock : Clock f) (proxy : Proxy f) (protocol : Protocol) (answer : Answer f) (s : Shared f)
      → Ended proxy protocol answer s (
          finish_member f to_vec clock protocol
            (run_probe f protocol answer (validation_probe f proxy))
            s)
  unfolding finish_member run_probe validation_probe report_failure
  ended_lem clock proxy protocol (Answer.failed text) s = (refl, (refl, (refl, (refl, λ h. refl))))
  ended_lem clock proxy protocol Answer.no_support s = (refl, (refl, (refl, (refl, λ h. refl))))
  ended_lem clock proxy protocol (Answer.supported result runtimes) s =
      elim (Bool-cases (result_satisfies_request result protocol)) [
        | inl ok ↦ rw ok (refl, (refl, (refl, (refl, λ h. absurd (ground (arith, h))))))
        | inr other ↦ rw other (refl, (refl, (refl, (refl, λ h. refl))))
      ]

  -- The message of a member of a live group, and the map.
  after_lem :
      (key : GroupKey) (dead : GroupDeadMap) (o : Option (Proxy f)) (k : GroupKey)
      → is_dead k (after f key o (enter key dead).1) ≡ (
          if group_key_eq key k
          then (if is_some o then is_dead k dead else is_some dead)
          else is_dead k dead)
  after_lem key dead (some p) k = ground (arith, (enter_dead key dead k).1)
  after_lem key none none k =
      ground (arith, mark_dead_lem key (enter key none).1 k, enter_dead key none k, entry_none key)
  after_lem key (some map) none k =
      let e = enter_dead key (some map) k in
      ground (arith, mark_dead_lem key (enter key (some map)).1 k, e.1, e.3 refl)

  -- A member of a group sends one message whatever happens, with its own key, place and size: a proxy
  -- exactly when no member of the group is known to have failed and the answer passes. Where there is a
  -- map of dead groups, the group is dead afterwards exactly when it was or the member has failed, and
  -- nothing changes for another group. The counters and the sent proxies are left to the aggregator, and
  -- a member without a proxy reports one failure, with the reason `group-dead` for a dead group.
  pub do_group_work_lem :
      (clock : Clock f) (member : GroupMemberJob f) (answer : Answer f) (dead : GroupDeadMap)
      (s : Shared f)
      → IsMember f member answer dead
          (do_group_work f to_vec clock member answer dead s).1.0
          s
          (do_group_work f to_vec clock member answer dead s).1.1
          (do_group_work f to_vec clock member answer dead s).0
  unfolding do_group_work report_failure validation_probe
  do_group_work_lem clock member answer dead s =
      let key = key_of f member in
      let e = enter_dead key dead key in
      elim (Bool-cases (is_dead key dead)) [
        | inl gone ↦
            rw (e.0, gone)
              (record {
                key = refl;
                slot = refl;
                group_len = refl;
                passed = rw gone refl;
                own = λ h. rw gone (e.1 ∙ gone);
                others = λ k h. (enter_dead key dead k).1;
                counted = (refl, (refl, refl));
                reported = λ h. rw gone refl;
              })
        | inr alive ↦
            let ended =
              finish_member f to_vec clock member.protocol
                (run_probe f member.protocol answer (validation_probe f member.proxy)) s in
            let g = ended_lem clock member.proxy member.protocol answer s in
            let a = λ (k : GroupKey). after_lem key dead ended.0 k in
            rw (e.0, alive)
              (record {
                key = refl;
                slot = refl;
                group_len = refl;
                passed = rw alive g.0;
                own =
                    λ h. rw alive (ground (arith, a key, group_key_eq_iff key key, g.0, alive, h));
                others = λ k h. ground (arith, a k, h);
                counted = (g.1.0, (g.1.1.0, g.1.1.1.0));
                reported = λ h. rw alive (g.1.1.1.1 h);
              })
      ]
