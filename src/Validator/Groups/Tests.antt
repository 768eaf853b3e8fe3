-- ===== src/Validator/Groups/Tests.antt =====
-- Two groups whose messages mix.
use flx.Proxy.Protocol.{Protocol}
use flx.Validator.Groups.History.{result_of, reported, Message, table, IsHistory, missing}
use flx.Base.Outcome.{index, panicked, returned, Outcome}
use flx.Validator.Groups.{
  GroupKey_eq, first_types, flatten, merge, group_finish, scored, emit, write, update, idle,
  receive, aggregate_groups, Aggregator, GroupKey,
}
use flx.Base.{refl, map, ◌≡◌, arith, true, [], ◌∷◌, none, is_some, some, Option, all, ℕ, List}
use flx.Proxy.Model.{ProxyType, Proxy}
use flx.Proxy.Sample.{advertised, whole}
use flx.Validator.Groups.Aggregated.{aggregate_groups_lem, history}
use flx.Base.Dict.{remove, insert, lookup}
use flx.Validator.Groups.Open.{IsAggregated}
use flx.Validator.Groups.Live.{group_emitted, Sends}

abbrev first_key : GroupKey
first_key = record { proxy_id = 7; group_idx = 0 }

abbrev second_key : GroupKey
second_key = record { proxy_id = 7; group_idx = 1 }

abbrev passed : Protocol → Proxy whole
passed p = record (advertised []) {
  proxy_types = record { protocol = p; checked = true; checked_on = 1 } ∷ [];
}

abbrev report : GroupKey → ℕ → Option (Proxy whole) → Message whole
report key slot proxy = (none, record { key = key; slot = slot; group_len = 2; proxy = proxy })

-- The second member of the first group reports first; a member of the second group fails.
abbrev messages : List (Message whole)
messages =
    report first_key 1 (some (passed Protocol.socks5))
    ∷ report second_key 0 none
    ∷ report first_key 0 (some (passed Protocol.socks4))
    ∷ report second_key 1 (some (passed Protocol.socks4))
    ∷ []

abbrev two : GroupKey → ℕ
two k = 2

messages-IsHistory : IsHistory whole two (history whole [] messages)
unfolding IsHistory reported
messages-IsHistory = (
  refl,
  (
    omega arith,
    (
      omega arith,
      (
        refl,
        (
          refl,
          (
            omega arith,
            (
              omega arith,
              (
                refl,
                (
                  refl,
                  (
                    omega arith,
                    (omega arith, (refl, (refl, (omega arith, (omega arith, (refl, tt)))))),
                  ),
                ),
              ),
            ),
          ),
        ),
      ),
    ),
  ),
)

complete : missing whole first_key 2 (history whole [] messages) ≡ 0
unfolding missing reported
complete = refl

all_passed : all is_some (table whole first_key 0 2 (history whole [] messages)) ≡ true
unfolding table result_of
all_passed = refl

aggregate_groups_lem_example :
    (a : Aggregator whole) × ((aggregate_groups whole messages (idle whole none) ≡ returned a)
      × IsAggregated whole two (history whole [] messages) a)
aggregate_groups_lem_example = aggregate_groups_lem whole two messages none messages-IsHistory

group_emitted_example :
    (a : Aggregator whole) × ((aggregate_groups whole messages (idle whole none) ≡ returned a)
      × ((lookup first_key a.states ≡ none)
          × ((proxy : Proxy whole) × ((group_finish whole
                    (table whole first_key 0 (two first_key) (history whole [] messages))
                  ≡ returned (some proxy))
                × Sends whole a.sent proxy))))
group_emitted_example =
    group_emitted whole two messages none first_key messages-IsHistory (omega arith) complete
      all_passed

-- The types of the sent proxy are in the order of the group, not of the messages.
abbrev types_of : Outcome (Aggregator whole) → List (List (ProxyType whole))
types_of panicked = []
types_of (returned a) = map (λ (p : Proxy whole). p.proxy_types) a.sent

one_sent :
    types_of (aggregate_groups whole messages (idle whole none))
    ≡ (record { protocol = Protocol.socks4; checked = true; checked_on = 1 }
        ∷ record { protocol = Protocol.socks5; checked = true; checked_on = 1 }
        ∷ [])
      ∷ []
unfolding aggregate_groups receive update write emit scored group_finish merge flatten first_types
    lookup insert remove index
one_sent = refl
