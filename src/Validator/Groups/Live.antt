-- ===== src/Validator/Groups/Live.antt =====
-- The groups whose members have all reported.
use flx.Proxy.Float.{Float}
use flx.Validator.Groups.History.{completes, missing, Message, IsHistory, result_of, table, merged}
use flx.Validator.Groups.{
  GroupKey_eq, idle, aggregate_groups, Aggregator, GroupState, group_key_eq_iff, merge, scored,
  group_key_eq, GroupWorkResult, Health, GroupKey, flatten, group_finish,
}
use flx.Base.{
  Bool, sym, inr, none, inl, [], Bool-cases, arith, some, refl, zero, true, is_some, ◌+◌, false,
  ◌∷◌, append_assoc, ◌∙◌, all, suc, ap, ◌≡◌, Option, length, ◌<◌, ℕ, ◌++◌, List,
}
use flx.Proxy.Model.{Proxy}
use flx.Base.Outcome.{returned, index}
use flx.Validator.Groups.Missing.{missing_other, missing_none}
use mathlib.Core.Path.{subst}
use flx.Base.Dict.{lookup, Dict}
use flx.Validator.Groups.Open.{IsEntry}
use flx.Validator.Groups.Aggregated.{aggregate_groups_lem, history}

module _ (f : Float) where
  table_other :
      (health : Health f) (m : GroupWorkResult f) (past : List (Message f)) (k : GroupKey)
      (n start : ℕ)
      → group_key_eq m.key k ≡ false
      → table f k start n ((health, m) ∷ past) ≡ table f k start n past
  unfolding table result_of
  table_other health m past k zero start other = refl
  table_other health m past k (suc n) start other =
      rw other
        (ap (λ l. result_of f k start past ∷ l) (table_other health m past k n (start + 1) other))

  finish_some :
      (results : List (Option (Proxy f)))
      → 0 < length results
      → all is_some results ≡ true
      → (proxy : Proxy f) × (group_finish f results ≡ returned (some proxy))
  unfolding group_finish flatten index
  finish_some [] h passed = absurd (omega arith)
  finish_some (none ∷ results) h passed = absurd (ground arith)
  finish_some (some p ∷ results) h passed = (merge f (p ∷ flatten f results) p, rw passed refl)

  length-table :
      (k : GroupKey) (past : List (Message f)) (n start : ℕ) → length (table f k start n past) ≡ n
  unfolding table
  length-table k past zero start = refl
  length-table k past (suc n) start = ap suc (length-table k past n (start + 1))

  -- The list holds the proxy, with the score of some time.
  abbrev pub Sends : List (Proxy f) → Proxy f → Type 0
  Sends sent proxy =
      (health : Health f) × ((before : List (Proxy f)) × ((after : List (Proxy f)) × (sent
            ≡ before ++ scored f health proxy ∷ after)))

  Sends-append :
      (sent more : List (Proxy f)) (proxy : Proxy f) → Sends sent proxy → Sends (sent ++ more) proxy
  Sends-append sent more proxy (health, (before, (after, e))) = (
    health,
    (
      before,
      (
        after ++ more,
        ap (λ l. l ++ more) e ∙ append_assoc before (scored f health proxy ∷ after) more,
      ),
    ),
  )

  abbrev pub Emitted : GroupKey → ℕ → List (Message f) → Type 0
  Emitted k n past =
      (proxy : Proxy f) × ((group_finish f (table f k 0 n past) ≡ returned (some proxy))
        × Sends (merged f past) proxy)

  last_message :
      (size : GroupKey → ℕ) (health : Health f) (m : GroupWorkResult f) (past : List (Message f))
      → IsHistory f size ((health, m) ∷ past)
      → missing f m.key (size m.key) ((health, m) ∷ past) ≡ 0
      → all is_some (table f m.key 0 (size m.key) ((health, m) ∷ past)) ≡ true
      → Emitted m.key (size m.key) ((health, m) ∷ past)
  unfolding merged IsHistory
  last_message size health m past h complete passed =
      let results = table f m.key 0 (size m.key) ((health, m) ∷ past) in
      let (proxy, e) =
        finish_some results
          (omega (arith, length-table m.key ((health, m) ∷ past) (size m.key) 0, h.1.0)) passed in
      let done : completes f m ((health, m) ∷ past) ≡ true = ground (arith, h.0, complete) in
      let e' : group_finish f (table f m.key 0 m.group_len ((health, m) ∷ past))
          ≡ returned (some proxy) =
        subst (λ n. group_finish f (table f m.key 0 n ((health, m) ∷ past)) ≡ returned (some proxy))
          (sym h.0) e in
      (proxy, (e, (health, (merged f past, ([], rw (done, e') refl)))))

  merged_lem :
      (size : GroupKey → ℕ) (k : GroupKey) (past : List (Message f))
      → IsHistory f size past
      → 0 < size k
      → missing f k (size k) past ≡ 0
      → all is_some (table f k 0 (size k) past) ≡ true
      → (proxy : Proxy f) × ((group_finish f (table f k 0 (size k) past) ≡ returned (some proxy))
          × Sends (merged f past) proxy)
  unfolding merged IsHistory
  merged_lem size k [] h some_member complete passed =
      absurd (omega (arith, missing_none f k (size k)))
  merged_lem size k ((health, m) ∷ past) h some_member complete passed =
      elim (Bool-cases (group_key_eq m.key k)) [
        | inl same ↦
            subst
              (λ x.
                missing f x (size x) ((health, m) ∷ past) ≡ 0
                → all is_some (table f x 0 (size x) ((health, m) ∷ past)) ≡ true
                → Emitted x (size x) ((health, m) ∷ past))
              ((group_key_eq_iff m.key k).0 same) (last_message size health m past h) complete
              passed
        | inr other ↦
            let t = table_other health m past k (size k) 0 other in
            let (proxy, (e, s)) =
              merged_lem size k past h.1.1.1.1 some_member
                (sym (missing_other f health m past k (size k) other) ∙ complete)
                (rw (sym t) passed) in
            (proxy, (rw t e, Sends-append (merged f past) _ proxy s))
      ]

  entry_none :
      (k : GroupKey) (n : ℕ) (past : List (Message f)) (o : Option (GroupState f))
      → missing f k n past ≡ 0
      → IsEntry f k n past o
      → o ≡ none
  entry_none k n past none complete e = refl
  entry_none k n past (some state) complete e = absurd (omega (arith, complete, e.1.0))

  -- Every group of which all members have reported, in whatever order and mixed with the messages of
  -- other groups in whatever way, and all have passed, is answered: the aggregator does not panic, the
  -- proxy that the members' results merge into is among those sent, and no state of the group is left.
  pub group_emitted :
      (size : GroupKey → ℕ) (messages : List (Message f)) (dead : Option (Dict GroupKey Bool))
      (k : GroupKey)
      → IsHistory f size (history f [] messages)
      → 0 < size k
      → missing f k (size k) (history f [] messages) ≡ 0
      → all is_some (table f k 0 (size k) (history f [] messages)) ≡ true
      → (a : Aggregator f) × ((aggregate_groups f messages (idle f dead) ≡ returned a)
          × ((lookup k a.states ≡ none)
              × ((proxy : Proxy f) × ((group_finish f (table f k 0 (size k) (history f [] messages))
                      ≡ returned (some proxy))
                    × Sends a.sent proxy))))
  group_emitted size messages dead k h some_member complete passed =
      let past = history f [] messages in
      let (a, (e, g)) = aggregate_groups_lem f size messages dead h in
      let (proxy, (finished, sends)) = merged_lem size k past h some_member complete passed in
      (
        a,
        (
          e,
          (
            entry_none k (size k) past (lookup k a.states) complete (g.entries k),
            (proxy, (finished, rw g.sent sends)),
          ),
        ),
      )
