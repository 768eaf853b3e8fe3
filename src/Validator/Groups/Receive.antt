-- ===== src/Validator/Groups/Receive.antt =====
-- The aggregator before and after one message.
use flx.Proxy.Float.{Float}
use flx.Validator.Groups.{
  scored, forget, emit, update, write, group_key_eq_iff, receive, GroupKey_eq, new_state,
  group_key_eq, Aggregator, GroupState, GroupWorkResult, Health, group_finish, GroupKey,
}
use flx.Validator.Groups.History.{
  table, completes, merged, completed, missing, IsHistory, Message, result_of,
}
use mathlib.Core.Path.{subst}
use flx.Base.{
  length-append, ◌++◌, append-nil, refl, [], length-set, inr, set, ap, inl, ◌∙◌, sym, Bool-cases,
  none, true, arith, some, ◌%◌, false, ◌∷◌, ◌≡◌, ◌-◌, nat_eq, ◌+◌, ◌^◌, Option, ◌<◌, List, ℕ,
}
use flx.Base.Outcome.{Outcome, returned}
use flx.Proxy.Model.{Proxy}
use flx.Base.Dict.{remove, lookup-remove, lookup-insert, insert, lookup}
use flx.Validator.Groups.Missing.{table_lem, get_elem?-set, missing_bound, missing_one}
use flx.Validator.Groups.Open.{
  step_down, IsEntry-other, entry_lem, IsOpen, finish_total, IsEntry, IsAggregated,
}

module _ (f : Float) where
  module _ (size : GroupKey → ℕ) (health : Health f) (m : GroupWorkResult f)
      (past : List (Message f)) (a : Aggregator f) (h : IsHistory f size ((health, m) ∷ past))
      (g : IsAggregated f size past a) where
    abbrev next : List (Message f)
    next = (health, m) ∷ past

    one_less : missing f m.key (size m.key) past ≡ missing f m.key (size m.key) next + 1
    unfolding IsHistory
    one_less = missing_one f health m past (size m.key) h.1.0 h.1.1.1.0

    opened : IsOpen f m.key (size m.key) past (new_state f (lookup m.key a.states) m.group_len)
    unfolding IsHistory
    opened = rw h.0 (
        entry_lem f m.key (size m.key) past (lookup m.key a.states) (g.entries m.key)
          (omega (arith, one_less)))

    -- The state after the message.
    abbrev written : GroupState f
    written =
        let entry = new_state f (lookup m.key a.states) m.group_len in
        record {
          remaining = (entry.remaining + 2 ^ 64 - 1) % 2 ^ 64;
          results = set entry.results m.slot m.proxy;
        }

    key_refl : group_key_eq m.key m.key ≡ true
    key_refl = (group_key_eq_iff m.key m.key).1 refl

    written-IsOpen : IsOpen f m.key (size m.key) next written
    unfolding IsHistory result_of
    written-IsOpen = record {
      remaining =
          let o = opened.remaining in
          let b = missing_bound f m.key (size m.key) past in
          step_down f (new_state f (lookup m.key a.states) m.group_len).remaining
            (omega (arith, o, one_less)) (ground (arith, o, b, h.1.1.0))
          ∙ omega (arith, o, one_less);
      length_lem =
          length-set (new_state f (lookup m.key a.states) m.group_len).results m.slot m.proxy
          ∙ opened.length_lem;
      results = λ i b.
          get_elem?-set (new_state f (lookup m.key a.states) m.group_len).results m.slot i m.proxy
            (omega (arith, opened.length_lem, h.1.0))
          ∙ ground (arith, opened.results i b, key_refl);
    }

    receive-update : receive f health m a ≡ update f health m.key written a
    unfolding receive write IsHistory
    receive-update = ground (arith, opened.length_lem, h.1.0)

    abbrev Receives : Outcome (Aggregator f) → Type 0
    Receives o = (a' : Aggregator f) × ((o ≡ returned a') × IsAggregated f size next a')

    still_open : nat_eq written.remaining 0 ≡ false → Receives (update f health m.key written a)
    unfolding update completed merged IsHistory
    still_open more =
        let r = written-IsOpen.remaining in
        let b = missing_bound f m.key (size m.key) past in
        let at_key : IsEntry f m.key (size m.key) next (some written) =
          (written-IsOpen, (ground (arith, r, more), omega (arith, one_less, b))) in
        let not_done : completes f m next ≡ false = ground (arith, r, more, h.0) in
        (
          record a { states = insert m.key written a.states },
          (
            rw more refl,
            record {
              entries = λ k. elim (Bool-cases (group_key_eq m.key k)) [
                | inl same ↦
                    subst
                      (λ x. IsEntry f x (size x) next (lookup x (insert m.key written a.states)))
                      ((group_key_eq_iff m.key k).0 same)
                      (rw (lookup-insert m.key m.key written a.states, key_refl) at_key)
                | inr other ↦
                    rw (lookup-insert m.key k written a.states, other)
                      (IsEntry-other f health m past k (size k) (lookup k a.states) other
                        (g.entries k))
              ];
              done = rw not_done (ground (arith, g.done));
              sent = rw (not_done, append-nil (merged f past)) g.sent;
              passed = rw (not_done, append-nil (merged f past)) g.passed;
            },
          ),
        )

    results_table : written.results ≡ table f m.key 0 m.group_len next
    unfolding IsHistory
    results_table =
        table_lem f m.key next m.group_len 0 written.results (written-IsOpen.length_lem ∙ sym h.0)
          (λ (i : ℕ) (b : i < m.group_len).
            let z : 0 + i ≡ i = omega arith in rw z (written-IsOpen.results i (rw (sym h.0) b)))

    -- The message that completes its group.
    abbrev closed : Aggregator f
    closed = record a {
      states = remove m.key a.states;
      dead = forget f m.key a.dead;
      done = a.done + 1;
    }

    closed_entries :
        nat_eq (missing f m.key (size m.key) next) 0 ≡ true
        → (k : GroupKey) → IsEntry f k (size k) next (lookup k closed.states)
    closed_entries none_missing k = elim (Bool-cases (group_key_eq m.key k)) [
      | inl same ↦
          subst (λ x. IsEntry f x (size x) next (lookup x closed.states))
            ((group_key_eq_iff m.key k).0 same)
            (rw (lookup-remove m.key m.key a.states, key_refl) (ground (arith, none_missing)))
      | inr other ↦
          rw (lookup-remove m.key k a.states, other)
            (IsEntry-other f health m past k (size k) (lookup k a.states) other (g.entries k))
    ]

    finish_emit :
        (o : Option (Proxy f))
        → group_finish f written.results ≡ returned o
        → completes f m next ≡ true
        → ((k : GroupKey) → IsEntry f k (size k) next (lookup k closed.states))
        → IsAggregated f size next (emit f health o closed)
    unfolding emit completed merged
    finish_emit none e c entries =
        let t : group_finish f (table f m.key 0 m.group_len next) ≡ returned none =
          rw (sym results_table) e in
        record {
          entries = entries;
          done = rw c (ap (λ n. n + 1) g.done);
          sent = rw (c, t, append-nil (merged f past)) g.sent;
          passed = rw (c, t, append-nil (merged f past)) g.passed;
        }
    finish_emit (some proxy) e c entries =
        let t : group_finish f (table f m.key 0 m.group_len next) ≡ returned (some proxy) =
          rw (sym results_table) e in
        record {
          entries = entries;
          done = rw c (ap (λ n. n + 1) g.done);
          sent = rw (c, t) (ap (λ l. l ++ scored f health proxy ∷ []) g.sent);
          passed =
              rw (c, t, length-append (merged f past) (scored f health proxy ∷ []))
                (ap (λ n. n + 1) g.passed);
        }

    last_of_group : nat_eq written.remaining 0 ≡ true → Receives (update f health m.key written a)
    unfolding update IsHistory
    last_of_group last =
        let r = written-IsOpen.remaining in
        let none_missing : nat_eq (missing f m.key (size m.key) next) 0 ≡ true =
          ground (arith, r, last) in
        let (o, e) =
          finish_total f written.results (ground (arith, written-IsOpen.length_lem, h.1.0)) in
        (
          emit f health o closed,
          (
            rw (last, e) refl,
            finish_emit o e (ground (arith, h.0, none_missing)) (closed_entries none_missing),
          ),
        )

    updated : Receives (update f health m.key written a)
    updated = elim (Bool-cases (nat_eq written.remaining 0)) [
      | inl last ↦ last_of_group last
      | inr more ↦ still_open more
    ]

  pub receive_lem :
      (size : GroupKey → ℕ) (health : Health f) (m : GroupWorkResult f) (past : List (Message f))
      (a : Aggregator f)
      → IsHistory f size ((health, m) ∷ past)
      → IsAggregated f size past a
      → (a' : Aggregator f) × ((receive f health m a ≡ returned a')
          × IsAggregated f size ((health, m) ∷ past) a')
  receive_lem size health m past a h g =
      let (a', (e, g')) = updated size health m past a h g in
      (a', (receive-update size health m past a h g ∙ e, g'))
