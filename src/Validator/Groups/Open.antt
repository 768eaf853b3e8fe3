-- ===== src/Validator/Groups/Open.antt =====
-- The state of a group of which some members have reported.
use flx.Proxy.Float.{Float}
use flx.Validator.Groups.{
  merge, GroupKey_eq, new_state, group_key_eq, Aggregator, GroupState, GroupWorkResult, Health,
  flatten, group_finish, GroupKey,
}
use flx.Validator.Groups.History.{merged, completed, missing, Message, result_of}
use flx.Base.{
  refl, [], inr, ap, inl, is_some, length-replicate, all, ◌∙◌, sym, Bool-cases, none, true, arith,
  some, ◌%◌, false, ◌∷◌, ◌||◌, get_elem?, ◌≡◌, ◌-◌, nat_eq, length, ◌+◌, ◌^◌, Option, ◌<◌, List, ℕ,
}
use flx.Base.Outcome.{returned, index}
use flx.Proxy.Model.{Proxy}
use flx.Base.Dict.{lookup}
use flx.Validator.Groups.Missing.{missing_all, unreported, get_elem?-replicate, missing_other}

module _ (f : Float) where
  -- The state of a group that is open: what is missing, and the results so far.
  pub record IsOpen (k : GroupKey) (n : ℕ) (past : List (Message f)) (state : GroupState f)
      : Type 0 where
    pub remaining : state.remaining ≡ missing f k n past
    pub length_lem : length state.results ≡ n
    pub results : (i : ℕ) → i < n → get_elem? state.results i ≡ some (result_of f k i past)

  -- No state is kept for a group of which all or no member has reported.
  abbrev pub IsEntry : GroupKey → ℕ → List (Message f) → Option (GroupState f) → Type 0
  IsEntry k n past none = (nat_eq (missing f k n past) 0 || nat_eq (missing f k n past) n) ≡ true
  IsEntry k n past (some state) =
      IsOpen k n past state × ((0 < missing f k n past) × (missing f k n past < n))

  pub record IsAggregated (size : GroupKey → ℕ) (past : List (Message f)) (a : Aggregator f)
      : Type 0 where
    pub entries : (k : GroupKey) → IsEntry k (size k) past (lookup k a.states)
    pub done : a.done ≡ completed f past
    pub sent : a.sent ≡ merged f past
    pub passed : a.passed ≡ length (merged f past)

  pub entry_lem :
      (k : GroupKey) (n : ℕ) (past : List (Message f)) (o : Option (GroupState f))
      → IsEntry k n past o
      → 0 < missing f k n past
      → IsOpen k n past (new_state f o n)
  entry_lem k n past none h some_missing =
      let all_missing : missing f k n past ≡ n = ground (arith, h, some_missing) in
      record {
        remaining = sym all_missing;
        length_lem = length-replicate n none;
        results = λ i b.
            get_elem?-replicate n i none b
            ∙ ap some (sym (unreported f k i past (missing_all f k n past i all_missing b)));
      }
  entry_lem k n past (some state) h some_missing = h.0

  pub finish_total :
      (results : List (Option (Proxy f)))
      → 0 < length results
      → (o : Option (Proxy f)) × (group_finish f results ≡ returned o)
  unfolding group_finish flatten index
  finish_total [] h = absurd (omega arith)
  finish_total (none ∷ results) h = (none, refl)
  finish_total (some p ∷ results) h = elim (Bool-cases (all is_some results)) [
    | inl passed ↦ (some (merge f (p ∷ flatten f results) p), rw passed refl)
    | inr failed ↦ (none, rw failed refl)
  ]

  pub IsEntry-other :
      (health : Health f) (m : GroupWorkResult f) (past : List (Message f)) (k : GroupKey) (n : ℕ)
      (o : Option (GroupState f))
      → group_key_eq m.key k ≡ false
      → IsEntry k n past o
      → IsEntry k n ((health, m) ∷ past) o
  unfolding result_of
  IsEntry-other health m past k n none other h = rw (missing_other f health m past k n other) h
  IsEntry-other health m past k n (some state) other h =
      let same = missing_other f health m past k n other in
      (
        record {
          remaining = h.0.remaining ∙ sym same;
          length_lem = h.0.length_lem;
          results = λ i b. rw other (h.0.results i b);
        },
        (omega (arith, same, h.1.0), omega (arith, same, h.1.1)),
      )

  -- The counter steps down by one.
  pub step_down : (r : ℕ) → 0 < r → r < 2 ^ 64 → (r + 2 ^ 64 - 1) % 2 ^ 64 ≡ r - 1
  step_down r p b = omega arith
