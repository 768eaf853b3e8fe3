-- ===== src/Validator/Groups/History.antt =====
-- What the messages so far say of a group, read from the messages alone. A history has the last message
-- first.
use flx.Proxy.Float.{Float}
use flx.Base.{
  if◌then◌else◌, zero, ◌^◌, ◌||◌, ◌&&◌, ◌<◌, ◌+◌, ◌++◌, ◌≡◌, some, ◌∷◌, none, [], Option, suc,
  nat_eq, false, Bool, ℕ, List,
}
use flx.Validator.Groups.{group_finish, scored, group_key_eq, GroupWorkResult, Health, GroupKey}
use flx.Proxy.Model.{Proxy}
use flx.Base.Outcome.{panicked, returned, Outcome}

abbrev pub Message : Float → Type 0
Message f = Health f × GroupWorkResult f

module _ (f : Float) where
  -- Whether a member of a group has reported, and what.
  unfoldable pub reported : GroupKey → ℕ → List (Message f) → Bool
  reported k i [] = false
  reported k i ((health, m) ∷ past) = (group_key_eq m.key k && nat_eq m.slot i) || reported k i past

  unfoldable pub result_of : GroupKey → ℕ → List (Message f) → Option (Proxy f)
  result_of k i [] = none
  result_of k i ((health, m) ∷ past) =
      if group_key_eq m.key k && nat_eq m.slot i then m.proxy else result_of k i past

  -- How many of the first `n` members have not.
  unfoldable pub missing : GroupKey → ℕ → List (Message f) → ℕ
  missing k zero past = 0
  missing k (suc n) past = (if reported k n past then 0 else 1) + missing k n past

  -- The results of the members from `i` on, `n` of them.
  unfoldable pub table : GroupKey → ℕ → ℕ → List (Message f) → List (Option (Proxy f))
  table k i zero past = []
  table k i (suc n) past = result_of k i past ∷ table k (i + 1) n past

  -- What is sent for a group whose members have all reported: the merged proxy if all have passed.
  abbrev pub of_finished : Health f → Outcome (Option (Proxy f)) → List (Proxy f)
  of_finished health panicked = []
  of_finished health (returned none) = []
  of_finished health (returned (some proxy)) = scored f health proxy ∷ []

  abbrev pub completes : GroupWorkResult f → List (Message f) → Bool
  completes m past = nat_eq (missing m.key m.group_len past) 0

  -- What the messages give: the groups that completed, and the proxies to send, in order.
  unfoldable pub completed : List (Message f) → ℕ
  completed [] = 0
  completed ((health, m) ∷ past) =
      completed past + (if completes m ((health, m) ∷ past) then 1 else 0)

  unfoldable pub merged : List (Message f) → List (Proxy f)
  merged [] = []
  merged ((health, m) ∷ past) =
      merged past
      ++ (if completes m ((health, m) ∷ past)
          then of_finished health (group_finish f (table m.key 0 m.group_len ((health, m) ∷ past)))
          else [])

  -- The workers: a member of a group reports once, with a place in the group, whose size, below 2 ^ 64,
  -- all its members report.
  unfoldable pub IsHistory : (GroupKey → ℕ) → List (Message f) → Type 0
  IsHistory size [] = Unit
  IsHistory size ((health, m) ∷ past) =
      (m.group_len ≡ size m.key)
      × ((m.slot < size m.key)
          × ((size m.key < 2 ^ 64) × ((reported m.key m.slot past ≡ false) × IsHistory size past)))
