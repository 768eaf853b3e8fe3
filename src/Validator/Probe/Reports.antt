-- ===== src/Validator/Probe/Reports.antt =====
-- What the pool is told in the course of a probe.
-- How often a judge is reported to have failed, and how often any is to have passed.
use flx.Validator.Probe.{Reaction, then_loop, fresh, react, Loop, Probing}
use flx.Base.{
  refl, List_eq, ℕ_eq, ℕ_eq, list_eq, true, list_eq_iff, ◌&&◌, not, [], ◌+◌, false, ◌∷◌, is_some,
  ◌++◌, ◌≤◌, arith, if◌then◌else◌, contains, ℕ, ◌≡◌, Bool, none, Option, List,
}
use flx.Base.Bytes.{Bytes}
use flx.Proxy.Protocol.{Protocol}
use flx.Fetcher.Dedup.Refine.{contains-append}

abbrev pub failures : Bytes → List (Bytes × Bool) → ℕ
failures url [] = 0
failures url ((u, ok) ∷ reports) = (if not ok && list_eq u url then 1 else 0) + failures url reports

abbrev pub successes : List (Bytes × Bool) → ℕ
successes [] = 0
successes ((u, ok) ∷ reports) = (if ok then 1 else 0) + successes reports

failures-snoc :
    (url u : Bytes) (ok : Bool) (reports : List (Bytes × Bool))
    → failures url (reports ++ (u, ok) ∷ [])
      ≡ failures url reports + (if not ok && list_eq u url then 1 else 0)
failures-snoc url u ok [] = omega arith
failures-snoc url u ok ((v, b) ∷ reports) = omega (arith, failures-snoc url u ok reports)

successes-snoc :
    (u : Bytes) (ok : Bool) (reports : List (Bytes × Bool))
    → successes (reports ++ (u, ok) ∷ []) ≡ successes reports + (if ok then 1 else 0)
successes-snoc u ok [] = omega arith
successes-snoc u ok ((v, b) ∷ reports) = omega (arith, successes-snoc u ok reports)

-- In the loop: nothing has passed, and the judges that cool down have failed once, the others never.
pub record IsProbing (s : Probing) : Type 0 where
  pub failed :
      (url : Bytes) → failures url s.reports ≡ (if contains s.cooling_down url then 1 else 0)
  pub passed : successes s.reports ≡ 0

-- At its end: a judge has failed once at most, and one has passed exactly if the probe has a result.
pub record IsProbed (result : Option Protocol) (s : Probing) : Type 0 where
  pub failed : (url : Bytes) → failures url s.reports ≤ 1
  pub passed : successes s.reports ≡ (if is_some result then 1 else 0)

abbrev pub IsLoop : Loop → Type 0
IsLoop (Loop.going s) = IsProbing s
IsLoop (Loop.ended result s) = IsProbed result s

pub ended_lem : (s : Probing) → IsProbing s → IsProbed none s
ended_lem s h = record { failed = λ url. ground (arith, h.failed url); passed = h.passed }

pub react-IsLoop :
    (url : Bytes) (r : Reaction) (s : Probing)
    → contains s.cooling_down url ≡ false
    → IsProbing s
    → IsLoop (react url r s)
unfolding react
react-IsLoop url Reaction.stops s cool h = ended_lem s h
react-IsLoop url Reaction.ignored s cool h = h
react-IsLoop url Reaction.fails s cool h = record {
  failed = λ u. ground (
    arith,
    failures-snoc u url false s.reports,
    h.failed u,
    contains-append s.cooling_down (url ∷ []) u,
    list_eq_iff url u,
    cool,
  );
  passed = omega (arith, successes-snoc url false s.reports, h.passed);
}
react-IsLoop url (Reaction.passes protocol) s cool h = record {
  failed = λ u. ground (arith, failures-snoc u url true s.reports, h.failed u);
  passed = omega (arith, successes-snoc url true s.reports, h.passed);
}

pub fresh-IsProbing : IsProbing fresh
fresh-IsProbing = record { failed = λ url. refl; passed = refl }

pub then_loop-IsLoop :
    (l : Loop) (k : Probing → Loop)
    → IsLoop l
    → ((s : Probing) → IsProbing s → IsLoop (k s))
    → IsLoop (then_loop l k)
then_loop-IsLoop (Loop.going s) k h g = g s h
then_loop-IsLoop (Loop.ended result s) k h g = h
