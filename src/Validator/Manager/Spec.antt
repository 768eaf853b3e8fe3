-- ===== src/Validator/Manager/Spec.antt =====
-- The jobs of the members of the groups of a candidate.
use flx.Validator.Manager.Firsts.{Slot_eq, slots-retain_new, length-retain_new, variety, before}
use flx.Validator.Manager.{
  is_empty, Config, total_of, slots_from, check, spec_from, group_spec, retain_new, dedup_groups,
}
use flx.Base.{
  if_false, true, sym, ◌||◌, ◌+◌, ◌∙◌, ltb, ◌-◌, leb, ◌&&◌, arith, nat_eq, refl, none,
  if◌then◌else◌, false, ap, zero, [], suc, map, ◌≡◌, length, any, ◌∷◌, contains, Bool, ℕ, List,
}
use flx.Proxy.Protocol.{Protocol_eq, Protocol}
use flx.Fetcher.Dedup.Refine.{contains-append, Distinct}
use flx.Validator.Manager.Slots.{
  Place_eq, Place, slots-Distinct, slots_later, Distinct-append, slots_place, total-append,
  map-append, place_of,
}

abbrev pub size_of : List (List Protocol) → ℕ → ℕ
size_of [] n = 0
size_of (p ∷ groups) zero = length p
size_of (p ∷ groups) (suc n) = size_of groups n

size_cons :
    (p : List Protocol) (groups : List (List Protocol)) (n : ℕ)
    → size_of (p ∷ groups) n ≡ (if nat_eq n 0 then length p else size_of groups (n - 1))
size_cons p groups zero = refl
size_cons p groups (suc n) = ground arith

-- The places of the first group and of the later ones.
place_step :
    (g g' s first later all_ : ℕ) (a b : Bool)
    → a ≡ (nat_eq g g' && (leb 0 s && ltb s (0 + first)))
    → b ≡ (leb (g + 1) g' && ltb s later)
    → all_ ≡ (if nat_eq (g' - g) 0 then first else later)
    → (a || b) ≡ (leb g g' && ltb s all_)
place_step g g' s first later all_ a b x y z = ground arith

spec_place :
    (g : ℕ) (groups : List (List Protocol)) (g' s : ℕ)
    → contains (map place_of (spec_from g groups)) (g', s)
      ≡ (leb g g' && ltb s (size_of groups (g' - g)))
unfolding spec_from
spec_place g [] g' s = ground arith
spec_place g (p ∷ groups) g' s =
    let here = slots_place g 0 p g' s in
    let later = spec_place (g + 1) groups g' s in
    let split =
      contains-append (map place_of (slots_from g 0 p)) (map place_of (spec_from (g + 1) groups))
        (g', s) in
    let e : g' - (g + 1) ≡ g' - g - 1 = omega arith in
    ap (λ l. contains l (g', s)) (map-append place_of (slots_from g 0 p) (spec_from (g + 1) groups))
    ∙ (split
        ∙ place_step g g' s (length p) (size_of groups (g' - (g + 1)))
            (size_of (p ∷ groups) (g' - g)) _ _ here later
            (size_cons p groups (g' - g)
              ∙ ap (λ n. if nat_eq (g' - g) 0 then length p else size_of groups n) (sym e)))

spec-Distinct :
    (g : ℕ) (groups : List (List Protocol)) → Distinct (map place_of (spec_from g groups))
unfolding spec_from
spec-Distinct g [] = tt
spec-Distinct g (p ∷ groups) =
    rw (map-append place_of (slots_from g 0 p) (spec_from (g + 1) groups)) (
      Distinct-append (map place_of (slots_from g 0 p)) (map place_of (spec_from (g + 1) groups))
        (slots-Distinct g 0 p) (spec-Distinct (g + 1) groups)
        (λ (k : Place) (h : contains (map place_of (slots_from g 0 p)) k ≡ true).
          ground (arith, h, slots_place g 0 p k.0 k.1, spec_place (g + 1) groups k.0 k.1)))

spec_total :
    (g : ℕ) (groups : List (List Protocol))
    → any is_empty groups ≡ false
    → total_of (spec_from g groups) ≡ length groups
unfolding spec_from slots_from total_of
spec_total g [] h = refl
spec_total g ([] ∷ groups) h = absurd (ground (arith, h))
spec_total g ((p ∷ ps) ∷ groups) h = omega (
  arith,
  total-append (slots_from g 1 ps) (spec_from (g + 1) groups),
  slots_later g 0 ps,
  spec_total (g + 1) groups (ground (arith, h)),
)

from_zero : (g : ℕ) (b : Bool) → (leb 0 g && b) ≡ b
from_zero g b = ground arith

retain_none : (group : List Protocol) → is_empty (retain_new [] group) ≡ is_empty group
unfolding retain_new
retain_none [] = refl
retain_none (p ∷ group) = refl

dedup_none :
    (groups : List (List Protocol)) → any is_empty (dedup_groups groups) ≡ any is_empty groups
unfolding dedup_groups
dedup_none [] = refl
dedup_none (p ∷ groups) = ground (arith, retain_none p, dedup_none groups)

length-dedup : (groups : List (List Protocol)) → length (dedup_groups groups) ≡ length groups
unfolding dedup_groups
length-dedup [] = refl
length-dedup (p ∷ groups) = ap suc (length-dedup groups)

-- The group with this number, as it is given.
abbrev pub group_at : List (List Protocol) → ℕ → List Protocol
group_at [] n = []
group_at (group ∷ groups) zero = group
group_at (group ∷ groups) (suc n) = group_at groups n

at_cons :
    (test : List Protocol → Bool) (group : List Protocol) (groups : List (List Protocol)) (n : ℕ)
    → test (group_at (group ∷ groups) n)
      ≡ (if nat_eq n 0 then test group else test (group_at groups (n - 1)))
at_cons test group groups zero = refl
at_cons test group groups (suc n) =
    let e : n ≡ suc n - 1 = omega arith in
    let f : nat_eq (suc n) 0 ≡ false = ground arith in
    ap (λ m. test (group_at groups m)) e
    ∙ sym (if_false (nat_eq (suc n) 0) (test group) (test (group_at groups (suc n - 1))) f)

size_of-dedup :
    (groups : List (List Protocol)) (n : ℕ)
    → size_of (dedup_groups groups) n ≡ variety (group_at groups n)
unfolding dedup_groups
size_of-dedup [] n = refl
size_of-dedup (group ∷ groups) zero = length-retain_new [] group
size_of-dedup (group ∷ groups) (suc n) = size_of-dedup groups n

-- Whether the protocol is in the group, with `s` different ones before it.
abbrev pub stands : ℕ → Protocol → List Protocol → Bool
stands s p group = contains group p && nat_eq s (variety (before p group))

-- The slots of the first group and of the later ones.
slot_step :
    (g g' : ℕ) (first later all_ a b : Bool)
    → a ≡ (nat_eq g g' && first)
    → b ≡ (leb (g + 1) g' && later)
    → all_ ≡ (if nat_eq (g' - g) 0 then first else later)
    → (a || b) ≡ (leb g g' && all_)
slot_step g g' first later all_ a b x y z = ground arith

spec_slot :
    (g : ℕ) (groups : List (List Protocol)) (g' s : ℕ) (p : Protocol)
    → contains (spec_from g (dedup_groups groups)) (g', s, p)
      ≡ (leb g g' && stands s p (group_at groups (g' - g)))
unfolding spec_from dedup_groups
spec_slot g [] g' s p = ground arith
spec_slot g (group ∷ groups) g' s p =
    let z : 0 + variety (before p group) ≡ variety (before p group) = omega arith in
    let here =
      slots-retain_new g 0 [] group g' s p
      ∙ ap (λ n. nat_eq g g' && (contains group p && nat_eq s n)) z in
    let later = spec_slot (g + 1) groups g' s p in
    let e : g' - g - 1 ≡ g' - (g + 1) = omega arith in
    contains-append (slots_from g 0 (retain_new [] group)) (spec_from (g + 1) (dedup_groups groups))
      (g', s, p)
    ∙ slot_step g g' (stands s p group) (stands s p (group_at groups (g' - (g + 1))))
        (stands s p (group_at (group ∷ groups) (g' - g))) _ _ here later
        (at_cons (stands s p) group groups (g' - g)
          ∙ ap (λ n. if nat_eq (g' - g) 0 then stands s p group else stands s p (group_at groups n))
              e)

-- Of a configuration that passes the checks, a candidate gets a job for a protocol in a place of a group
-- exactly when the group that was asked for has the protocol and the place is the number of different
-- protocols before it comes first. So the places of a group are those below the number of different
-- protocols in it, each with one job; and the total grows by one for each group.
pub group_spec_lem :
    (config : Config)
    → check config ≡ none
    → ((g s : ℕ) (p : Protocol)
        → contains (group_spec (dedup_groups config.groups)) (g, s, p) ≡ (
            contains (group_at config.groups g) p
            && nat_eq s (variety (before p (group_at config.groups g)))))
      × (((g s : ℕ)
            → contains (map place_of (group_spec (dedup_groups config.groups))) (g, s)
              ≡ ltb s (variety (group_at config.groups g)))
          × (Distinct (map place_of (group_spec (dedup_groups config.groups)))
              × (total_of (group_spec (dedup_groups config.groups)) ≡ length config.groups)))
unfolding group_spec check
group_spec_lem config h = (
  λ g s p.
      let z : g - 0 ≡ g = omega arith in
      spec_slot 0 config.groups g s p
      ∙ (ap (λ n. leb 0 g && stands s p (group_at config.groups n)) z
          ∙ from_zero g (stands s p (group_at config.groups g))),
  (
    λ g s.
        let groups = dedup_groups config.groups in
        let z : g - 0 ≡ g = omega arith in
        spec_place 0 groups g s
        ∙ (ap (λ n. leb 0 g && ltb s (size_of groups n)) z
            ∙ (from_zero g (ltb s (size_of groups g))
                ∙ ap (λ n. ltb s n) (size_of-dedup config.groups g))),
    (
      spec-Distinct 0 (dedup_groups config.groups),
      spec_total 0 (dedup_groups config.groups) (dedup_none config.groups ∙ ground (arith, h))
          ∙ length-dedup config.groups,
    ),
  ),
)
