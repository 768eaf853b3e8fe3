-- ===== src/Validator/Manager/Firsts.antt =====
-- A group without its repetitions, against the group as it is given.
use flx.Validator.Manager.{slots_from, Slot, retain_new}
use flx.Base.{
  ◌↔◌, Eq, Bool, true, false, ◌≡◌, refl, ◌+◌, ℕ, List, [], ◌∷◌, ◌++◌, ◌&&◌, ◌||◌, not, contains,
  length, nat_eq, if◌then◌else◌, arith, beq_refl, Bool-cases, inl, inr, ap,
}
use flx.Proxy.Protocol.{Protocol, Protocol_eq, protocol_eq, protocol_eq_iff}
use flx.Fetcher.Dedup.Refine.{contains-append}

-- How many protocols are in the list that are not among the seen ones.
abbrev pub unseen : List Protocol → List Protocol → ℕ
unseen seen [] = 0
unseen seen (p ∷ group) = (if contains seen p || contains group p then 0 else 1) + unseen seen group

-- How many different protocols are in the list.
abbrev pub variety : List Protocol → ℕ
variety group = unseen [] group

-- What stands before the first `p`.
abbrev pub before : Protocol → List Protocol → List Protocol
before p [] = []
before p (q ∷ group) = if Protocol_eq.beq q p then [] else q ∷ before p group

-- One more is seen, which is counted as one where it comes.
pub unseen-snoc :
    (seen : List Protocol) (p : Protocol) (group : List Protocol)
    → contains seen p ≡ false
    → unseen seen group ≡ (if contains group p then 1 else 0) + unseen (seen ++ p ∷ []) group
unseen-snoc seen p [] fresh = refl
unseen-snoc seen p (q ∷ group) fresh =
    let here = contains-append seen (p ∷ []) q in
    let later = unseen-snoc seen p group fresh in
    elim (Bool-cases (protocol_eq q p)) [
      | inl h ↦
          let e : q ≡ p = (protocol_eq_iff q p).0 h in
          ground (
            arith,
            h,
            here,
            later,
            fresh,
            beq_refl p,
            ap (λ x. contains group x) e,
            ap (λ x. contains seen x) e,
            ap (λ x. protocol_eq p x) e,
          )
      | inr h ↦ ground (arith, h, here, later, fresh, protocol_eq_iff p q, protocol_eq_iff q p)
    ]

pub unseen_step :
    (seen : List Protocol) (p : Protocol) (group : List Protocol)
    → contains seen p ≡ false
    → unseen seen (p ∷ group) ≡ unseen (seen ++ p ∷ []) group + 1
unseen_step seen p group fresh = ground (arith, fresh, unseen-snoc seen p group fresh)

pub length-retain_new :
    (seen group : List Protocol) → length (retain_new seen group) ≡ unseen seen group
unfolding retain_new
length-retain_new seen [] = refl
length-retain_new seen (p ∷ group) = ground (
  arith,
  length-retain_new seen group,
  length-retain_new (seen ++ p ∷ []) group,
  unseen_step seen p group,
)

abbrev pub slot_eq : Slot → Slot → Bool
slot_eq (g, s, p) (g', s', p') = nat_eq g g' && (nat_eq s s' && protocol_eq p p')

pub slot_eq_iff : (a b : Slot) → (slot_eq a b ≡ true) ↔ (a ≡ b)
slot_eq_iff (g, s, p) (g', s', p') = ground (arith, protocol_eq_iff p p')

instance abbrev pub Slot_eq : Eq Slot
Slot_eq = record { beq = slot_eq; beq_iff = slot_eq_iff }

-- Where the protocols of a group are that have not been seen.
pub slots-retain_new :
    (g i : ℕ) (seen group : List Protocol) (g' s : ℕ) (p : Protocol)
    → contains (slots_from g i (retain_new seen group)) (g', s, p) ≡ (
        nat_eq g g'
        && (not (contains seen p)
            && (contains group p && nat_eq s (i + unseen seen (before p group)))))
unfolding slots_from retain_new
slots-retain_new g i seen [] g' s p = ground arith
slots-retain_new g i seen (q ∷ group) g' s p =
    let old = slots-retain_new g i seen group g' s p in
    let new = slots-retain_new g (i + 1) (seen ++ q ∷ []) group g' s p in
    let split = contains-append seen (q ∷ []) p in
    let step = unseen_step seen q (before p group) in
    elim (Bool-cases (protocol_eq q p)) [
      | inl h ↦
          let e : q ≡ p = (protocol_eq_iff q p).0 h in
          ground (arith, h, old, new, split, ap (λ x. contains seen x) e)
      | inr h ↦ ground (arith, h, old, new, split, step)
    ]
