-- ===== src/Validator/Manager/Slots.antt =====
-- The places of one group.
use flx.Base.{
  beq_refl, refl, length, [], ltb, leb, ap, false, arith, ◌&&◌, ◌+◌, ◌∷◌, contains, ◌↔◌, ◌++◌, ℕ,
  nat_eq, map, true, Bool, ◌≡◌, Eq, List,
}
use flx.Validator.Manager.{total_of, slots_from, Slot}
use flx.Fetcher.Dedup.Refine.{contains-append, Distinct}
use flx.Proxy.Protocol.{Protocol}

abbrev pub Place : Type 0
Place = ℕ × ℕ

abbrev pub place_eq : Place → Place → Bool
place_eq (g, s) (g', s') = nat_eq g g' && nat_eq s s'

pub place_eq_iff : (a b : Place) → (place_eq a b ≡ true) ↔ (a ≡ b)
place_eq_iff (g, s) (g', s') = ground arith

instance abbrev pub Place_eq : Eq Place
Place_eq = record { beq = place_eq; beq_iff = place_eq_iff }

abbrev pub place_of : Slot → Place
place_of (g, s, p) = (g, s)

pub map-append {ℓ κ} :
    {A : Type ℓ} {B : Type κ} (h : A → B) (xs ys : List A) → map h (xs ++ ys) ≡ map h xs ++ map h ys
map-append h [] ys = refl
map-append h (x ∷ xs) ys = ap (λ l. h x ∷ l) (map-append h xs ys)

pub slots_place :
    (g i : ℕ) (protocols : List Protocol) (g' s : ℕ)
    → contains (map place_of (slots_from g i protocols)) (g', s)
      ≡ (nat_eq g g' && (leb i s && ltb s (i + length protocols)))
unfolding slots_from
slots_place g i [] g' s = ground arith
slots_place g i (p ∷ protocols) g' s = ground (arith, slots_place g (i + 1) protocols g' s)

pub slots-Distinct :
    (g i : ℕ) (protocols : List Protocol) → Distinct (map place_of (slots_from g i protocols))
unfolding slots_from
slots-Distinct g i [] = tt
slots-Distinct g i (p ∷ protocols) =
    (ground (arith, slots_place g (i + 1) protocols g i), slots-Distinct g (i + 1) protocols)

pub total-append : (xs ys : List Slot) → total_of (xs ++ ys) ≡ total_of xs + total_of ys
unfolding total_of
total-append [] ys = omega arith
total-append ((g, s, p) ∷ xs) ys = omega (arith, total-append xs ys)

pub slots_later :
    (g i : ℕ) (protocols : List Protocol) → total_of (slots_from g (i + 1) protocols) ≡ 0
unfolding total_of slots_from
slots_later g i [] = refl
slots_later g i (p ∷ protocols) = ground (arith, slots_later g (i + 1) protocols)

module _ {K : Type 0} ⦃e : Eq K⦄ where
  pub Distinct-append :
      (xs ys : List K)
      → Distinct xs
      → Distinct ys
      → ((k : K) → contains xs k ≡ true → contains ys k ≡ false)
      → Distinct (xs ++ ys)
  Distinct-append [] ys d d' apart = d'
  Distinct-append (x ∷ xs) ys d d' apart = (
    ground (arith, contains-append xs ys x, d.0, apart x, beq_refl x),
    Distinct-append xs ys d.1 d' (λ k h. apart k (ground (arith, h))),
  )
