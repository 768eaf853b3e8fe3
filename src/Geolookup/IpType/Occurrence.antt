-- ===== src/Geolookup/IpType/Occurrence.antt =====
-- src/geolookup/ip_type.rs: a keyword anywhere in a name is found.
use mathlib.Core.Bool.{true}
use mathlib.Core.Path.{subst}
use flx.Base.{
  Bool-cases, Option-cases, [], ap, arith, inl, inr, length, refl, some, suc, zero, ℕ, ◌++◌, ◌↔◌,
  ◌∷◌, ◌≡◌,
}
use flx.Geolookup.IpType.{here, occurs, window}
use flx.Base.Bytes.{Bytes}
use flx.Proxy.Text.{eq_ignore_ascii_case}

window_front : (middle after : Bytes) → window (length middle) (middle ++ after) ≡ some middle
unfolding window
window_front [] after = refl
window_front (c ∷ middle) after = rw (window_front middle after)

here_front :
    (keyword middle after : Bytes)
    → eq_ignore_ascii_case middle keyword ≡ true
    → length middle ≡ length keyword
    → here keyword (window (length keyword) (middle ++ after)) ≡ true
here_front keyword middle after h e =
    subst (λ n. here keyword (window n (middle ++ after)) ≡ true) e
      (rw (window_front middle after, h))

pub record Occurrence (keyword name : Bytes) : Type 0 where
  pub before : Bytes
  pub middle : Bytes
  pub after : Bytes
  pub spells : eq_ignore_ascii_case middle keyword ≡ true
  pub splits : before ++ middle ++ after ≡ name

length-spells : (a b : Bytes) → eq_ignore_ascii_case a b ≡ true → length a ≡ length b
length-spells [] [] h = refl
length-spells [] (d ∷ b) h = ground (arith, h)
length-spells (c ∷ a) [] h = ground (arith, h)
length-spells (c ∷ a) (d ∷ b) h =
    let e : length a ≡ length b = length-spells a b (ground (arith, h)) in omega (arith, e)

here-occurs :
    (keyword name : Bytes)
    → here keyword (window (length keyword) name) ≡ true
    → occurs keyword name ≡ true
unfolding occurs
here-occurs keyword [] h = h
here-occurs keyword (c ∷ name) h = ground (arith, h)

later-occurs :
    (keyword name : Bytes) (c : ℕ) → occurs keyword name ≡ true → occurs keyword (c ∷ name) ≡ true
unfolding occurs
later-occurs keyword name c h = ground (arith, h)

occurs_after :
    (keyword before middle after : Bytes)
    → eq_ignore_ascii_case middle keyword ≡ true
    → occurs keyword (before ++ middle ++ after) ≡ true
occurs_after keyword [] middle after h =
    here-occurs keyword (middle ++ after)
      (here_front keyword middle after h (length-spells middle keyword h))
occurs_after keyword (c ∷ before) middle after h =
    later-occurs keyword (before ++ middle ++ after) c (occurs_after keyword before middle after h)

record Front (w name : Bytes) : Type 0 where
  rest : Bytes
  joins : w ++ rest ≡ name

window-Front : (n : ℕ) (name w : Bytes) → window n name ≡ some w → Front w name
unfolding window
window-Front zero name [] h = record { rest = name; joins = refl }
window-Front zero name (c ∷ w) h = absurd (ground (arith, h))
window-Front (suc n) [] w h = absurd (ground (arith, h))
window-Front (suc n) (c ∷ name) w h = elim (Option-cases (window n name)) [
  | inl e ↦ absurd (ground (arith, e, h))
  | inr (v, e) ↦
      let front : Front v name = window-Front n name v e in
      let same : c ∷ v ≡ w = ground (arith, e, h) in
      record {
        rest = front.rest;
        joins = subst (λ x. x ++ front.rest ≡ c ∷ name) same (ap (λ x. c ∷ x) front.joins);
      }
]

here-Occurrence :
    (keyword name : Bytes)
    → here keyword (window (length keyword) name) ≡ true
    → Occurrence keyword name
here-Occurrence keyword name h = elim (Option-cases (window (length keyword) name)) [
  | inl e ↦ absurd (ground (arith, e, h))
  | inr (w, e) ↦
      let front : Front w name = window-Front (length keyword) name w e in
      record {
        before = [];
        middle = w;
        after = front.rest;
        spells = subst (λ x. here keyword x ≡ true) e h;
        splits = front.joins;
      }
]

later : (keyword name : Bytes) (c : ℕ) → Occurrence keyword name → Occurrence keyword (c ∷ name)
later keyword name c o = record {
  before = c ∷ o.before;
  middle = o.middle;
  after = o.after;
  spells = o.spells;
  splits = ap (λ x. c ∷ x) o.splits;
}

occurs-Occurrence : (keyword name : Bytes) → occurs keyword name ≡ true → Occurrence keyword name
unfolding occurs
occurs-Occurrence keyword [] h = here-Occurrence keyword [] h
occurs-Occurrence keyword (c ∷ name) h =
    elim (Bool-cases (here keyword (window (length keyword) (c ∷ name)))) [
      | inl e ↦ here-Occurrence keyword (c ∷ name) e
      | inr e ↦ later keyword name c (occurs-Occurrence keyword name (ground (arith, e, h)))
    ]

-- A keyword is found exactly when a part of the name spells it, in any case.
pub occurs_iff : (keyword name : Bytes) → (occurs keyword name ≡ true) ↔ Occurrence keyword name
occurs_iff keyword name = (
  occurs-Occurrence keyword name,
  λ o.
      subst (λ x. occurs keyword x ≡ true) o.splits
        (occurs_after keyword o.before o.middle o.after o.spells),
)
