-- ===== src/Proxy/Text/Number.antt =====
-- The decimal text of a port, and its parsing.
use flx.Base.{
  ℕ, zero, suc, ◌+◌, ◌*◌, ◌/◌, ◌%◌, ◌<◌, ◌≤◌, ◌≡◌, refl, ap, ◌∙◌, Bool, true, false, ◌&&◌, [], ◌∷◌,
  ◌++◌, Option, none, some, nat_eq, ltb, leb, arith, inl, inr, Bool-cases, length, length-append,
}
use flx.Base.Bytes.{Bytes}
use flx.Proxy.Text.{decimal, add_digit, digits_from, parse_u16}

-- Every character is a digit.
abbrev pub all_digits : Bytes → Bool
all_digits [] = true
all_digits (b ∷ text) = (leb 48 b && leb b 57) && all_digits text

-- A last digit.
abbrev then_digit : Option ℕ → ℕ → Option ℕ
then_digit none b = none
then_digit (some n) b = add_digit n b

digits_from_nil : (o : Option ℕ) → digits_from o [] ≡ o
unfolding digits_from
digits_from_nil none = refl
digits_from_nil (some n) = refl

add_digit_lem : (m d : ℕ) → d < 10 → m * 10 + d ≤ 65535 → add_digit m (d + 48) ≡ some (m * 10 + d)
add_digit_lem m d h i = ground arith

-- What a width of so many digits holds.
abbrev pub limit : ℕ → ℕ
limit zero = 1
limit (suc width) = 10 * limit width

digits_from-append :
    (o : Option ℕ) (text : Bytes) (b : ℕ)
    → digits_from o (text ++ b ∷ []) ≡ then_digit (digits_from o text) b
unfolding digits_from
digits_from-append none [] b = refl
digits_from-append none (c ∷ text) b = refl
digits_from-append (some n) [] b = digits_from_nil (add_digit n b)
digits_from-append (some n) (c ∷ text) b = digits_from-append (add_digit n c) text b

one_digit : (n : ℕ) → n < 10 → digits_from (some 0) ((n + 48) ∷ []) ≡ some n
unfolding digits_from
one_digit n h =
    digits_from_nil (add_digit 0 (n + 48))
    ∙ add_digit_lem 0 n h (omega (arith, h))
    ∙ ap some (omega arith)

pub digits_from-decimal :
    (width n : ℕ)
    → n < limit width
    → n ≤ 65535
    → 1 ≤ width
    → digits_from (some 0) (decimal width n) ≡ some n
unfolding decimal
digits_from-decimal zero n h i j = absurd (omega arith)
digits_from-decimal (suc zero) n h i j =
    let small : ltb n 10 ≡ true = ground arith in rw small (one_digit n (omega (arith, h)))
digits_from-decimal (suc (suc width)) n h i j = elim (Bool-cases (ltb n 10)) [
  | inl e ↦ rw e (one_digit n (ground (arith, e)))
  | inr e ↦
      let front =
        digits_from-decimal (suc width) (n / 10) (omega (arith, h)) (omega (arith, i))
          (omega arith) in
      let whole : n / 10 * 10 + n % 10 ≡ n = omega arith in
      let last = add_digit_lem (n / 10) (n % 10) (omega arith) (omega (arith, whole, i)) in
      rw (e, digits_from-append (some 0) (decimal (suc width) (n / 10)) (n % 10 + 48), front)
        (last ∙ ap some whole)
]

all_digits-append :
    (text : Bytes) (b : ℕ) → all_digits (text ++ b ∷ []) ≡ (all_digits text && all_digits (b ∷ []))
all_digits-append [] b = ground arith
all_digits-append (c ∷ text) b = ground (arith, all_digits-append text b)

pub decimal_digits : (width n : ℕ) → all_digits (decimal width n) ≡ true
unfolding decimal
decimal_digits zero n = refl
decimal_digits (suc width) n =
    let last : n % 10 < 10 = omega arith in
    ground (
      arith,
      decimal_digits width (n / 10),
      all_digits-append (decimal width (n / 10)) (n % 10 + 48),
      last,
    )

unsigned_digits :
    (text : Bytes) (n : ℕ)
    → all_digits text ≡ true
    → digits_from (some 0) text ≡ some n
    → 1 ≤ length text
    → parse_u16 text ≡ some n
unfolding parse_u16
unsigned_digits [] n h e i = absurd (omega arith)
unsigned_digits (b ∷ text) n h e i =
    let no_sign : nat_eq b 43 ≡ false = ground (arith, h) in rw no_sign e

length-decimal : (width n : ℕ) → 1 ≤ width → 1 ≤ length (decimal width n)
unfolding decimal
length-decimal zero n h = absurd (omega arith)
length-decimal (suc width) n h =
    ground (arith, length-append (decimal width (n / 10)) ((n % 10 + 48) ∷ []))

-- Parsing gives back every port that is printed.
pub parse_u16-decimal : (port : ℕ) → port < 65536 → parse_u16 (decimal 5 port) ≡ some port
parse_u16-decimal port h =
    unsigned_digits (decimal 5 port) port (decimal_digits 5 port)
      (digits_from-decimal 5 port (omega (arith, h)) (omega (arith, h)) (omega arith))
      (length-decimal 5 port (omega arith))
