-- ===== src/Negotiators/Head/Blank.antt =====
-- Where the first blank line ends, in a part of a text and in the whole.
use flx.Negotiators.Head.{one_more, blank_line, at_blank, find_head_end, ends_with}
use flx.Base.Bytes.{Bytes}
use flx.Base.{
  inr, ◌∙◌, inl, length-append, leb, refl, zero, length-take, Bool-cases, ◌+◌, arith, suc, false,
  list_eq_iff, ℕ_eq, if◌then◌else◌, [], true, ◌++◌, ap, ◌∷◌, take, none, some, list_eq, length, ℕ,
  ◌≤◌, ◌≡◌,
}

take-append_le : (n : ℕ) (xs ys : Bytes) → n ≤ length xs → take n (xs ++ ys) ≡ take n xs
take-append_le zero xs ys h = refl
take-append_le (suc n) [] ys h = absurd (omega arith)
take-append_le (suc n) (x ∷ xs) ys h = ap (λ l. x ∷ l) (take-append_le n xs ys (omega arith))

take_all : (n : ℕ) (xs : Bytes) → length xs ≤ n → take n xs ≡ xs
take_all zero [] h = refl
take_all zero (x ∷ xs) h = absurd (omega arith)
take_all (suc n) [] h = refl
take_all (suc n) (x ∷ xs) h = ap (λ l. x ∷ l) (take_all n xs (omega arith))

pub is_blank_length : (xs : Bytes) → list_eq xs blank_line ≡ true → length xs ≡ 4
is_blank_length xs h = ap length ((list_eq_iff xs blank_line).0 h)

at_blank-length : (xs : Bytes) → at_blank xs ≡ true → 4 ≤ length xs
unfolding at_blank
at_blank-length xs h =
    let e : length (take 4 xs) ≡ 4 = is_blank_length (take 4 xs) h in
    omega (arith, e, length-take 4 xs)

at_blank-append : (xs ys : Bytes) → 4 ≤ length xs → at_blank (xs ++ ys) ≡ at_blank xs
unfolding at_blank
at_blank-append xs ys h = ap (λ l. list_eq l blank_line) (take-append_le 4 xs ys h)

at_blank_short : (xs : Bytes) → length xs ≤ 4 → at_blank xs ≡ list_eq xs blank_line
unfolding at_blank
at_blank_short xs h = ap (λ l. list_eq l blank_line) (take_all 4 xs h)

find_cons :
    (x : ℕ) (xs : Bytes)
    → find_head_end (x ∷ xs) ≡ (if at_blank (x ∷ xs) then some 4 else one_more (find_head_end xs))
unfolding find_head_end
find_cons x xs = refl

pub find_bound :
    (xs : Bytes) (end : ℕ) → find_head_end xs ≡ some end → (4 ≤ end) × (end ≤ length xs)
unfolding find_head_end
find_bound [] end h = absurd (ground (arith, h))
find_bound (x ∷ xs) zero h = absurd (ground (arith, h))
find_bound (x ∷ xs) (suc end) h = ground (arith, h, find_bound xs end, at_blank-length (x ∷ xs))

pub find-append :
    (xs ys : Bytes) (end : ℕ) → find_head_end xs ≡ some end → find_head_end (xs ++ ys) ≡ some end
unfolding find_head_end
find-append [] ys end h = absurd (ground (arith, h))
find-append (x ∷ xs) ys zero h = absurd (ground (arith, h))
find-append (x ∷ xs) ys (suc end) h =
    ground (
      arith,
      h,
      find-append xs ys end,
      find_bound (x ∷ xs) (suc end) h,
      at_blank-append (x ∷ xs) ys,
    )

-- A blank line that ends in the first part is found there.
pub find_before :
    (xs ys : Bytes) (end : ℕ)
    → find_head_end (xs ++ ys) ≡ some end
    → end ≤ length xs
    → find_head_end xs ≡ some end
unfolding find_head_end
find_before [] ys end h b = absurd (omega (arith, b, (find_bound ys end h).0))
find_before (x ∷ xs) ys zero h b = absurd (ground (arith, h))
find_before (x ∷ xs) ys (suc end) h b = ground (
  arith,
  h,
  b,
  find_before xs ys end,
  find_bound (x ∷ xs ++ ys) (suc end) h,
  at_blank-append (x ∷ xs) ys,
)

ends_with-length : (xs : Bytes) → ends_with xs blank_line ≡ true → 4 ≤ length xs
unfolding ends_with
ends_with-length [] h = absurd (ground (arith, h))
ends_with-length (x ∷ xs) h = ground (arith, h, is_blank_length (x ∷ xs), ends_with-length xs)

snoc_lem :
    (x : ℕ) (xs : Bytes) (b : ℕ)
    → at_blank (x ∷ xs) ≡ false
    → at_blank (x ∷ xs ++ b ∷ []) ≡ list_eq (x ∷ xs ++ b ∷ []) blank_line
snoc_lem x xs b h = elim (Bool-cases (leb 4 (length (x ∷ xs)))) [
  | inl long ↦
      at_blank-append (x ∷ xs) (b ∷ []) (ground (arith, long))
      ∙ ground (arith, h, long, is_blank_length (x ∷ xs ++ b ∷ []), length-append xs (b ∷ []))
  | inr short ↦ at_blank_short (x ∷ xs ++ b ∷ []) (ground (arith, short, length-append xs (b ∷ [])))
]

-- With no blank line before, the next byte completes one or does not.
pub find-snoc :
    (xs : Bytes) (b : ℕ)
    → find_head_end xs ≡ none
    → find_head_end (xs ++ b ∷ [])
      ≡ (if ends_with (xs ++ b ∷ []) blank_line then some (length xs + 1) else none)
unfolding find_head_end ends_with
find-snoc [] b h = ground (arith, at_blank-length (b ∷ []))
find-snoc (x ∷ xs) b h = ground (
  arith,
  h,
  snoc_lem x xs b,
  find-snoc xs b,
  is_blank_length (x ∷ xs ++ b ∷ []),
  length-append xs (b ∷ []),
)
