-- ===== src/Health/Store/Lines.antt =====
-- The lines of a file after a line is appended to it.
use flx.Base.{
  ◌≡◌, refl, sym, ap, ◌∙◌, Bool, true, false, [], ◌∷◌, ◌++◌, nat_eq, contains, ℕ_eq, append_assoc,
  append-nil, arith,
}
use flx.Base.Bytes.{Bytes}
use flx.Health.Store.{lines, lines_from, strip_cr, blank}

-- Every line of the file ends with its newline.
abbrev pub ends_line : Bytes → Bool
ends_line [] = true
ends_line (b ∷ []) = nat_eq b 10
ends_line (b ∷ c ∷ body) = ends_line (c ∷ body)

pub ends_line-append : (file body : Bytes) → ends_line (file ++ (body ++ 10 ∷ [])) ≡ true
ends_line-append [] [] = refl
ends_line-append [] (b ∷ []) = refl
ends_line-append [] (b ∷ c ∷ body) = ends_line-append [] (c ∷ body)
ends_line-append (b ∷ []) [] = refl
ends_line-append (b ∷ []) (c ∷ body) = ends_line-append [] (c ∷ body)
ends_line-append (b ∷ c ∷ file) body = ends_line-append (c ∷ file) body

strip_cr_same : (body : Bytes) → contains body 13 ≡ false → strip_cr body ≡ body
unfolding strip_cr
strip_cr_same [] h = refl
strip_cr_same (b ∷ []) h = ground arith
strip_cr_same (b ∷ c ∷ body) h = ap (λ xs. b ∷ xs) (strip_cr_same (c ∷ body) (ground arith))

lines_from-body :
    (line body : Bytes)
    → contains body 10 ≡ false
    → lines_from line (body ++ 10 ∷ []) ≡ strip_cr (line ++ body) ∷ []
unfolding lines_from
lines_from-body line [] h = ap (λ xs. strip_cr xs ∷ []) (sym (append-nil line))
lines_from-body line (b ∷ body) h =
    ground (arith, lines_from-body (line ++ b ∷ []) body, append_assoc line (b ∷ []) body)

lines_from-append :
    (line : Bytes) (b : _) (file rest : Bytes)
    → ends_line (b ∷ file) ≡ true
    → lines_from line (b ∷ (file ++ rest)) ≡ lines_from line (b ∷ file) ++ lines_from [] rest
unfolding lines_from
lines_from-append line b [] rest h = ground (arith)
lines_from-append line b (c ∷ file) rest h =
    ground
      (arith, lines_from-append [] c file rest h, lines_from-append (line ++ b ∷ []) c file rest h)

pub lines-append :
    (file body : Bytes)
    → ends_line file ≡ true
    → contains body 10 ≡ false
    → contains body 13 ≡ false
    → lines (file ++ (body ++ 10 ∷ [])) ≡ lines file ++ body ∷ []
unfolding lines lines_from
lines-append [] body h i j = lines_from-body [] body i ∙ ap (λ xs. xs ∷ []) (strip_cr_same body j)
lines-append (b ∷ file) body h i j =
    lines_from-append [] b file (body ++ 10 ∷ []) h
    ∙ ap (λ xs. lines_from [] (b ∷ file) ++ xs)
        (lines_from-body [] body i ∙ ap (λ xs. xs ∷ []) (strip_cr_same body j))

pub blank_object : (rest : Bytes) → blank (123 ∷ rest) ≡ false
unfolding blank
blank_object [] = refl
blank_object (b ∷ []) = refl
blank_object (b ∷ c ∷ rest) = refl
