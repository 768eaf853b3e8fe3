-- ===== src/Negotiators/Head/Stops.antt =====
-- The loop of `connect_http`, against the place where the first blank line ends.
use flx.Negotiators.Head.{
  blank_line, ends_with, proxy_response_limit, Response, read_response, find_head_end,
}
use flx.Base.Bytes.{Bytes}
use flx.Base.{
  ap₂, length-append, inr, inl, Bool-cases, ◌+◌, drop-append, ◌<◌, take-append, append-nil, refl,
  ◌∙◌, sym, append_assoc, arith, ap, take, false, [], ◌≤◌, ◌∷◌, leb, drop, none, some, true, length,
  if◌then◌else◌, ◌++◌, Bool, ◌≡◌, ℕ,
}
use flx.Negotiators.Head.Blank.{find_before, find-append, find-snoc}

abbrev pub is_response : Response → Bool
is_response (Response.response read left) = true
is_response _ = false

abbrev pub cut : ℕ → Bytes → Response
cut end text =
    if leb end proxy_response_limit
    then Response.response (take end text) (drop end text)
    else Response.too_long

take_at : (xs ys : Bytes) (n : ℕ) → length xs ≡ n → take n (xs ++ ys) ≡ xs
take_at xs ys n h = ap (λ k. take k (xs ++ ys)) (sym h) ∙ take-append xs ys

drop_at : (xs ys : Bytes) (n : ℕ) → length xs ≡ n → drop n (xs ++ ys) ≡ ys
drop_at xs ys n h = ap (λ k. drop k (xs ++ ys)) (sym h) ∙ drop-append xs ys

assoc_snoc : (xs ys : Bytes) (b : ℕ) → (xs ++ b ∷ []) ++ ys ≡ xs ++ b ∷ ys
assoc_snoc xs ys b = append_assoc xs (b ∷ []) ys

read_cut :
    (incoming read : Bytes) (end : ℕ)
    → find_head_end read ≡ none
    → length read ≤ proxy_response_limit
    → find_head_end (read ++ incoming) ≡ some end
    → read_response read incoming ≡ cut end (read ++ incoming)
unfolding read_response
read_cut [] read end before room h =
    absurd (ground (arith, before, h, ap find_head_end (append-nil read)))
read_cut (b ∷ incoming) read end before room h =
    let later : length read < end = ground (arith, before, find_before read (b ∷ incoming) end h) in
    let step = find-snoc read b before in
    let h' = ap find_head_end (assoc_snoc read incoming b) ∙ h in
    elim (Bool-cases (leb proxy_response_limit (length read))) [
      | inl full ↦ ground (arith, full, later)
      | inr more ↦ elim (Bool-cases (ends_with (read ++ b ∷ []) blank_line)) [
        | inl done ↦
            let here : find_head_end (read ++ b ∷ []) ≡ some (length read + 1) =
              ground (arith, step, done) in
            let e : length (read ++ b ∷ []) ≡ end = ground (
              arith,
              find-append (read ++ b ∷ []) incoming (length read + 1) here,
              h',
              length-append read (b ∷ []),
            ) in
            let l : leb end proxy_response_limit ≡ true =
              ground (arith, e, more, length-append read (b ∷ [])) in
            rw (more, done, sym (assoc_snoc read incoming b), l)
              (ap₂ Response.response (sym (take_at (read ++ b ∷ []) incoming end e))
                (sym (drop_at (read ++ b ∷ []) incoming end e)))
        | inr open_ ↦
            rw (more, open_)
              (read_cut incoming (read ++ b ∷ []) end (ground (arith, step, open_))
                  (ground (arith, more, length-append read (b ∷ []))) h'
                ∙ ap (cut end) (assoc_snoc read incoming b))
      ]
    ]

read_none :
    (incoming read : Bytes)
    → find_head_end read ≡ none
    → find_head_end (read ++ incoming) ≡ none
    → is_response (read_response read incoming) ≡ false
unfolding read_response
read_none [] read before h = refl
read_none (b ∷ incoming) read before h =
    let step = find-snoc read b before in
    let h' = ap find_head_end (assoc_snoc read incoming b) ∙ h in
    let here = find-append (read ++ b ∷ []) incoming (length read + 1) in
    ground (arith, step, h', here, read_none incoming (read ++ b ∷ []))

-- Of whatever will arrive from an upstream, the loop takes exactly the bytes to the end of the first
-- blank line, where that is within the limit, and leaves the others in the stream for the relay; where
-- the line ends later it fails for the length, and without one it fails.
pub read_response_lem :
    (incoming : Bytes)
    → ((end : ℕ) → find_head_end incoming ≡ some end → read_response [] incoming ≡ cut end incoming)
      × (find_head_end incoming ≡ none → is_response (read_response [] incoming) ≡ false)
unfolding find_head_end
read_response_lem incoming =
    (λ end h. read_cut incoming [] end refl (omega arith) h, λ h. read_none incoming [] refl h)
