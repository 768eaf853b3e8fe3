-- ===== src/Rotator/Server/Head/Chunks.antt =====
-- The loop of `read_request`, for the ways in which a text can arrive.
use flx.Base.{
  sym, inr, ◌∙◌, inl, Option-cases, append_assoc, append-nil, ap, refl, ◌<◌, ◌≤◌, none, arith, [],
  ◌≡◌, false, map, true, all, length, ◌++◌, some, ℕ, Bool, ltb, ◌∷◌, List,
}
use flx.Negotiators.Head.{find_head_end}
use flx.Rotator.Server.Head.{request_head_limit, is_empty, Read, read_head, Head}
use flx.Base.Bytes.{Bytes}
use flx.Negotiators.Head.Blank.{find-append, find_before}

abbrev pub concat : List Bytes → Bytes
concat [] = []
concat (c ∷ chunks) = c ++ concat chunks

abbrev pub nonempty : Bytes → Bool
nonempty bytes = ltb 0 (length bytes)

abbrev pub is_head : Head → Bool
is_head (Head.head bytes end) = true
is_head _ = false

is_empty_lem : (c : Bytes) → ltb 0 (length c) ≡ true → is_empty c ≡ false
is_empty_lem [] h = absurd (ground (arith, h))
is_empty_lem (b ∷ c) h = refl

same_end : (a b : ℕ) → some a ≡ some b → a ≡ b
same_end a b h = ground (arith, h)

-- A head that ends within the limit has not been passed over.
within :
    (bytes rest : Bytes) (end : ℕ)
    → find_head_end bytes ≡ none
    → find_head_end (bytes ++ rest) ≡ some end
    → length bytes < end
within bytes rest end before h = ground (arith, before, find_before bytes rest end h)

pub Finds : Bytes → ℕ → Bytes → List Bytes → Type 0
Finds text end bytes chunks =
    (read : Bytes) × ((rest : Bytes) × ((read_head bytes (map Read.chunk chunks)
          ≡ Head.head read end)
        × (read ++ rest ≡ text)))

read_head-Finds :
    (chunks : List Bytes) (bytes : Bytes) (end : ℕ)
    → all nonempty chunks ≡ true
    → find_head_end bytes ≡ none
    → find_head_end (bytes ++ concat chunks) ≡ some end
    → end ≤ request_head_limit
    → Finds (bytes ++ concat chunks) end bytes chunks
unfolding Finds read_head
read_head-Finds [] bytes end full before h b =
    absurd (ground (arith, before, h, ap find_head_end (append-nil bytes)))
read_head-Finds (c ∷ chunks) bytes end full before h b =
    let assoc = append_assoc bytes c (concat chunks) in
    let room : ltb request_head_limit (length bytes) ≡ false =
      ground (arith, within bytes (c ++ concat chunks) end before h, b) in
    let some_bytes : is_empty c ≡ false = is_empty_lem c (ground (arith, full)) in
    elim (Option-cases (find_head_end (bytes ++ c))) [
      | inl more ↦
          let (read, (rest, (e, r))) =
            read_head-Finds chunks (bytes ++ c) end (ground (arith, full)) more (rw assoc h) b in
          (read, (rest, (rw (room, some_bytes, more) e, r ∙ assoc)))
      | inr (n, here) ↦
          let same : n ≡ end =
            same_end n end (
              sym (find-append (bytes ++ c) (concat chunks) n here) ∙ ap find_head_end assoc ∙ h) in
          (
            bytes ++ c,
            (
              concat chunks,
              (rw (room, some_bytes, here) (ap (Head.head (bytes ++ c)) same), assoc),
            ),
          )
    ]

read_head_fails :
    (chunks : List Bytes) (bytes : Bytes)
    → find_head_end (bytes ++ concat chunks) ≡ none
    → is_head (read_head bytes (map Read.chunk chunks)) ≡ false
unfolding read_head
read_head_fails [] bytes h = ground arith
read_head_fails (c ∷ chunks) bytes h =
    let h' = ap find_head_end (append_assoc bytes c (concat chunks)) ∙ h in
    elim (Option-cases (find_head_end (bytes ++ c))) [
      | inl more ↦ ground (arith, more, read_head_fails chunks (bytes ++ c) h')
      | inr (n, here) ↦ absurd (ground (arith, find-append (bytes ++ c) (concat chunks) n here, h'))
    ]

-- However a client's bytes are cut into reads: if a blank line is among them and the first one ends
-- within the limit, the loop stops with the place where it ends in the whole, having read a first part
-- of the bytes; and if there is no blank line, it ends with an error.
pub read_head_lem :
    (chunks : List Bytes)
    → all nonempty chunks ≡ true
    → ((end : ℕ)
        → find_head_end (concat chunks) ≡ some end
        → end ≤ request_head_limit
        → Finds (concat chunks) end [] chunks)
      × (find_head_end (concat chunks) ≡ none
          → is_head (read_head [] (map Read.chunk chunks)) ≡ false)
unfolding find_head_end
read_head_lem chunks full =
    (λ end h b. read_head-Finds chunks [] end full refl h b, λ h. read_head_fails chunks [] h)
