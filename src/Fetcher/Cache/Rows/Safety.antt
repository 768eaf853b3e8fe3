-- ===== src/Fetcher/Cache/Rows/Safety.antt =====
-- `decode_rows` reads a file that anything may have written: it never indexes out of bounds, and it
-- returns no more rows than the body has room for.
use flx.Base.{
  ◌||◌, not, nat_eq, ℕ, zero, suc, ◌+◌, ◌*◌, ◌≤◌, ◌≡◌, refl, List, [], ◌∷◌, ◌++◌, Option, none,
  some, length, length-append, ltb, arith, Bool-cases, inl, inr,
}
use flx.Base.Bytes.{Bytes}
use flx.Base.Outcome.{returned, index-of_lt}
use flx.Fetcher.Cache.Rows.{
  connect, Ipv4Addr, Protocol, Row, decode_protocol, decode_row, decode_loop, decode_rows,
  protocol_from_code, row_with, of_le16, of_le32, cache_magic, starts_with,
}

-- A cursor moved on by `n` bytes at least, and stayed in the body.
abbrev Advances {ℓ} : {A : Type ℓ} → Bytes → ℕ → Option (A × ℕ) → Type 0
Advances body k none = Unit
Advances body k (some (r, k')) = (k ≤ k') × (k' ≤ length body)

decode_protocol_total :
    (body : Bytes) (k code : ℕ)
    → k ≤ length body
    → (o : Option (Option Protocol × ℕ)) × (decode_protocol body k code ≡ returned o)
      × Advances body k o
unfolding decode_protocol
decode_protocol_total body k code h = elim (Bool-cases (nat_eq code 0)) [
  | inl z ↦ (some (none, k), rw z, omega arith)
  | inr nz ↦ elim (Bool-cases (nat_eq code 11)) [
    | inr other ↦ (some (protocol_from_code code, k), rw (nz, other), omega arith)
    | inl c ↦ elim (Bool-cases (ltb (length body) (k + 2))) [
      | inl short ↦ (none, rw (nz, c, short), tt)
      | inr long ↦
          let (a, ea) = index-of_lt body k (ground arith) in
          let (b, eb) = index-of_lt body (k + 1) (ground arith) in
          (some (some (connect (of_le16 a b)), k + 2), rw (nz, c, long, ea, eb), ground arith)
    ]
  ]
]

row_with-Advances :
    (body : Bytes) (k : ℕ) (ip : Ipv4Addr) (port : ℕ) (o : Option (Option Protocol × ℕ))
    → Advances body (k + 7) o
    → Advances body (k + 7) (row_with ip port o)
row_with-Advances body k ip port none h = tt
row_with-Advances body k ip port (some (p, c)) h = h

decode_row_total :
    (body : Bytes) (k : ℕ)
    → (o : Option (Row × ℕ)) × (decode_row body k ≡ returned o) × Advances body (k + 7) o
unfolding decode_row
decode_row_total body k = elim (Bool-cases (ltb (length body) (k + 7))) [
  | inl short ↦ (none, rw short, tt)
  | inr long ↦
      let fits : k + 7 ≤ length body = ground arith in
      let (a, ea) = index-of_lt body k (omega arith) in
      let (b, eb) = index-of_lt body (k + 1) (omega arith) in
      let (c, ec) = index-of_lt body (k + 2) (omega arith) in
      let (d, ed) = index-of_lt body (k + 3) (omega arith) in
      let (lo, el) = index-of_lt body (k + 4) (omega arith) in
      let (hi, eh) = index-of_lt body (k + 5) (omega arith) in
      let (code, ek) = index-of_lt body (k + 6) (omega arith) in
      let (o, eo, adv) = decode_protocol_total body (k + 7) code fits in
      let ip : Ipv4Addr = record { a = a; b = b; c = c; d = d } in
      (
        row_with ip (of_le16 lo hi) o,
        rw (long, ea, eb, ec, ed, el, eh, ek, eo),
        row_with-Advances body k ip (of_le16 lo hi) o adv,
      )
]

-- What a successful loop returns fits in the bytes behind the cursor.
abbrev Fits : ℕ → Bytes → ℕ → List Row → Option (List Row) → Type 0
Fits n body k done none = Unit
Fits n body k done (some rows) = (length rows ≡ length done + n) × (7 * n + k ≤ length body)

abbrev Total : ℕ → Bytes → ℕ → List Row → Type 0
Total n body k done =
    (o : Option (List Row)) × (decode_loop n body k done ≡ returned o) × Fits n body k done o

Fits-push :
    (n : ℕ) (body : Bytes) (k k' : ℕ) (done : List Row) (r : Row) (o : Option (List Row))
    → k + 7 ≤ k'
    → Fits n body k' (done ++ r ∷ []) o
    → Fits (suc n) body k done o
Fits-push n body k k' done r none h f = tt
Fits-push n body k k' done r (some rows) h f = omega (arith, length-append done (r ∷ []))

decode_loop_step :
    (n : ℕ) (body : Bytes) (k : ℕ) (done : List Row) (o : Option (Row × ℕ))
    → decode_row body k ≡ returned o
    → Advances body (k + 7) o
    → ((k' : ℕ) (done' : List Row) → k' ≤ length body → Total n body k' done')
    → Total (suc n) body k done
unfolding decode_loop
decode_loop_step n body k done none e adv ih = (none, rw e, tt)
decode_loop_step n body k done (some (r, k')) e adv ih =
    let (o, eo, f) = ih k' (done ++ r ∷ []) adv.1 in
    (o, rw (e, eo), Fits-push n body k k' done r o adv.0 f)

decode_loop-Total :
    (n : ℕ) (body : Bytes) (k : ℕ) (done : List Row) → k ≤ length body → Total n body k done
unfolding decode_loop
decode_loop-Total zero body k done h = (some done, refl, (omega arith))
decode_loop-Total (suc n) body k done h =
    let (o, e, adv) = decode_row_total body k in
    decode_loop_step n body k done o e adv (decode_loop-Total n body)

-- A row takes seven bytes at least, behind the twelve of the header.
abbrev pub HasRoom : Bytes → Option (List Row) → Type 0
HasRoom body none = Unit
HasRoom body (some rows) = 7 * length rows + 12 ≤ length body

HasRoom-Fits : (n : ℕ) (body : Bytes) (o : Option (List Row)) → Fits n body 12 [] o → HasRoom body o
HasRoom-Fits n body none f = tt
HasRoom-Fits n body (some rows) f = omega arith

-- On every body `decode_rows` returns and does not panic; it returns `None`, or rows that take seven
-- bytes each, at least, of the body behind the twelve bytes of the header.
pub decode_rows_total :
    (body : Bytes) → (o : Option (List Row)) × (decode_rows body ≡ returned o) × HasRoom body o
unfolding decode_rows
decode_rows_total body =
    elim (Bool-cases (ltb (length body) 12 || not (starts_with cache_magic body))) [
      | inl bad ↦ (none, rw bad, tt)
      | inr good ↦
          let long : 12 ≤ length body = ground arith in
          let (a, ea) = index-of_lt body 8 (omega arith) in
          let (b, eb) = index-of_lt body 9 (omega arith) in
          let (c, ec) = index-of_lt body 10 (omega arith) in
          let (d, ed) = index-of_lt body 11 (omega arith) in
          let (o, eo, f) = decode_loop-Total (of_le32 a b c d) body 12 [] long in
          (o, rw (good, ea, eb, ec, ed, eo), HasRoom-Fits (of_le32 a b c d) body o f)
    ]
