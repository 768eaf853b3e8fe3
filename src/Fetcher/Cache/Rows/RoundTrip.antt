-- ===== src/Fetcher/Cache/Rows/RoundTrip.antt =====
-- What `store_rows` writes, `decode_rows` reads back.
use flx.Base.{
  ℕ, ◌+◌, ◌/◌, ◌%◌, ◌^◌, ◌<◌, ◌≤◌, ◌≡◌, refl, ap, ◌∙◌, false, List, [], ◌∷◌, ◌++◌, append_assoc,
  append-nil, Option, none, some, length, length-append, ltb, arith,
}
use flx.Base.Bytes.{Bytes}
use flx.Base.Outcome.{returned, index, index-append}
use flx.Proxy.Address.{IsAddr}
use flx.Proxy.Protocol.{Protocol, http, https, socks4, socks5, connect}
use flx.Fetcher.Cache.Rows.{
  cache_magic, or_zero, Row, le16, le32, of_le16, of_le32, encode_protocol, encode_row, encode_loop,
  encode_rows, decode_protocol, decode_row, decode_loop, decode_rows, protocol_from_code,
  protocol_code,
}

-- The fields of a row fit their machine types.
abbrev pub IsPort : Option Protocol → Type 0
IsPort (some (connect p)) = p < 65536
IsPort _ = Unit

pub record IsRow (r : Row) : Type 0 where
  pub ip : IsAddr r.ip
  pub port : r.port < 65536
  pub protocol : IsPort r.protocol

abbrev pub IsRows : List Row → Type 0
IsRows [] = Unit
IsRows (r ∷ rows) = IsRow r × IsRows rows

le16_inverse : (n : ℕ) → n < 65536 → of_le16 (n % 256) (n / 256 % 256) ≡ n
unfolding of_le16
le16_inverse n h = omega arith

le32_inverse :
    (n : ℕ)
    → n < 4294967296
    → of_le32 (n % 256) (n / 256 % 256) (n / 65536 % 256) (n / 16777216 % 256) ≡ n
unfolding of_le32
le32_inverse n h = omega arith

-- A read at a position counted from the start of `xs`.
read : (pre xs : Bytes) (k i : ℕ) → k ≡ length pre + i → index (pre ++ xs) k ≡ index xs i
read pre xs k i e = rw e (index-append pre xs i)

in_range :
    (pre xs : Bytes) (k n : ℕ)
    → k + n ≤ length pre + length xs
    → ltb (length (pre ++ xs)) (k + n) ≡ false
in_range pre xs k n h = ground (arith, length-append pre xs)

-- The first byte of a protocol.
abbrev code_of : Option Protocol → ℕ
code_of none = 0
code_of p = or_zero (protocol_code p)

decode-encode_protocol :
    (pre : Bytes) (p : Option Protocol) (rest : Bytes) (cursor : ℕ)
    → IsPort p
    → cursor ≡ length pre + 1
    → decode_protocol (pre ++ (encode_protocol p ++ rest)) cursor (code_of p)
      ≡ returned (some (p, length pre + length (encode_protocol p)))
unfolding encode_protocol le16 decode_protocol protocol_from_code protocol_code
decode-encode_protocol pre none rest cursor h e = ap (λ k. returned (some (none, k))) e
decode-encode_protocol pre (some (connect p)) rest cursor h e =
    let xs : Bytes = 11 ∷ p % 256 ∷ p / 256 % 256 ∷ rest in
    let lo : index (pre ++ xs) cursor ≡ returned (p % 256) =
      unfold index in read pre xs cursor 1 e in
    let hi : index (pre ++ xs) (cursor + 1) ≡ returned (p / 256 % 256) =
      unfold index in read pre xs (cursor + 1) 2 (omega arith) in
    let room : ltb (length (pre ++ xs)) (cursor + 2) ≡ false =
      in_range pre xs cursor 2 (omega arith) in
    rw (room, lo, hi, le16_inverse p h, e)
      (ap (λ k. returned (some (some (connect p), k))) (omega arith))
decode-encode_protocol pre (some (http a)) rest cursor h e = ground arith
decode-encode_protocol pre (some (https a)) rest cursor h e = ground arith
decode-encode_protocol pre (some socks4) rest cursor h e = ground arith
decode-encode_protocol pre (some socks5) rest cursor h e = ground arith

-- The bytes of a row before those of its protocol.
abbrev row_head : Row → Bytes
row_head r = r.ip.a ∷ r.ip.b ∷ r.ip.c ∷ r.ip.d ∷ r.port % 256 ∷ r.port / 256 % 256 ∷ []

index-encode_protocol :
    (p : Option Protocol) (rest : Bytes)
    → index (encode_protocol p ++ rest) 0 ≡ returned (code_of p)
unfolding encode_protocol index protocol_code
index-encode_protocol none rest = refl
index-encode_protocol (some (http a)) rest = refl
index-encode_protocol (some _) rest = refl

length-encode_protocol : (p : Option Protocol) → 1 ≤ length (encode_protocol p)
unfolding encode_protocol le16
length-encode_protocol none = omega arith
length-encode_protocol (some (http a)) = omega arith
length-encode_protocol (some _) = omega arith

module _ (pre : Bytes) (r : Row) (rest : Bytes) (h : IsRow r) where
  abbrev xs : Bytes
  xs = row_head r ++ (encode_protocol r.protocol ++ rest)

  protocol_part :
      decode_protocol (pre ++ xs) (length pre + 7) (code_of r.protocol)
      ≡ returned (some (r.protocol, length pre + 6 + length (encode_protocol r.protocol)))
  protocol_part =
      let n : length (pre ++ row_head r) ≡ length pre + 6 = length-append pre (row_head r) in
      rw (append_assoc pre (row_head r) (encode_protocol r.protocol ++ rest), n) at
        (decode-encode_protocol (pre ++ row_head r) r.protocol rest (length pre + 7) h.protocol
          (omega (arith, n)))

  row_room : ltb (length (pre ++ xs)) (length pre + 7) ≡ false
  row_room = in_range pre xs (length pre) 7 (
      omega (
        arith,
        length-append (row_head r) (encode_protocol r.protocol ++ rest),
        length-append (encode_protocol r.protocol) rest,
        length-encode_protocol r.protocol,
      ))

  byte : (i b : ℕ) → index xs i ≡ returned b → index (pre ++ xs) (length pre + i) ≡ returned b
  byte i b e = read pre xs (length pre + i) i refl ∙ e

  first : index (pre ++ xs) (length pre) ≡ returned r.ip.a
  first = read pre xs (length pre) 0 (omega arith) ∙ (unfold index in refl)

  decode-encode_row :
      decode_row (pre ++ xs) (length pre)
      ≡ returned (some (r, length pre + (6 + length (encode_protocol r.protocol))))
  unfolding decode_row
  decode-encode_row =
      rw
        (
          row_room,
          first,
          byte 1 r.ip.b (unfold index in refl),
          byte 2 r.ip.c (unfold index in refl),
          byte 3 r.ip.d (unfold index in refl),
          byte 4 (r.port % 256) (unfold index in refl),
          byte 5 (r.port / 256 % 256) (unfold index in refl),
          byte 6 (code_of r.protocol) (
              read (row_head r) (encode_protocol r.protocol ++ rest) 6 0 refl
              ∙ index-encode_protocol r.protocol rest),
          protocol_part,
          le16_inverse r.port h.port,
        )
        (ap (λ k. returned (some (r, k))) (omega arith))

decode_row-append :
    (pre : Bytes) (r : Row) (rest : Bytes)
    → IsRow r
    → decode_row (pre ++ (encode_row r ++ rest)) (length pre)
      ≡ returned (some (r, length (pre ++ encode_row r)))
unfolding encode_row le16
decode_row-append pre r rest h =
    decode-encode_row pre r rest h
    ∙ ap (λ k. returned (some (r, k))) (omega (arith, length-append pre (encode_row r)))

decode-encode_loop :
    (rows : List Row) (pre : Bytes) (done : List Row)
    → IsRows rows
    → decode_loop (length rows) (pre ++ encode_loop rows) (length pre) done
      ≡ returned (some (done ++ rows))
unfolding decode_loop encode_loop
decode-encode_loop [] pre done h = rw append-nil
decode-encode_loop (r ∷ rows) pre done h =
    let ih = decode-encode_loop rows (pre ++ encode_row r) (done ++ r ∷ []) h.1 in
    let rest = append_assoc pre (encode_row r) (encode_loop rows) in
    rw (decode_row-append pre r (encode_loop rows) h.0, ← rest, ih, append_assoc done (r ∷ []) rows)

-- The row decoder inverts the encoder: for any rows whose octets are bytes and whose ports are 16-bit
-- numbers, and fewer than 2 ^ 32 of them, `decode_rows` of the body that `store_rows` writes returns
-- these rows, in their order.
pub decode-encode_rows :
    (rows : List Row)
    → IsRows rows
    → length rows < 2 ^ 32
    → decode_rows (encode_rows rows) ≡ returned (some rows)
unfolding encode_rows decode_rows index
decode-encode_rows rows h n =
    let wrap : length rows % 2 ^ 32 ≡ length rows = omega arith in
    let m = length rows in
    let head : Bytes = cache_magic ++ le32 m in
    let short : ltb (length (head ++ encode_loop rows)) 12 ≡ false =
      unfold le32 in ground (arith, length-append head (encode_loop rows)) in
    rw wrap (unfold le32 in rw (short, le32_inverse m n, decode-encode_loop rows head [] h))
