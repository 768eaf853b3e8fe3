-- ===== src/Negotiators/Buffer.antt =====
-- Writing a packet into a byte array at a cursor: `buf[len..len + n].copy_from_slice(src); len += n`.
use flx.Base.{
  ℕ, ◌+◌, ◌≤◌, ◌≡◌, refl, sym, ap, ◌∙◌, [], ◌++◌, if◌then◌else◌, ltb, length, take, drop,
  length-append, length-take, length-drop, append_assoc, take-append, arith,
}
use flx.Base.Bytes.{Bytes}
use flx.Base.Outcome.{Outcome, returned, panicked, ◌>>=◌}

pub record Cursor : Type 0 where
  pub buf : Bytes
  pub len : ℕ

abbrev pub start : Bytes → Cursor
start buf = record { buf = buf; len = 0 }

-- A copy past the end panics.
unfoldable pub put : Bytes → Cursor → Outcome Cursor
put src c =
    if ltb (length c.buf) (c.len + length src)
    then panicked
    else returned (record {
      buf = take c.len c.buf ++ (src ++ drop (c.len + length src) c.buf);
      len = c.len + length src;
    })

-- `&buf[..len]`
abbrev pub filled : Cursor → Bytes
filled c = take c.len c.buf

-- The cursor is in a buffer of `n` bytes and `body` is in front of it.
pub record Holds (n : ℕ) (body : Bytes) (c : Cursor) : Type 0 where
  pub size : length c.buf ≡ n
  pub at : c.len ≡ length body
  pub front : filled c ≡ body

take_prefix :
    (n : ℕ) (xs ys zs : Bytes) → n ≡ length (xs ++ ys) → take n (xs ++ (ys ++ zs)) ≡ xs ++ ys
take_prefix n xs ys zs h = rw (h, sym (append_assoc xs ys zs)) (take-append (xs ++ ys) zs)

pub start-Holds : (buf : Bytes) → Holds (length buf) [] (start buf)
start-Holds buf = record { size = refl; at = refl; front = refl }

-- A copy that fits does not panic, and appends to what is in front of the cursor.
pub put-Holds :
    (n : ℕ) (body src : Bytes) (c : Cursor)
    → Holds n body c
    → length body + length src ≤ n
    → (c' : Cursor) × (put src c ≡ returned c') × Holds n (body ++ src) c'
unfolding put
put-Holds n body src c h fits =
    let next : Cursor = record {
      buf = take c.len c.buf ++ (src ++ drop (c.len + length src) c.buf);
      len = c.len + length src;
    } in
    let rest = drop (c.len + length src) c.buf in
    let front = take c.len c.buf in
    let front_length : length front ≡ c.len =
      omega (arith, length-take c.len c.buf, h.size, h.at, fits) in
    (
      next,
      ground (arith, h.size, h.at),
      record {
        size = omega (
          arith,
          length-append front (src ++ rest),
          length-append src rest,
          front_length,
          length-drop (c.len + length src) c.buf,
          h.size,
          h.at,
          fits,
        );
        at = omega (arith, h.at, length-append body src);
        front =
            take_prefix (c.len + length src) front src rest
              (omega (arith, front_length, length-append front src))
            ∙ ap (λ b. b ++ src) h.front;
      },
    )

-- A writer that appends `src` in a buffer of `n` bytes with room for it.
pub Appends : ℕ → Bytes → (Cursor → Outcome Cursor) → Type 0
Appends n src f =
    (body : Bytes) (c : Cursor)
    → Holds n body c
    → length body + length src ≤ n
    → (c' : Cursor) × (f c ≡ returned c') × Holds n (body ++ src) c'

pub put-Appends : (n : ℕ) (src : Bytes) → Appends n src (put src)
unfolding Appends
put-Appends n src body c h fits = put-Holds n body src c h fits

pub then-Appends :
    (n : ℕ) (a b : Bytes) (f g : Cursor → Outcome Cursor)
    → Appends n a f
    → Appends n b g
    → Appends n (a ++ b) (λ c. f c >>= g)
unfolding Appends
then-Appends n a b f g p q body c h fits =
    let (c1, e1, h1) = p body c h (omega (arith, length-append a b)) in
    let (c2, e2, h2) =
      q (body ++ a) c1 h1 (omega (arith, length-append a b, length-append body a)) in
    (c2, rw e1 e2, rw (sym (append_assoc body a b)) h2)

-- A writer that starts at the front of the buffer fills it with `src`.
pub Appends-filled :
    (buf src : Bytes) (f : Cursor → Outcome Cursor)
    → Appends (length buf) src f
    → length src ≤ length buf
    → (f (start buf) >>= λ c. returned (filled c)) ≡ returned src
unfolding Appends
Appends-filled buf src f p fits =
    let (c, e, h) = p [] (start buf) (start-Holds buf) (omega (arith, fits)) in
    rw e (ap returned h.front)
