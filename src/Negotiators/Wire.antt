-- ===== src/Negotiators/Wire.antt =====
-- The connection of a handshake, as the bytes that will arrive and those that were sent, and the calls
-- that the negotiators make on it.
use flx.Base.{
  arith, ap₂, ap, ◌≡◌, refl, false, true, ℕ, Bool, [], ◌∷◌, ◌++◌, Option, none, some, if◌then◌else◌,
  ltb, length, take, drop, list_eq, ℕ_eq, ◌/◌, ◌%◌,
}
use flx.Base.Bytes.{Bytes, codes}
use flx.Base.Outcome.{Outcome}

-- An error: the connection failed, a part of the target is missing, too long or of another scheme, or
-- the proxy's answer is not the one that is wanted.
pub data Failure : Type 0 where
  io no_host no_port too_long bad_version bad_credentials rejected unsupported bad_address
        bad_scheme malformed :
      Failure

-- A panic, an error, or a value.
pub data Answer {ℓ} (A : Type ℓ) : Type ℓ where
  panicked : Answer A
  bailed : Failure → Answer A
  gave : A → Answer A

abbrev pub is_panic {ℓ} : {A : Type ℓ} → Answer A → Bool
is_panic panicked = true
is_panic _ = false

-- `writable` says whether a write succeeds.
pub record Wire : Type 0 where
  pub incoming : Bytes
  pub sent : Bytes
  pub writable : Bool

abbrev pub Talk {ℓ} : Type ℓ → Type ℓ
Talk A = Wire → Answer A × Wire

abbrev then_talk {ℓ κ} :
    {A : Type ℓ} {B : Type κ} → Answer A × Wire → (A → Talk B) → Answer B × Wire
then_talk (panicked, w) k = (panicked, w)
then_talk (bailed e, w) k = (bailed e, w)
then_talk (gave a, w) k = k a w

infixl 5 ◌>>=◌ ◌>>◌
abbrev pub ◌>>=◌ {ℓ κ} : {A : Type ℓ} {B : Type κ} → Talk A → (A → Talk B) → Talk B
(t >>= k) w = then_talk (t w) k

abbrev pub ◌>>◌ {ℓ} : {B : Type ℓ} → Talk (Unit {0}) → Talk B → Talk B
t >> k = t >>= λ _. k

abbrev pub give {ℓ} : {A : Type ℓ} → A → Talk A
give a w = (gave a, w)

abbrev pub bail {ℓ} : {A : Type ℓ} → Failure → Talk A
bail e w = (bailed e, w)

-- A computation that may panic, inside a handshake.
abbrev pub lift {ℓ} : {A : Type ℓ} → Outcome A → Talk A
lift Outcome.panicked w = (panicked, w)
lift (Outcome.returned a) w = (gave a, w)

-- A value or the error of `context`.
abbrev pub context {ℓ} : {A : Type ℓ} → Option A → Failure → Talk A
context none e w = (bailed e, w)
context (some a) e w = (gave a, w)

abbrev pub write_all : Bytes → Talk (Unit {0})
write_all body w =
    if w.writable then (gave tt, record w { sent = w.sent ++ body }) else (bailed io, w)

-- `read_exact` fails if the stream ends first, and takes what there was.
abbrev pub read_exact : ℕ → Talk Bytes
read_exact n w =
    if ltb (length w.incoming) n
    then (bailed io, record w { incoming = [] })
    else (gave (take n w.incoming), record w { incoming = drop n w.incoming })

-- What a negotiator reads of `hyper::Uri`.
pub record Uri : Type 0 where
  pub host : Option Bytes
  pub port_u16 : Option ℕ
  pub scheme_str : Option Bytes

abbrev default_port : Option Bytes → Option ℕ
default_port none = none
default_port (some scheme) =
    if list_eq scheme (codes "http")
    then some 80
    else if list_eq scheme (codes "https")
    then some 443
    else none

-- The port of the target: its own, or that of its scheme.
unfoldable pub target_port : Uri → Option ℕ
target_port uri = elim uri.port_u16 [ some p ↦ some p | none ↦ default_port uri.scheme_str ]

-- `u16::to_be_bytes`
abbrev pub be16 : ℕ → Bytes
be16 p = p / 256 % 256 ∷ p % 256 ∷ []

pub context_calm {ℓ κ} :
    {A : Type ℓ} {B : Type κ} (o : Option A) (e : Failure) (k : A → Talk B) (w : Wire)
    → ((a : A) → is_panic (k a w).0 ≡ false)
    → is_panic ((context o e >>= k) w).0 ≡ false
context_calm none e k w h = refl
context_calm (some a) e k w h = h a

gave_of {ℓ κ} :
    {A : Type ℓ} {B : Type κ} (o : Answer A × Wire) (k : A → Talk B) (w' : Wire) (b : B)
    → then_talk o k ≡ (gave b, w')
    → (a : A) × ((w1 : Wire) × ((o ≡ (gave a, w1)) × (k a w1 ≡ (gave b, w'))))
gave_of {B = B} (panicked, w) k w' b h =
    absurd (ground (arith, ap (λ (o : Answer B × Wire). o.0) h))
gave_of {B = B} (bailed e, w) k w' b h =
    absurd (ground (arith, ap (λ (o : Answer B × Wire). o.0) h))
gave_of (gave a, w) k w' b h = (a, (w, (refl, h)))

-- A chain that gave a value got there through a value of its first part.
pub gave-then {ℓ κ} :
    {A : Type ℓ} {B : Type κ} (t : Talk A) (k : A → Talk B) (w w' : Wire) (b : B)
    → (t >>= k) w ≡ (gave b, w')
    → (a : A) × ((w1 : Wire) × ((t w ≡ (gave a, w1)) × (k a w1 ≡ (gave b, w'))))
gave-then t k w w' b h = gave_of (t w) k w' b h

pub same_wire :
    (w : Wire) (sent : Bytes) (writable : Bool)
    → w.sent ≡ sent
    → w.writable ≡ writable
    → w ≡ record { incoming = w.incoming; sent = sent; writable = writable }
same_wire w sent writable h i =
    ap₂ (λ (s : Bytes) (b : Bool). record { incoming = w.incoming; sent = s; writable = b }) h i
