-- ===== src/Filters/Shuffle.antt =====
-- `shuffle_proxies` of src/filters.rs. The seed is the time and the process id.
use flx.Base.{ℕ, zero, suc, ◌+◌, ◌-◌, ◌*◌, ◌/◌, ◌%◌, ◌^◌, List, if◌then◌else◌, nat_eq, set, length}
use flx.Base.Outcome.{Outcome, returned, ◌>>=◌, index}
use Prim.Native.Nat.{bit_xor}

abbrev pub xshift_golden : ℕ
xshift_golden = 0x9e37_79b9_7f4a_7c15

-- `u64` shifts: a shift to the left drops the bits above 64.
abbrev pub shl : ℕ → ℕ → ℕ
shl state n = state * 2 ^ n % 2 ^ 64

abbrev pub shr : ℕ → ℕ → ℕ
shr state n = state / 2 ^ n

unfoldable pub next : ℕ → ℕ
next state =
    let a = bit_xor state (shl state 13) in let b = bit_xor a (shr a 7) in bit_xor b (shl b 17)

-- `nanos as u64 ^ pid`, and not zero.
unfoldable pub seed : ℕ → ℕ → ℕ
seed nanos pid =
    let state = bit_xor (nanos % 2 ^ 64) pid in if nat_eq state 0 then xshift_golden else state

module _ {ℓ} {A : Type ℓ} where
  -- `slice::swap`, which panics out of bounds.
  unfoldable pub swap : List A → ℕ → ℕ → Outcome (List A)
  swap xs i j = do x ← index xs i; y ← index xs j; returned (set (set xs i y) j x)

  -- `for i in (1..len).rev()`, from `i` down.
  unfoldable pub shuffle_from : ℕ → ℕ → List A → Outcome (List A)
  shuffle_from zero state xs = returned xs
  shuffle_from (suc i) state xs = do
    xs' ← swap xs (suc i) (next state % (suc i + 1))
    shuffle_from i (next state) xs'

  unfoldable pub shuffle : ℕ → ℕ → List A → Outcome (List A)
  unfolding shuffle_from
  shuffle nanos pid xs = shuffle_from (length xs - 1) (seed nanos pid) xs
