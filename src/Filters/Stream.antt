-- ===== src/Filters/Stream.antt =====
-- `Filtered` and `BufferedStream` of src/filters.rs, over a stream that is polled.
pub mod Drained
use flx.Base.{
  ℕ, zero, suc, ◌+◌, ◌≤◌, ◌≡◌, refl, ap, sym, ◌∙◌, Bool, true, false, List, [], ◌∷◌, ◌++◌, Option,
  none, some, if◌then◌else◌, filter, length, arith, append_assoc,
}

-- What the upstream gives to each poll: `none` is pending. Behind the last it has ended.
abbrev pub Upstream {ℓ} : Type ℓ → Type ℓ
Upstream A = List (Option A)

pub data Poll {ℓ} (A : Type ℓ) : Type ℓ where
  pending : Poll A
  ready : Option A → Poll A

-- `finish` sorts or shuffles what was collected.
pub data BufferedState {ℓ} (A : Type ℓ) : Type ℓ where
  collecting emitting : List A → BufferedState A

module _ {ℓ} {A : Type ℓ} where
  -- `Filtered::poll_next`
  unfoldable pub poll_filtered : (A → Bool) → Upstream A → Poll A × Upstream A
  poll_filtered p [] = (ready none, [])
  poll_filtered p (none ∷ up) = (pending, up)
  poll_filtered p (some a ∷ up) =
      let rest = poll_filtered p up in if p a then (ready (some a), up) else rest

  abbrev pub emit : List A → Poll A × BufferedState A
  emit [] = (ready none, emitting [])
  emit (x ∷ items) = (ready (some x), emitting items)

  abbrev pub with_upstream :
      Upstream A → Poll A × BufferedState A → Poll A × (BufferedState A × Upstream A)
  with_upstream up (p, s) = (p, (s, up))

  -- `BufferedStream::poll_next` while it collects.
  unfoldable pub collect :
      (List A → List A) → List A → Upstream A → Poll A × (BufferedState A × Upstream A)
  collect finish buffer [] = with_upstream [] (emit (finish buffer))
  collect finish buffer (none ∷ up) = (pending, (collecting buffer, up))
  collect finish buffer (some a ∷ up) = collect finish (buffer ++ a ∷ []) up

  unfoldable pub poll_buffered :
      (List A → List A) → BufferedState A → Upstream A → Poll A × (BufferedState A × Upstream A)
  unfolding collect
  poll_buffered finish (emitting items) up = with_upstream up (emit items)
  poll_buffered finish (collecting buffer) up = collect finish buffer up
