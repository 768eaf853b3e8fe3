-- ===== src/Filters/Stream/Drained.antt =====
-- What a consumer gets that polls a stream to its end.
use flx.Base.{
  ℕ, zero, suc, ◌+◌, ◌<◌, ◌≡◌, refl, ap, sym, ◌∙◌, Bool, true, false, List, [], ◌∷◌, ◌++◌, none,
  some, filter, length, arith, append_assoc, append-nil, inl, inr, Bool-cases,
}
use flx.Filters.Stream.{Upstream, Poll, BufferedState, poll_filtered, poll_buffered, collect}

module _ {ℓ} {A : Type ℓ} where
  -- The items of the upstream.
  abbrev pub items : Upstream A → List A
  items [] = []
  items (none ∷ up) = items up
  items (some a ∷ up) = a ∷ items up

  -- What a consumer makes of the answer to a poll.
  abbrev take_next : (Upstream A → List A) → Poll A × Upstream A → List A
  take_next rest (Poll.pending, up) = rest up
  take_next rest (Poll.ready none, up) = []
  take_next rest (Poll.ready (some a), up) = a ∷ rest up

  module _ (p : A → Bool) where
    -- The items that at most `n` polls give, to the end of the stream.
    pub drain_filtered : ℕ → Upstream A → List A
    drain_filtered zero up = []
    drain_filtered (suc n) up = take_next (drain_filtered n) (poll_filtered p up)

    poll-kept :
        (a : A) (up : Upstream A)
        → p a ≡ true
        → poll_filtered p (some a ∷ up) ≡ (Poll.ready (some a), up)
    unfolding poll_filtered
    poll-kept a up h = rw h refl

    poll-dropped :
        (a : A) (up : Upstream A) → p a ≡ false → poll_filtered p (some a ∷ up) ≡ poll_filtered p up
    unfolding poll_filtered
    poll-dropped a up h = rw h refl

    drain-ended : (n : ℕ) → drain_filtered n [] ≡ []
    unfolding drain_filtered poll_filtered
    drain-ended zero = refl
    drain-ended (suc n) = refl

    drain-pending :
        (n : ℕ) (up : Upstream A) → drain_filtered (suc n) (none ∷ up) ≡ drain_filtered n up
    unfolding drain_filtered poll_filtered
    drain-pending n up = refl

    drain-kept :
        (n : ℕ) (a : A) (up : Upstream A)
        → p a ≡ true
        → drain_filtered (suc n) (some a ∷ up) ≡ a ∷ drain_filtered n up
    unfolding drain_filtered
    drain-kept n a up h = ap (take_next (drain_filtered n)) (poll-kept a up h)

    drain-dropped :
        (n : ℕ) (a : A) (up : Upstream A)
        → p a ≡ false
        → drain_filtered (suc n) (some a ∷ up) ≡ drain_filtered (suc n) up
    unfolding drain_filtered
    drain-dropped n a up h = ap (take_next (drain_filtered n)) (poll-dropped a up h)

    -- A consumer that polls the filtered stream more often than the upstream gives answers gets exactly
    -- the items that satisfy the predicate, in their order, whatever polls were pending.
    pub drain_filtered_lem :
        (n : ℕ) (up : Upstream A) → length up < n → drain_filtered n up ≡ filter p (items up)
    drain_filtered_lem zero up h = absurd (omega arith)
    drain_filtered_lem (suc n) [] h = drain-ended (suc n)
    drain_filtered_lem (suc n) (none ∷ up) h =
        drain-pending n up ∙ drain_filtered_lem n up (omega arith)
    drain_filtered_lem (suc n) (some a ∷ up) h = elim (Bool-cases (p a)) [
      | inl e ↦
          let rest = ap (λ l. a ∷ l) (drain_filtered_lem n up (omega arith)) in
          drain-kept n a up e ∙ rw e rest
      | inr e ↦
          let rest = drain_filtered_lem (suc n) up (omega arith) in
          drain-dropped n a up e ∙ rw e rest
    ]

  module _ (finish : List A → List A) where
    pub drain_buffered : ℕ → BufferedState A → Upstream A → List A
    drain_buffered zero s up = []
    drain_buffered (suc n) s up =
        let next = poll_buffered finish s up in
        let rest = drain_buffered n next.1.0 next.1.1 in
        elim next.0 [ Poll.pending ↦ rest | Poll.ready none ↦ [] | Poll.ready (some a) ↦ a ∷ rest ]

    drain-emitting :
        (n : ℕ) (xs : List A) (up : Upstream A)
        → length xs < n
        → drain_buffered n (BufferedState.emitting xs) up ≡ xs
    unfolding drain_buffered poll_buffered
    drain-emitting zero xs up h = absurd (omega arith)
    drain-emitting (suc n) [] up h = refl
    drain-emitting (suc n) (x ∷ xs) up h = ap (λ l. x ∷ l) (drain-emitting n xs up (omega arith))

    drain-collecting :
        (n : ℕ) (buffer : List A) (up : Upstream A)
        → length up + length (finish (buffer ++ items up)) < n
        → drain_buffered n (BufferedState.collecting buffer) up ≡ finish (buffer ++ items up)
    unfolding drain_buffered poll_buffered collect
    drain-collecting zero buffer up h = absurd (omega arith)
    drain-collecting (suc n) buffer [] h =
        let same = append-nil buffer in
        drain-emitting (suc n) (finish buffer) []
          (omega (arith, h, ap (λ b. length (finish b)) same))
        ∙ ap finish (sym same)
    drain-collecting (suc n) buffer (none ∷ up) h = drain-collecting n buffer up (omega arith)
    drain-collecting (suc n) buffer (some a ∷ up) h =
        let same = append_assoc buffer (a ∷ []) (items up) in
        drain-collecting (suc n) (buffer ++ a ∷ []) up
          (omega (arith, h, ap (λ b. length (finish b)) same))
        ∙ ap finish same

    -- A consumer that polls a buffered stream often enough gets exactly what `finish` makes of all the
    -- items of the upstream, whatever polls were pending. More polls than the upstream gives answers
    -- and `finish` gives items are enough.
    pub drain_buffered_lem :
        (n : ℕ) (up : Upstream A)
        → length up + length (finish (items up)) < n
        → drain_buffered n (BufferedState.collecting []) up ≡ finish (items up)
    drain_buffered_lem n up h = drain-collecting n [] up h
