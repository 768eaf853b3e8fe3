-- ===== src/Health/Store/Calls.antt =====
-- What one call of `record` does to the file and the state.
use flx.Base.{
  ◌≡◌, refl, ap, ◌∙◌, ◌⊎◌, inl, inr, Bool, true, false, [], ◌∷◌, ◌++◌, Option, none, some, ℕ_eq,
  append-nil, arith, Bool-cases, ltb, length,
}
use flx.Base.Bytes.{Bytes}
use flx.Health.{HealthRecord, apply_record}
use flx.Health.Store.{
  Append, Attempt, HealthStore, record_health, record_body, record_encoded, max_record_bytes,
}
use flx.Proxy.Float.{Float}
use flx.Health.Store.Json.{Json, is_clean, both_clean}

module _ (f : Float) (json : Json f) where
  abbrev pub Event : Type 0
  Event = HealthRecord f × Attempt

  abbrev pub step : Event → HealthStore f → Bool × HealthStore f
  step (r, a) s = record_health f json.to_vec r a s

  -- What one call did: the record went to the state and the file, or nothing changed.
  abbrev pub Accepts : HealthRecord f → HealthStore f → Bool × HealthStore f → Type 0
  Accepts r s o =
      (o.0 ≡ true)
      × (o.1.state ≡ apply_record f s.state r)
      × ((body : Bytes) × ((json.to_vec r ≡ some body) × (o.1.file ≡ s.file ++ (body ++ 10 ∷ []))))

  abbrev pub Refuses : HealthStore f → Bool × HealthStore f → Type 0
  Refuses s o = (o.0 ≡ false) × (o.1 ≡ s)

  file_same : (s : HealthStore f) → record s { file = s.file ++ [] } ≡ s
  file_same s = ap (λ x. record s { file = x }) (append-nil s.file)

  retry_lem :
      (r : HealthRecord f) (body : Bytes) (s : HealthStore f) (reopened : Bool) (second : Append)
      → json.to_vec r ≡ some body
      → is_clean f second ≡ true
      → (let o =
            record_body f r
              (body ++ 10 ∷ [])
              (record { first = Append.stopped [] true; reopened = reopened; second = second })
              s in
          Accepts r s o ⊎ Refuses s o)
  unfolding record_body
  retry_lem r body s false second e h = inr (refl, file_same s)
  retry_lem r body s true Append.written e h =
      inl (refl, refl, (body, (e, ap (λ x. x ++ (body ++ 10 ∷ [])) (append-nil s.file))))
  retry_lem r body s true (Append.stopped [] shutdown) e h =
      inr (refl, ap (λ x. record s { file = x }) (append-nil (s.file ++ []) ∙ append-nil s.file))
  retry_lem r body s true (Append.stopped (b ∷ left) shutdown) e h = absurd (ground arith)

  record_body_lem :
      (r : HealthRecord f) (body : Bytes) (s : HealthStore f)
      → (first : Append) (reopened : Bool) (second : Append) → json.to_vec r ≡ some body
      → is_clean f first ≡ true
      → is_clean f second ≡ true
      → (let o =
            record_body f r
              (body ++ 10 ∷ [])
              (record { first = first; reopened = reopened; second = second })
              s in
          Accepts r s o ⊎ Refuses s o)
  unfolding record_body
  record_body_lem r body s Append.written reopened second e h i =
      inl (refl, refl, (body, (e, refl)))
  record_body_lem r body s (Append.stopped [] false) reopened second e h i = inr (refl, file_same s)
  record_body_lem r body s (Append.stopped [] true) reopened second e h i =
      retry_lem r body s reopened second e i
  record_body_lem r body s (Append.stopped (b ∷ left) shutdown) reopened second e h i =
      absurd (ground arith)

  record_encoded_lem :
      (r : HealthRecord f) (a : Attempt) (s : HealthStore f) (o : Option Bytes)
      → json.to_vec r ≡ o
      → both_clean f a ≡ true
      → Accepts r s (record_encoded f r a s o) ⊎ Refuses s (record_encoded f r a s o)
  unfolding record_encoded
  record_encoded_lem r a s none e h = inr (refl, refl)
  record_encoded_lem r a s (some body) e h =
      elim (Bool-cases (ltb max_record_bytes (length body))) [
        | inl k ↦ rw k (inr (refl, refl))
        | inr k ↦
            rw k
              (record_body_lem r body s a.first a.reopened a.second e (ground arith) (ground arith))
      ]

  pub step_lem :
      (r : HealthRecord f) (a : Attempt) (s : HealthStore f)
      → both_clean f a ≡ true
      → Accepts r s (step (r, a) s) ⊎ Refuses s (step (r, a) s)
  unfolding record_health
  step_lem r a s h = record_encoded_lem r a s (json.to_vec r) refl h
