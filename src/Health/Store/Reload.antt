-- ===== src/Health/Store/Reload.antt =====
-- What a later start reads back of the records that a run of the store accepted.
use flx.Base.{
  ◌≡◌, refl, ap, ◌∙◌, ◌⊎◌, inl, inr, Bool, true, false, List, [], ◌∷◌, ◌++◌, some, if◌then◌else◌,
  ℕ_eq, map, arith,
}
use flx.Base.Bytes.{Bytes}
use flx.Health.{HealthRecord, State, apply_record, apply_all}
use flx.Health.Store.{Attempt, HealthStore, restored, apply_lines, apply_line, lines, blank}
use flx.Health.Store.Lines.{ends_line, ends_line-append, lines-append, blank_object}
use flx.Proxy.Float.{Float}
use flx.Health.Store.Json.{IsCurrent, stored, Json, both_clean}
use flx.Health.Store.Calls.{Event, step, Accepts, Refuses, step_lem}

module _ (f : Float) (json : Json f) where
  unfoldable pub run : List (Event f json) → HealthStore f → HealthStore f
  run [] s = s
  run (e ∷ events) s = run events (step f json e s).1

  -- The records of the calls that returned `Ok`.
  unfoldable pub accepted : List (Event f json) → HealthStore f → List (HealthRecord f)
  accepted [] s = []
  accepted (e ∷ events) s =
      let rest = accepted events (step f json e s).1 in
      if (step f json e s).0 then e.0 ∷ rest else rest

  abbrev pub AllCurrent : List (Event f json) → Type 0
  AllCurrent [] = Unit
  AllCurrent ((r, a) ∷ events) = IsCurrent f r × (both_clean f a ≡ true) × AllCurrent events

  abbrev pub reread : HealthRecord f → HealthRecord f
  reread r = restored f (stored f json.round r)

  abbrev pub loaded : Bytes → State f
  loaded body = apply_lines f json.from_str [] (lines body)

  -- The state follows the accepted records, and the file gives back the same records after those it
  -- had.
  pub record IsReloaded (events : List (Event f json)) (s : HealthStore f) : Type 0 where
    pub state : (run events s).state ≡ apply_all f s.state (accepted events s)
    pub file :
        loaded (run events s).file ≡ apply_all f (loaded s.file) (map reread (accepted events s))
    pub whole_lines : ends_line (run events s).file ≡ true

  apply_lines-append :
      (state : State f) (before : List Bytes) (line : Bytes)
      → apply_lines f json.from_str state (before ++ line ∷ [])
        ≡ apply_line f json.from_str (apply_lines f json.from_str state before) line
  unfolding apply_lines
  apply_lines-append state [] line = refl
  apply_lines-append state (l ∷ before) line =
      apply_lines-append (apply_line f json.from_str state l) before line

  apply_line_lem :
      (r : HealthRecord f) (body : Bytes) (state : State f)
      → IsCurrent f r
      → json.to_vec r ≡ some body
      → apply_line f json.from_str state body ≡ apply_record f state (reread r)
  apply_line_lem r body state h e =
      let (rest, at) = json.to_vec-object r body e in
      let solid : blank body ≡ false = rw at (blank_object rest) in
      ground (arith, solid, json.from_str-to_vec r body h e, h.schema)

  -- One accepted record, as the file gives it back.
  loaded_next :
      (r : HealthRecord f) (s : HealthStore f) (o : Bool × HealthStore f)
      → IsCurrent f r
      → ends_line s.file ≡ true
      → Accepts f json r s o
      → (ends_line o.1.file ≡ true) × (loaded o.1.file ≡ apply_record f (loaded s.file) (reread r))
  loaded_next r s o h i (_, _, (body, (e, e'))) =
      let (no_newline, no_return) = json.to_vec_escaped r body e in
      let before = lines s.file in
      (
        rw e' (ends_line-append s.file body),
        rw (e', lines-append s.file body i no_newline no_return, apply_lines-append [] before body)
            (apply_line_lem r body (loaded s.file) h e),
      )

  -- What a call adds to the accepted records, on the state and on what the file gives back.
  accept_lem :
      (r : HealthRecord f) (ok : Bool) (acc : List (HealthRecord f)) (x y : State f)
      → (ok ≡ true) × (y ≡ apply_record f x r) ⊎ (ok ≡ false) × (y ≡ x)
      → apply_all f y acc ≡ apply_all f x (if ok then r ∷ acc else acc)
  unfolding apply_all
  accept_lem r ok acc x y (inl (a, b)) = ground (arith, a, b)
  accept_lem r ok acc x y (inr (a, b)) = ground (arith, a, b)

  accept_reread :
      (r : HealthRecord f) (ok : Bool) (acc : List (HealthRecord f)) (x y : State f)
      → (ok ≡ true) × (y ≡ apply_record f x (reread r)) ⊎ (ok ≡ false) × (y ≡ x)
      → apply_all f y (map reread acc) ≡ apply_all f x (map reread (if ok then r ∷ acc else acc))
  accept_reread r true acc x y h = accept_lem (reread r) true (map reread acc) x y h
  accept_reread r false acc x y h = accept_lem (reread r) false (map reread acc) x y h

  next-IsReloaded :
      (r : HealthRecord f) (a : Attempt) (events : List (Event f json)) (s : HealthStore f)
      → Accepts f json r s (step f json (r, a) s) ⊎ Refuses f json s (step f json (r, a) s)
      → IsCurrent f r
      → ends_line s.file ≡ true
      → (ends_line (step f json (r, a) s).1.file ≡ true
          → IsReloaded events (step f json (r, a) s).1)
      → IsReloaded ((r, a) ∷ events) s
  unfolding run accepted
  next-IsReloaded r a events s (inl did) h i next =
      let (whole, file) = loaded_next r s (step f json (r, a) s) h i did in
      let rest = next whole in
      record {
        state = rest.state ∙ accept_lem r _ _ _ _ (inl (did.0, did.1));
        file = rest.file ∙ accept_reread r _ _ _ _ (inl (did.0, file));
        whole_lines = rest.whole_lines;
      }
  next-IsReloaded r a events s (inr did) h i next =
      let file = ap (λ (x : HealthStore f). x.file) did.1 in
      let rest = next (ap ends_line file ∙ i) in
      record {
        state =
            rest.state
            ∙ accept_lem r _ _ _ _ (inr (did.0, ap (λ (x : HealthStore f). x.state) did.1));
        file = rest.file ∙ accept_reread r _ _ _ _ (inr (did.0, ap loaded file));
        whole_lines = rest.whole_lines;
      }

  -- For any calls of `record` whose records have the current schema and finite numbers and whose failed
  -- writes leave nothing in the file, on a file of whole lines: the state is what the accepted
  -- records, in order, make of the state before. A start that reads the file then applies, after
  -- what it read before the calls, the same records in the same order, up to the rounding of
  -- numbers, and the file again consists of whole lines.
  pub run-IsReloaded :
      (events : List (Event f json)) (s : HealthStore f)
      → AllCurrent events
      → ends_line s.file ≡ true
      → IsReloaded events s
  unfolding run accepted apply_all
  run-IsReloaded [] s h i = record { state = refl; file = refl; whole_lines = i }
  run-IsReloaded ((r, a) ∷ events) s (h, clean, rest) i =
      next-IsReloaded r a events s (step_lem f json r a s clean) h i (run-IsReloaded events _ rest)
