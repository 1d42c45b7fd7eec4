-- ===== src/Core/Report.antt =====
-- How a method turns the outcome of its body into a `Result` or a `ResultT`.
use go_iot_client.Base.{ℕ, List, [], ◌≡◌, ◌↔◌, true, false, none, arith}
use go_iot_client.Base.Int.{ℤ, pos}
use go_iot_client.Base.Outcome.{Error, Outcome, ok, err, panic, Meets, weaken-Meets}
use go_iot_client.Core.{Result, ResultT, new_result, fail}

module _ {S : Type 0} where
  -- `if err != nil { r.IsSucceed = false; r.Err = err.Error() }`
  abbrev pub report : (Error → Result) → Outcome (Unit {0}) × S → Outcome Result × S
  report f (ok _, s) = (ok new_result, s)
  report f (err e, s) = (ok (f e), s)
  report f (panic, s) = (panic, s)

  -- The same for a method that returns a value.
  abbrev pub finish_read : {A : Type 0} → A → Outcome A × S → Outcome (ResultT A) × S
  finish_read zero_value (ok a, s) = (ok (record { result = new_result; value = a }), s)
  finish_read zero_value (err e, s) =
      (ok (record { result = fail e new_result; value = zero_value }), s)
  finish_read zero_value (panic, s) = (panic, s)

  -- A method returns a result that says it succeeded exactly when it names no error, and `P` holds of
  -- the state in which it leaves the client.
  abbrev pub Answers : (S → Type 0) → Outcome Result × S → Type 0
  Answers P r = Meets (λ a s. ((a.is_succeed ≡ true) ↔ (a.err_msg ≡ none)) × P s) (λ _ _. ⊥) r

  -- A failed read has the zero value.
  abbrev pub AnswersT : {A : Type 0} → A → (S → Type 0) → Outcome (ResultT A) × S → Type 0
  AnswersT zero_value P r =
      Meets
        (λ a s.
          ((a.is_succeed ≡ true) ↔ (a.err_msg ≡ none))
          × (a.is_succeed ≡ false → a.value ≡ zero_value)
          × P s)
        (λ _ _. ⊥) r

  pub report-Answers :
      (P : S → Type 0) (r : Outcome (Unit {0}) × S)
      → Meets (λ _ s. P s) (λ _ s. P s) r
      → Answers P (report (λ e. fail e new_result) r)
  report-Answers P (ok _, s) h = ground arith
  report-Answers P (err e, s) h = ground arith
  report-Answers P (panic, s) h = h

  pub finish_read-AnswersT :
      {A : Type 0} (z : A) (P : S → Type 0) (r : Outcome A × S)
      → Meets (λ _ s. P s) (λ _ s. P s) r
      → AnswersT z P (finish_read z r)
  finish_read-AnswersT z P (ok a, s) h = ground arith
  finish_read-AnswersT z P (err e, s) h = ground arith
  finish_read-AnswersT z P (panic, s) h = h

  -- What is kept may be weakened.
  pub weaken-Answers :
      {P Q : S → Type 0} (f : (s : S) → P s → Q s) (r : Outcome Result × S)
      → Answers P r
      → Answers Q r
  weaken-Answers {P = P} f r h = weaken-Meets _ _ _ _ r h (λ _ s g. (g.0, f s g.1)) (λ _ _ g. g)

  pub weaken-AnswersT :
      {A : Type 0} {P Q : S → Type 0} (z : A) (f : (s : S) → P s → Q s)
      (r : Outcome (ResultT A) × S)
      → AnswersT z P r
      → AnswersT z Q r
  weaken-AnswersT z f r h = weaken-Meets _ _ _ _ r h (λ _ s g. (g.0, g.1, f s g.2)) (λ _ _ g. g)

  -- The same for the four reads of a client.
  pub weaken_reads :
      {P Q : S → Type 0} (f : (s : S) → P s → Q s) (r16 r32 : Outcome (ResultT ℤ) × S)
      (rf : Outcome (ResultT ℕ) × S) (rs : Outcome (ResultT (List ℕ)) × S)
      → AnswersT (pos 0) P r16
      → AnswersT (pos 0) P r32
      → AnswersT 0 P rf
      → AnswersT [] P rs
      → AnswersT (pos 0) Q r16 × AnswersT (pos 0) Q r32 × AnswersT 0 Q rf × AnswersT [] Q rs
  weaken_reads f r16 r32 rf rs h k l m = (
    weaken-AnswersT (pos 0) f r16 h,
    weaken-AnswersT (pos 0) f r32 k,
    weaken-AnswersT 0 f rf l,
    weaken-AnswersT [] f rs m,
  )
