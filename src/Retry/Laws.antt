-- ===== src/Retry/Laws.antt =====
-- What a retry loop does with its attempts.
use go_iot_client.Base.{ℕ, zero, suc, ◌+◌, ◌≤◌, ◌≡◌, refl, arith}
use go_iot_client.Base.Outcome.{Error, Outcome, ok, err, panic, M, failed_after, Meets}
use go_iot_client.Retry.{settle, attempts}

module _ {S A : Type 0} (closed sleep : S → S) where
  -- `n` attempts that fail, each one followed by what the client does after a failure and by the pause.
  pub data Falters (once : M S A) : ℕ → S → S → Type 0 where
    here : (s : S) → Falters once zero s s
    fails :
        {n : ℕ} {s s' : S} (e : Error) (s₁ : S)
        → once s ≡ (err e, s₁)
        → Falters once n (sleep (closed s₁)) s'
        → Falters once (suc n) s s'

  -- The first success within the attempts is the result.
  pub attempts_first_success :
      (retries left n : ℕ) (once : M S A) {s s' : S} (a : A) (s'' : S)
      → Falters once n s s'
      → n ≤ left
      → once s' ≡ (ok a, s'')
      → attempts closed sleep retries left once s ≡ (ok a, s'')
  unfolding attempts
  attempts_first_success retries zero zero once a s'' (here s) h k = rw k refl
  attempts_first_success retries (suc left) zero once a s'' (here s) h k = rw k refl
  attempts_first_success retries zero (suc n) once a s'' (fails e s₁ p f) h k = absurd (omega arith)
  attempts_first_success retries (suc left) (suc n) once a s'' (fails e s₁ p f) h k =
      rw p (attempts_first_success retries left n once a s'' f (omega arith) k)

  -- Where all attempts fail, the error of the last one is the result.
  pub attempts_exhausted :
      (retries left : ℕ) (once : M S A) {s s' : S} (e : Error) (s'' : S)
      → Falters once left s s'
      → once s' ≡ (err e, s'')
      → attempts closed sleep retries left once s ≡ (err (failed_after (retries + 1) e), closed s'')
  unfolding attempts
  attempts_exhausted retries zero once e s'' (here s) k = rw k refl
  attempts_exhausted retries (suc left) once e s'' (fails e₁ s₁ p f) k =
      rw p (attempts_exhausted retries left once e s'' f k)

  module _ (I E J : S → Type 0) (P : A → S → Type 0) (close_keeps : (s : S) → E s → J (closed s))
      (sleep_keeps : (s : S) → J s → I (sleep s)) where
    abbrev Failed : ℕ → Error → S → Type 0
    Failed retries e s = J s × ((last : Error) × (e ≡ failed_after (retries + 1) last))

    settle-Meets :
        (F : Error → S → Type 0) (r : Outcome A × S) (retry : Error → S → Outcome A × S)
        → Meets P (λ _ s. E s) r
        → ((e : Error) (s : S) → J s → Meets P F (retry e s))
        → Meets P F (settle closed sleep r retry)
    settle-Meets F (ok a, s) retry h k = h
    settle-Meets F (err e, s) retry h k = k e (closed s) (close_keeps s h)
    settle-Meets F (panic, s) retry h k = h

    -- An attempt starts with `I`; where it fails it leaves `E`, and what is done then makes that `J`.
    pub attempts-Meets :
        (retries left : ℕ) (once : M S A)
        → ((s : S) → I s → Meets P (λ _ s'. E s') (once s))
        → (s : S) → I s
        → Meets P (Failed retries) (attempts closed sleep retries left once s)
    unfolding attempts
    attempts-Meets retries zero once o s h =
        settle-Meets (Failed retries) (once s) _ (o s h) λ e s' j. (j, (e, refl))
    attempts-Meets retries (suc left) once o s h =
        settle-Meets (Failed retries) (once s) _ (o s h)
          λ e s' j. attempts-Meets retries left once o (sleep s') (sleep_keeps s' j)
