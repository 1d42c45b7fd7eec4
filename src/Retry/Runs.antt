-- ===== src/Retry/Runs.antt =====
-- The retry loop against what it promises: the first success, or the last error.
use go_iot_client.Base.{ℕ, zero, suc, ◌+◌, ◌≤◌, ◌≡◌, ◌↔◌, refl, sym, ◌∙◌, arith}
use mathlib.Core.Path.{subst}
use go_iot_client.Base.Outcome.{Error, Outcome, ok, err, panic, M, failed_after}
use go_iot_client.Retry.{settle, attempts}
use go_iot_client.Retry.Laws.{Falters, here, fails, attempts_first_success, attempts_exhausted}

module _ {S A : Type 0} (closed sleep : S → S) where
  -- How a request with `left` retries may end: after at most `left` failures with a success, with an attempt that does not return,
  -- or after `left` failures with the error of one more, wrapped.
  pub data Ends (retries left : ℕ) (once : M S A) (s : S) (r : Outcome A × S) : Type 0 where
    succeeds :
        {n : ℕ} {s' : S} (a : A) (s'' : S)
        → Falters closed sleep once n s s'
        → n ≤ left
        → once s' ≡ (ok a, s'')
        → r ≡ (ok a, s'')
        → Ends retries left once s r
    panics :
        {n : ℕ} {s' : S} (s'' : S)
        → Falters closed sleep once n s s'
        → n ≤ left
        → once s' ≡ (panic, s'')
        → r ≡ (panic, s'')
        → Ends retries left once s r
    gives_up :
        {s' : S} (e : Error) (s'' : S)
        → Falters closed sleep once left s s'
        → once s' ≡ (err e, s'')
        → r ≡ (err (failed_after (retries + 1) e), closed s'')
        → Ends retries left once s r

  first_panic :
      (retries left n : ℕ) (once : M S A) {s s' : S} (s'' : S)
      → Falters closed sleep once n s s'
      → n ≤ left
      → once s' ≡ (panic, s'')
      → attempts closed sleep retries left once s ≡ (panic, s'')
  unfolding attempts
  first_panic retries zero zero once s'' (here s) h k = rw k refl
  first_panic retries (suc left) zero once s'' (here s) h k = rw k refl
  first_panic retries zero (suc n) once s'' (fails e s₁ p f) h k = absurd (omega arith)
  first_panic retries (suc left) (suc n) once s'' (fails e s₁ p f) h k =
      rw p (first_panic retries left n once s'' f (omega arith) k)

  Ends-attempts :
      (retries left : ℕ) (once : M S A) (s : S) (r : Outcome A × S)
      → Ends retries left once s r
      → attempts closed sleep retries left once s ≡ r
  Ends-attempts retries left once s r (succeeds {n = n} a s'' f h k e) =
      attempts_first_success closed sleep retries left n once a s'' f h k ∙ sym e
  Ends-attempts retries left once s r (panics {n = n} s'' f h k e) =
      first_panic retries left n once s'' f h k ∙ sym e
  Ends-attempts retries left once s r (gives_up e' s'' f k e) =
      attempts_exhausted closed sleep retries left once e' s'' f k ∙ sym e

  -- One failure more in front.
  later :
      (retries left : ℕ) (once : M S A) (s : S) (e : Error) (s₁ : S) (r : Outcome A × S)
      → once s ≡ (err e, s₁)
      → Ends retries left once (sleep (closed s₁)) r
      → Ends retries (suc left) once s r
  later retries left once s e s₁ r p (succeeds a s'' f h k q) =
      succeeds a s'' (fails e s₁ p f) (omega arith) k q
  later retries left once s e s₁ r p (panics s'' f h k q) =
      panics s'' (fails e s₁ p f) (omega arith) k q
  later retries left once s e s₁ r p (gives_up e' s'' f k q) = gives_up e' s'' (fails e s₁ p f) k q

  last_settled :
      (retries : ℕ) (once : M S A) (s : S) (o : Outcome A × S)
      → once s ≡ o
      → Ends retries zero once s
          (settle closed sleep o (λ e s'. (err (failed_after (retries + 1) e), s')))
  last_settled retries once s (ok a, s') p = succeeds a s' (here s) (omega arith) p refl
  last_settled retries once s (err e, s') p = gives_up e s' (here s) p refl
  last_settled retries once s (panic, s') p = panics s' (here s) (omega arith) p refl

  settled :
      (retries left : ℕ) (once : M S A) (s : S) (o : Outcome A × S)
      → ((s' : S) → Ends retries left once s' (attempts closed sleep retries left once s'))
      → once s ≡ o
      → Ends retries
          (suc left)
          once
          s
          (settle closed sleep o (λ e s'. attempts closed sleep retries left once (sleep s')))
  settled retries left once s (ok a, s') f p = succeeds a s' (here s) (omega arith) p refl
  settled retries left once s (err e, s') f p =
      later retries left once s e s' _ p (f (sleep (closed s')))
  settled retries left once s (panic, s') f p = panics s' (here s) (omega arith) p refl

  attempts_end :
      (retries left : ℕ) (once : M S A) (s : S)
      → Ends retries left once s (attempts closed sleep retries left once s)
  unfolding attempts
  attempts_end retries zero once s = last_settled retries once s (once s) refl
  attempts_end retries (suc left) once s =
      settled retries left once s (once s) (attempts_end retries left once) refl

  -- The loop returns what one of the three endings is, and nothing else: after at most `left` attempts
  -- that fail, each one followed by the closing and the pause, the first success, or the first attempt that does not return, or
  -- after `left` of them the error of the next, wrapped with the number of attempts.
  pub attempts-Ends :
      (retries left : ℕ) (once : M S A) (s : S) (r : Outcome A × S)
      → (attempts closed sleep retries left once s ≡ r) ↔ Ends retries left once s r
  attempts-Ends retries left once s r = (
    (λ e. subst (Ends retries left once s) e (attempts_end retries left once s)),
    Ends-attempts retries left once s r,
  )
