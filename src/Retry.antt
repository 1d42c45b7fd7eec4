-- ===== src/Retry.antt =====
-- The retry loop of the clients: `for i := 0; i <= policy.MaxRetries; i++`.
pub mod Alike
pub mod Laws
pub mod Runs
use go_iot_client.Base.{ℕ, zero, suc, ◌+◌}
use go_iot_client.Base.Outcome.{Error, Outcome, ok, err, panic, M, failed_after}

-- `closed` is what a client does after a failed attempt, `sleep` what it does before the next one.
module _ {S A : Type 0} (closed sleep : S → S) where
  -- `return resp, nil`, or what follows a failure.
  abbrev pub settle : Outcome A × S → (Error → S → Outcome A × S) → Outcome A × S
  settle (ok a, s) retry = (ok a, s)
  settle (err e, s) retry = retry e (closed s)
  settle (panic, s) retry = (panic, s)

  -- The loop, by the attempts left after this one.
  unfoldable pub attempts : ℕ → ℕ → M S A → M S A
  attempts retries zero once s = settle (once s) (λ e s'. (err (failed_after (retries + 1) e), s'))
  attempts retries (suc left) once s =
      settle (once s) (λ e s'. attempts retries left once (sleep s'))
