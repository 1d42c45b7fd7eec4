-- ===== src/Retry/Alike.antt =====
-- Two retry loops in step.
use go_iot_client.Base.{ℕ, zero, suc, refl}
use go_iot_client.Base.Outcome.{Error, Outcome, ok, err, panic, M}
use go_iot_client.Base.Alike.{Alike, done-Alike}
use go_iot_client.Retry.{settle, attempts}

module _ {S T A : Type 0} (R : S → T → Type 0) (closed sleep : S → S) (closed' sleep' : T → T)
    (close_keeps : (s : S) (t : T) → R s t → R (closed s) (closed' t))
    (sleep_keeps : (s : S) (t : T) → R s t → R (sleep s) (sleep' t)) where
  settle-outcome :
      (retry : Error → S → Outcome A × S) (retry' : Error → T → Outcome A × T)
      → ((e : Error) (s : S) (t : T) → R s t → Alike R (retry e s) (retry' e t))
      → (r : Outcome A) (s : S) (t : T) → R s t
      → Alike R (settle closed sleep (r, s) retry) (settle closed' sleep' (r, t) retry')
  settle-outcome retry retry' k (ok a) s t m = (refl, m)
  settle-outcome retry retry' k (err e) s t m = k e (closed s) (closed' t) (close_keeps s t m)
  settle-outcome retry retry' k panic s t m = (refl, m)

  settle-Alike :
      (r : Outcome A × S) (r' : Outcome A × T) (retry : Error → S → Outcome A × S)
      (retry' : Error → T → Outcome A × T)
      → Alike R r r'
      → ((e : Error) (s : S) (t : T) → R s t → Alike R (retry e s) (retry' e t))
      → Alike R (settle closed sleep r retry) (settle closed' sleep' r' retry')
  settle-Alike r r' retry retry' h k =
      done-Alike R (λ x. settle closed sleep x retry) (λ y. settle closed' sleep' y retry') r r' h
        (settle-outcome retry retry' k)

  -- Attempts that are alike one by one are alike as a whole.
  pub attempts-Alike :
      (retries left : ℕ) (once : M S A) (once' : M T A)
      → ((s : S) (t : T) → R s t → Alike R (once s) (once' t))
      → (s : S) (t : T) → R s t
      → Alike R
          (attempts closed sleep retries left once s)
          (attempts closed' sleep' retries left once' t)
  unfolding attempts
  attempts-Alike retries zero once once' o s t h =
      settle-Alike (once s) (once' t) _ _ (o s t h) (λ e s' t' g. (refl, g))
  attempts-Alike retries (suc left) once once' o s t h =
      settle-Alike (once s) (once' t) _ _ (o s t h) (λ e s' t' g.
        attempts-Alike retries left once once' o (sleep s') (sleep' t') (sleep_keeps s' t' g))
