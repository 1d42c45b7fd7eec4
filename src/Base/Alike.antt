-- ===== src/Base/Alike.antt =====
-- Two calls, on states of their own, that return the same outcome and leave states that correspond.
use mathlib.Core.Path.{◌≡◌, refl, sym, subst}
use go_iot_client.Base.Outcome.{Outcome, ok, err, panic, M, continue}

module _ {S T : Type 0} (R : S → T → Type 0) where
  abbrev pub Alike : {A : Type 0} → Outcome A × S → Outcome A × T → Type 0
  Alike (r, s) (r', t) = (r ≡ r') × R s t

  -- What is done with an outcome and a state.
  pub done-Alike :
      {A B : Type 0} (f : Outcome A × S → Outcome B × S) (g : Outcome A × T → Outcome B × T)
      (x : Outcome A × S) (y : Outcome A × T)
      → Alike x y
      → ((r : Outcome A) (s : S) (t : T) → R s t → Alike (f (r, s)) (g (r, t)))
      → Alike (f x) (g y)
  done-Alike f g (r, s) (r', t) h k = subst (λ q. Alike (f (r, s)) (g (q, t))) h.0 (k r s t h.1)

  continue-outcome :
      {A B : Type 0} (f : A → M S B) (g : A → M T B)
      → ((a : A) (s : S) (t : T) → R s t → Alike (f a s) (g a t))
      → (r : Outcome A) (s : S) (t : T) → R s t
      → Alike (continue (r, s) f) (continue (r, t) g)
  continue-outcome f g k (ok a) s t m = k a s t m
  continue-outcome f g k (err e) s t m = (refl, m)
  continue-outcome f g k panic s t m = (refl, m)

  -- The rule for a sequence of calls.
  pub continue-Alike :
      {A B : Type 0} (r : Outcome A × S) (r' : Outcome A × T) (f : A → M S B) (g : A → M T B)
      → Alike r r'
      → ((a : A) (s : S) (t : T) → R s t → Alike (f a s) (g a t))
      → Alike (continue r f) (continue r' g)
  continue-Alike r r' f g h k =
      done-Alike (λ x. continue x f) (λ y. continue y g) r r' h (continue-outcome f g k)

  -- What follows a call that is like a success.
  pub then-Alike :
      {A B : Type 0} (r : Outcome A × S) (a : A) (t : T) (f : A → M S B) (q : Outcome B × T)
      → Alike r (ok a, t)
      → ((s : S) → R s t → Alike (f a s) q)
      → Alike (continue r f) q
  then-Alike (o, s) a t f q h k = subst (λ x. Alike (continue (x, s) f) q) (sym h.0) (k s h.1)
