-- ===== src/Net/Keeps.antt =====
-- What a call keeps true of the client, however it returns.
use go_iot_client.Base.{Option, arith}
use go_iot_client.Base.Outcome.{
  NetError, Outcome, ok, err, panic, lift, continue, NoPanic, Meets, continue-Meets, M,
}
use go_iot_client.Net.{Net, State, checked, on_world}

-- A call that returns with a client of which `P` holds, after a success and after an error.
abbrev pub Keeps : {N : Net} {C A : Type 0} → (C → Type 0) → Outcome A × State N C → Type 0
Keeps P r = Meets (λ _ s'. P s'.client) (λ _ s'. P s'.client) r

module _ (N : Net) {C : Type 0} (P : C → Type 0) (s : State N C) (h : P s.client) where
  pub lift-Keeps : {A : Type 0} (r : Outcome A) → NoPanic r → Keeps P (lift r s)
  lift-Keeps (ok a) n = h
  lift-Keeps (err e) n = h
  lift-Keeps panic n = n

  pub checked_then :
      {B : Type 0} (call : N.World → Option NetError × N.World) (f : Unit {0} → M (State N C) B)
      → ((s' : State N C) → P s'.client → Keeps P (f tt s'))
      → Keeps P (continue (checked N call s) f)
  checked_then call f k =
      continue-Meets (λ _ s'. P s'.client) _ _ (checked N call s) f (ground arith) (λ _. k)

  pub world_then :
      {A B : Type 0} (Q : A → Type 0) (call : M N.World A) (f : A → M (State N C) B)
      → Meets (λ a _. Q a) (λ _ _. Unit {0}) (call s.world)
      → ((a : A) (s' : State N C) → Q a → P s'.client → Keeps P (f a s'))
      → Keeps P (continue (on_world N call s) f)
  world_then Q call f g k =
      continue-Meets (λ a s'. Q a × P s'.client) _ _ (on_world N call s) f (ground arith)
        (λ a s' q. k a s' q.0 q.1)
