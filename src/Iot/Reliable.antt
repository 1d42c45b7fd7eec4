-- ===== src/Iot/Reliable.antt =====
-- A reliable client under any sequence of calls.
use go_iot_client.Base.{suc, ◌≡◌, refl, ap, List, [], ◌∷◌, length, All, arith}
use go_iot_client.Base.Int.{pos}
use go_iot_client.Base.Outcome.{Outcome, ok, err, panic, Meets, continue-Meets}
use go_iot_client.Value.{Value}
use go_iot_client.Core.{ResultT}
use go_iot_client.Core.Report.{AnswersT}
use go_iot_client.Iot.{
  IotClient, IsReliable, Request, to_open, to_close, to_read_int16, to_read_int32, to_read_float,
  to_read_string, to_write, Reply, done, of_int, of_bits, of_text, replied, request, requests,
  Allowed,
}

module _ {S : Type 0} (C : IotClient S) (Inv : S → Type 0) (Writable : Value → Type 0)
    (reliable : IsReliable C Inv Writable) where
  abbrev Returns : {A : Type 0} → Outcome A × S → Type 0
  Returns r = Meets (λ _ s'. Inv s') (λ _ _. ⊥) r

  replied-Returns {ℓ} :
      {A : Type ℓ} (P : A → S → Type 0) (reply : A → Reply) (r : Outcome A × S)
      → Meets P (λ _ _. ⊥) r
      → ((a : A) (s : S) → P a s → Inv s)
      → Returns (replied reply r)
  replied-Returns P reply r h k = continue-Meets P (λ _ s'. Inv s') _ r _ h k

  read-Returns :
      {A : Type 0} (z : A) (reply : ResultT A → Reply) (r : Outcome (ResultT A) × S)
      → AnswersT z Inv r
      → Returns (replied reply r)
  read-Returns z reply (ok a, s) h = ground arith
  read-Returns z reply (err e, s) h = h
  read-Returns z reply (panic, s) h = h

  request-Returns : (q : Request) (s : S) → Allowed Writable q → Inv s → Returns (request C q s)
  unfolding request
  request-Returns to_open s w h =
      replied-Returns _ done (C.open_ s) (reliable.opens s h) (λ _ _ g. g.0)
  request-Returns to_close s w h =
      replied-Returns _ done (C.close s) (reliable.closes s h) (λ _ _ g. g.0)
  request-Returns (to_read_int16 address) s w h =
      read-Returns (pos 0) of_int (C.read_int16 address s) (reliable.reads s h address (pos 0)).0
  request-Returns (to_read_int32 address) s w h =
      read-Returns (pos 0) of_int (C.read_int32 address s) (reliable.reads s h address (pos 0)).1
  request-Returns (to_read_float address) s w h =
      read-Returns 0 of_bits (C.read_float address s) (reliable.reads s h address (pos 0)).2
  request-Returns (to_read_string address n) s w h =
      read-Returns [] of_text (C.read_string address n s) (reliable.reads s h address n).3
  request-Returns (to_write address value) s w h =
      replied-Returns _ done (C.write address value s) (reliable.writes s h address value w)
        (λ _ _ g. g.1)

  -- From a state with the invariant on, calls with values that may be written return, one reply for each
  -- call, and leave the invariant.
  pub requests-Returns :
      (qs : List Request) (s : S)
      → All (Allowed Writable) qs
      → Inv s
      → Meets (λ rs s'. (length rs ≡ length qs) × Inv s') (λ _ _. ⊥) (requests C qs s)
  unfolding requests
  requests-Returns [] s w h = (refl, h)
  requests-Returns (q ∷ qs) s w h =
      continue-Meets (λ (_ : Reply) s'. Inv s') (λ rs s'. (length rs ≡ length (q ∷ qs)) × Inv s')
        (λ _ _. ⊥) (request C q s) _ (request-Returns q s w.0 h)
        λ r s' h'.
          continue-Meets (λ rs s'. (length rs ≡ length qs) × Inv s') _ _ (requests C qs s') _
            (requests-Returns qs s' w.1 h') λ rs s'' h''. (ap suc h''.0, h''.1)
