-- ===== src/Iot.antt =====
-- clients/interfaces.go: the methods that every client has, what they promise, and calls of them in any
-- order.
pub mod Reliable
pub mod Clients
pub mod Values
use go_iot_client.Base.{ℕ, ◌≡◌, ◌↔◌, Bool, true, false, Option, none, some, List, [], ◌∷◌, length}
use go_iot_client.Base.Int.{ℤ, pos}
use go_iot_client.Base.Outcome.{Outcome, ok, err, panic, M, continue, ◌>>=◌, lift, Meets}
use go_iot_client.Value.{Value}
use go_iot_client.Core.{Result, ResultT}
use go_iot_client.Core.Report.{Answers, AnswersT}

-- `IoTClient`, for a client whose fields and world are the state `S`.
pub record IotClient (S : Type 0) : Type 0 where
  pub open_ : M S Result
  pub close : M S Result
  pub connected : S → Bool
  pub read_int16 : List ℕ → M S (ResultT ℤ)
  pub read_int32 : List ℕ → M S (ResultT ℤ)
  pub read_float : List ℕ → M S (ResultT ℕ)
  pub read_string : List ℕ → ℤ → M S (ResultT (List ℕ))
  pub write : List ℕ → Value → M S Result

-- What a caller may rely on, for an invariant `Inv` of the state and the values that may be written: each
-- method returns and keeps the invariant. `Open` reports success exactly when the client is connected
-- then, and after `Close` it is not. The other methods say that they succeeded exactly when they name no
-- error, and a failed read has the zero value.
pub record IsReliable {S : Type 0} (C : IotClient S) (Inv : S → Type 0) (Writable : Value → Type 0)
    : Type 0 where
  pub opens :
      (s : S)
      → Inv s
      → Meets
          (λ r s'. Inv s' × ((r.is_succeed ≡ true) ↔ (C.connected s' ≡ true)))
          (λ _ _. ⊥)
          (C.open_ s)
  pub closes :
      (s : S) → Inv s → Meets (λ _ s'. Inv s' × (C.connected s' ≡ false)) (λ _ _. ⊥) (C.close s)
  pub reads :
      (s : S)
      → Inv s
      → (address : List ℕ) (n : ℤ)
      → AnswersT (pos 0) Inv (C.read_int16 address s)
        × AnswersT (pos 0) Inv (C.read_int32 address s)
        × AnswersT 0 Inv (C.read_float address s)
        × AnswersT [] Inv (C.read_string address n s)
  pub writes :
      (s : S)
      → Inv s
      → (address : List ℕ) (value : Value) → Writable value
      → Answers Inv (C.write address value s)

-- A call of a method with its arguments.
pub data Request : Type 0 where
  to_open to_close : Request
  to_read_int16 to_read_int32 to_read_float : List ℕ → Request
  to_read_string : List ℕ → ℤ → Request
  to_write : List ℕ → Value → Request

-- What a call returns: a result, or a result with the value that was read.
pub data Reply : Type 0 where
  done : Result → Reply
  of_int : ResultT ℤ → Reply
  of_bits : ResultT ℕ → Reply
  of_text : ResultT (List ℕ) → Reply

-- The reply to a call.
abbrev pub replied {ℓ} : {S : Type 0} {A : Type ℓ} → (A → Reply) → Outcome A × S → Outcome Reply × S
replied reply r = continue r (λ a s. (ok (reply a), s))

module _ {S : Type 0} (C : IotClient S) where
  unfoldable pub request : Request → M S Reply
  request to_open s = replied done (C.open_ s)
  request to_close s = replied done (C.close s)
  request (to_read_int16 address) s = replied of_int (C.read_int16 address s)
  request (to_read_int32 address) s = replied of_int (C.read_int32 address s)
  request (to_read_float address) s = replied of_bits (C.read_float address s)
  request (to_read_string address n) s = replied of_text (C.read_string address n s)
  request (to_write address value) s = replied done (C.write address value s)

  -- Calls one after the other. Calls from several goroutines are such a sequence too where a call holds
  -- the client's mutex.
  unfoldable pub requests : List Request → M S (List Reply)
  requests [] s = (ok [], s)
  requests (q ∷ qs) s = (request q >>= λ r. requests qs >>= λ rs. lift (ok (r ∷ rs))) s

-- What a request may write.
abbrev pub Allowed : (Value → Type 0) → Request → Type 0
Allowed Writable (to_write address value) = Writable value
Allowed Writable _ = Unit
