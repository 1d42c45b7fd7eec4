-- ===== src/Modbus/Exchange/Recovery.antt =====
-- A device that refuses requests for a while.
use go_iot_client.Base.{ℕ, zero, suc, ◌+◌, ◌≤◌, ◌<◌, ◌≡◌, refl, ap, ◌∙◌, List, [], ◌∷◌, All}
use mathlib.Core.Path.{subst}
use go_iot_client.Base.Int.{pos_part}
use go_iot_client.Base.Outcome.{ok, err, M, modbus_exception, failed_after}
use go_iot_client.Base.Alike.{Alike}
use go_iot_client.Base.Words.{IsByte}
use go_iot_client.Core.{normalize}
use go_iot_client.Retry.Laws.{Falters, here, fails, attempts_first_success, attempts_exhausted}
use go_iot_client.Net.{State}
use go_iot_client.Net.Stream.{Peer, stream}
use go_iot_client.Modbus.Client.{Client}
use go_iot_client.Modbus.Frame.{check_exception}
use go_iot_client.Modbus.Frame.Rtu.{check_exception-ok}
use go_iot_client.Modbus.Frame.Stream.{exception_bit}
use go_iot_client.Modbus.Exchange.{send_pdu}
use go_iot_client.Modbus.Exchange.Stream.{Serves}
use go_iot_client.Modbus.Exchange.Refines.{Models, send_pdu-refines}

-- The device answers the PDU with `n` exceptions, one after the other, on its way from a state to another.
pub data Refuses {D : Type 0} (serve : List ℕ → D → List ℕ × D) (pdu : List ℕ)
    : ℕ → D → D → Type 0 where
  no_more : (d : D) → Refuses serve pdu zero d d
  refuses :
      {n : ℕ} {d d' : D} (f code : ℕ) (d₁ : D)
      → f < 128
      → serve pdu d ≡ ((f + 128) ∷ code ∷ [], d₁)
      → Refuses serve pdu n d₁ d'
      → Refuses serve pdu (suc n) d d'

check_exception-exception :
    (f code : ℕ) → f < 128 → check_exception ((f + 128) ∷ code ∷ []) ≡ err (modbus_exception code)
unfolding check_exception
check_exception-exception f code h = rw (exception_bit f h) refl

module _ {D : Type 0} (serve : List ℕ → D → List ℕ × D) (pdu : List ℕ) where
  -- One attempt of the master.
  abbrev try : M D (List ℕ)
  try d = (check_exception (serve pdu d).0, (serve pdu d).1)

  try-reply :
      (d d' : D) (reply : List ℕ) → serve pdu d ≡ (reply, d') → try d ≡ (check_exception reply, d')
  try-reply d d' reply e = ap (λ (a : List ℕ × D). (check_exception a.0, a.1)) e

  Refuses-Falters :
      {n : ℕ} {d d' : D} → Refuses serve pdu n d d' → Falters (λ e. e) (λ e. e) try n d d'
  Refuses-Falters (no_more d) = here d
  Refuses-Falters (refuses {d = d} f code d₁ h e more) =
      fails (modbus_exception code) d₁
        (try-reply d d₁ _ e ∙ ap (λ o. (o, d₁)) (check_exception-exception f code h))
        (Refuses-Falters more)

module _ (P : Peer) (serve : List ℕ → P.Device → List ℕ × P.Device)
    (s : State (stream P) (Client (stream P))) (pdu : List ℕ)
    (serves : Serves P s.client.mode s.client.unit_id serve) (u : IsByte s.client.unit_id)
    (empty : s.world.inbox ≡ []) (bs : All IsByte pdu) where
  abbrev retries : ℕ
  retries = pos_part (normalize s.client.retry).max_retries

  -- A device that refuses a request no more often than the client tries again, and then answers it: the request
  -- returns that answer and leaves the device in the state that it answered to. The device does with PDUs of
  -- bytes what `serve` says and replies in the client's wire mode; the PDU is of bytes, the unit id is
  -- a byte, nothing is left to read, and the client is connected or not.
  pub send_pdu-persists :
      (n function : ℕ) (rest : List ℕ) (d d' : P.Device)
      → Refuses serve pdu n s.world.device d
      → n ≤ retries
      → serve pdu d ≡ (function ∷ rest, d')
      → function < 128
      → Alike (Models P serve s.client) (send_pdu (stream P) pdu s) (ok (function ∷ rest), d')
  send_pdu-persists n function rest d d' busy few answered small =
      subst (Alike (Models P serve s.client) (send_pdu (stream P) pdu s))
        (attempts_first_success (λ e. e) (λ e. e) retries retries n (try serve pdu)
          (function ∷ rest) d' (Refuses-Falters serve pdu busy) few
          (try-reply serve pdu d d' (function ∷ rest) answered
            ∙ ap (λ o. (o, d')) (check_exception-ok function rest small)))
        (send_pdu-refines P serve s pdu serves u empty bs)

  -- A device that refuses a request each time the client tries: the request returns an error with the code of the
  -- last exception and the number of attempts, and the device got the request no more often. The device does
  -- with PDUs of bytes what `serve` says and replies in the client's wire mode; the PDU is of bytes, the unit id
  -- is a byte, nothing is left to read, and the client is connected or not.
  pub send_pdu-refused :
      (f code : ℕ) (d d' : P.Device)
      → Refuses serve pdu retries s.world.device d
      → f < 128
      → serve pdu d ≡ ((f + 128) ∷ code ∷ [], d')
      → Alike
          (Models P serve s.client)
          (send_pdu (stream P) pdu s)
          (err (failed_after (retries + 1) (modbus_exception code)), d')
  send_pdu-refused f code d d' busy small answered =
      subst (Alike (Models P serve s.client) (send_pdu (stream P) pdu s))
        (attempts_exhausted (λ e. e) (λ e. e) retries retries (try serve pdu)
          (modbus_exception code) d' (Refuses-Falters serve pdu busy)
          (try-reply serve pdu d d' _ answered
            ∙ ap (λ o. (o, d')) (check_exception-exception f code small)))
        (send_pdu-refines P serve s pdu serves u empty bs)
