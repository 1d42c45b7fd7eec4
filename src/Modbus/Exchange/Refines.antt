-- ===== src/Modbus/Exchange/Refines.antt =====
-- `sendPDU` against a master that has no wire: no framing, no connection, no bytes to read.
use go_iot_client.Base.{ℕ, ◌≡◌, refl, sym, ap, ◌∙◌, Bool, true, false, List, [], All, arith}
use mathlib.Core.Path.{subst}
use go_iot_client.Base.Int.{pos_part}
use go_iot_client.Base.Outcome.{Outcome, ok, err, panic, M}
use go_iot_client.Base.Alike.{Alike}
use go_iot_client.Base.Words.{IsByte}
use go_iot_client.Core.{normalize}
use go_iot_client.Retry.{attempts}
use go_iot_client.Retry.Alike.{attempts-Alike}
use go_iot_client.Net.{State}
use go_iot_client.Net.Stream.{Peer, stream}
use go_iot_client.Modbus.Client.{Client, close_locked}
use go_iot_client.Modbus.Frame.{check_exception}
use go_iot_client.Modbus.Exchange.{send_pdu_once, auto_close, returned, sleep, send_pdu}
use go_iot_client.Modbus.Exchange.Stream.{Serves, Kept, send_pdu_once-Replied}

-- A request and its retries on the device's own functions: an exception counts as a failed attempt.
abbrev pub master : {D : Type 0} → (List ℕ → D → List ℕ × D) → ℕ → List ℕ → M D (List ℕ)
master serve retries pdu =
    attempts (λ d. d) (λ d. d) retries retries
      (λ d. (check_exception (serve pdu d).0, (serve pdu d).1))

module _ (P : Peer) (serve : List ℕ → P.Device → List ℕ × P.Device) (c : Client (stream P)) where
  -- A client with the settings of `c` and nothing to read, and the device's state.
  abbrev pub Models : State (stream P) (Client (stream P)) → P.Device → Type 0
  Models s d = (Kept c s.client × (s.world.inbox ≡ [])) × (s.world.device ≡ d)

  pub close_locked-Models :
      (s : State (stream P) (Client (stream P))) (d : P.Device)
      → Models s d
      → Models (close_locked (stream P) s) d
  unfolding close_locked
  close_locked-Models s d h = ground arith

  auto_close-Models :
      (b : Bool) (s : State (stream P) (Client (stream P))) (d : P.Device)
      → Models s d
      → Models (auto_close (stream P) b s) d
  auto_close-Models true s d h = close_locked-Models s d h
  auto_close-Models false s d h = h

  returned-Models :
      (r : Outcome (List ℕ) × State (stream P) (Client (stream P)))
      (r' : Outcome (List ℕ) × P.Device)
      → Alike Models r r'
      → Alike Models (returned (stream P) r) r'
  returned-Models (ok xs, s) (r', d) h = (h.0, auto_close-Models s.client.auto_close s d h.1)
  returned-Models (err e, s) (r', d) h = h
  returned-Models (panic, s) (r', d) h = h

  module _ (u : IsByte c.unit_id) (serves : Serves P c.mode c.unit_id serve) where
    once-Models :
        (pdu : List ℕ)
        → All IsByte pdu
        → (s : State (stream P) (Client (stream P))) (d : P.Device) → Models s d
        → Alike Models
            (send_pdu_once (stream P) pdu s)
            (check_exception (serve pdu d).0, (serve pdu d).1)
    once-Models pdu bs s d h =
        let unit = sym h.0.0.1 in
        let served =
          subst (λ m. Serves P m s.client.unit_id serve) (sym h.0.0.0)
            (subst (λ k. Serves P c.mode k serve) unit serves) in
        let r = send_pdu_once-Replied P serve pdu s (subst IsByte unit u) bs h.0.1 served in
        (
          r.0 ∙ ap (λ e. check_exception (serve pdu e).0) h.1,
          (
            ((r.1.0 ∙ h.0.0.0, r.1.1 ∙ h.0.0.1, r.1.2 ∙ h.0.0.2), r.3),
            r.2 ∙ ap (λ e. (serve pdu e).1) h.1,
          ),
        )

    pub send_pdu-Models :
        (pdu : List ℕ)
        → All IsByte pdu
        → (s : State (stream P) (Client (stream P))) (d : P.Device) → Models s d
        → Alike Models
            (send_pdu (stream P) pdu s)
            (master serve (pos_part (normalize c.retry).max_retries) pdu d)
    unfolding send_pdu
    send_pdu-Models pdu bs s d h =
        let retries = pos_part (normalize s.client.retry).max_retries in
        subst
          (λ p.
            Alike Models (send_pdu (stream P) pdu s)
              (master serve (pos_part (normalize p).max_retries) pdu d))
          h.0.0.2
          (attempts-Alike Models (close_locked (stream P)) (sleep (stream P)) (λ e. e) (λ e. e)
            close_locked-Models (λ s' e g. g) retries retries
            (λ s'. returned (stream P) (send_pdu_once (stream P) pdu s'))
            (λ e. (check_exception (serve pdu e).0, (serve pdu e).1))
            (λ s' e g.
              returned-Models (send_pdu_once (stream P) pdu s') _ (once-Models pdu bs s' e g))
            s d h)

-- For a device that does with PDUs of bytes what `serve` says and sends the reply in the client's wire
-- mode, a client with a unit id that is a byte, connected or not, and nothing left to read: a request of
-- bytes returns what the master without a wire returns, the first reply that is no exception or the error
-- of the last exception, leaves the device where the master leaves it and nothing to read, and keeps the
-- mode, the unit id and the retry policy.
pub send_pdu-refines :
    (P : Peer) (serve : List ℕ → P.Device → List ℕ × P.Device)
    (s : State (stream P) (Client (stream P))) (pdu : List ℕ)
    → Serves P s.client.mode s.client.unit_id serve
    → IsByte s.client.unit_id
    → s.world.inbox ≡ []
    → All IsByte pdu
    → Alike
        (Models P serve s.client)
        (send_pdu (stream P) pdu s)
        (master serve (pos_part (normalize s.client.retry).max_retries) pdu s.world.device)
send_pdu-refines P serve s pdu serves u empty bs =
    send_pdu-Models P serve s.client u serves pdu bs s s.world.device
      (((refl, refl, refl), empty), refl)
