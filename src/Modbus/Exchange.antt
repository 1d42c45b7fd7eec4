-- ===== src/Modbus/Exchange.antt =====
-- `sendPDU`: a request with its retries.
pub mod Safety
pub mod Stream
pub mod Refines
pub mod Recovery
use go_iot_client.Base.{ℕ, zero, suc, ◌+◌, Bool, true, false, List}
use go_iot_client.Base.Int.{pos_part}
use go_iot_client.Base.Outcome.{Error, Outcome, ok, err, panic, failed_after, ◌>>=◌, ◌>>◌}
use go_iot_client.Core.{normalize}
use go_iot_client.Retry.{attempts}
use go_iot_client.Net.{Net, State, checked}
use go_iot_client.Modbus.Client.{
  Client, WireMode, mode_tcp, mode_rtu_over_tcp, mode_rtu, mode_ascii, Call, the_client, the_conn,
  ensure_conn, close_locked,
}
use go_iot_client.Modbus.Frame.{send_tcp_frame, send_rtu_frame, send_ascii_frame}

module _ (N : Net) where
  -- `SetDeadline`, where the connection has it.
  abbrev set_deadline : Bool → N.Conn → Client N → Call N (Unit {0})
  set_deadline true conn c s = checked N (N.set_deadline conn c.timeout) s
  set_deadline false conn c s = (ok tt, s)

  abbrev pub send_frame : WireMode → List ℕ → Call N (List ℕ)
  send_frame mode_tcp pdu = send_tcp_frame N pdu
  send_frame mode_rtu_over_tcp pdu = send_rtu_frame N pdu
  send_frame mode_rtu pdu = send_rtu_frame N pdu
  send_frame mode_ascii pdu = send_ascii_frame N pdu

  unfoldable pub send_pdu_once : List ℕ → Call N (List ℕ)
  send_pdu_once pdu = do
    ensure_conn N
    c ← the_client N
    conn ← the_conn N
    set_deadline (N.has_deadline conn) conn c
    send_frame c.mode pdu

  abbrev pub auto_close : Bool → State N (Client N) → State N (Client N)
  auto_close true s = close_locked N s
  auto_close false s = s

  -- `return out, nil`
  abbrev pub returned :
      Outcome (List ℕ) × State N (Client N) → Outcome (List ℕ) × State N (Client N)
  returned (ok out, s) = (ok out, auto_close s.client.auto_close s)
  returned (err e, s) = (err e, s)
  returned (panic, s) = (panic, s)

  abbrev pub sleep : State N (Client N) → State N (Client N)
  sleep s = record s { world = N.sleep (normalize s.client.retry).retry_delay s.world }

  unfoldable pub send_pdu : List ℕ → Call N (List ℕ)
  send_pdu pdu s =
      let retries = pos_part (normalize s.client.retry).max_retries in
      attempts (close_locked N) sleep retries retries (λ s'. returned (send_pdu_once pdu s')) s
