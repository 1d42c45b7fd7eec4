-- ===== src/Tests/Busy.antt =====
-- A device that is busy for some requests, behind an RTU connection.
use go_iot_client.Base.{ℕ, zero, suc, ◌≡◌, refl, false, none, some, List, [], ◌∷◌, arith}
use go_iot_client.Base.Outcome.{ok, err, modbus_exception, failed_after}
use go_iot_client.Base.Alike.{Alike}
use go_iot_client.Core.{normalize}
use go_iot_client.Net.{State}
use go_iot_client.Net.Stream.{Peer, stream}
use go_iot_client.Net.Stream.Laws.{line}
use go_iot_client.Modbus.Client.{
  Client, mode_rtu, mode_rtu_over_tcp, tcp_dial, default_timeout, default_retry, zero_mode,
}
use go_iot_client.Modbus.Frame.Wire.{framed}
use go_iot_client.Modbus.Frame.Stream.{IsReply, exception, counted}
use go_iot_client.Modbus.Exchange.{send_pdu}
use go_iot_client.Modbus.Exchange.Stream.{Serves}
use go_iot_client.Modbus.Exchange.Refines.{Models}
use go_iot_client.Modbus.Exchange.Recovery.{
  Refuses, no_more, refuses, send_pdu-persists, send_pdu-refused,
}

-- The exception 6 while the device is busy, then one register.
abbrev serve_busy : List ℕ → ℕ → List ℕ × ℕ
serve_busy pdu zero = (0x03 ∷ 2 ∷ 0 ∷ 7 ∷ [], zero)
serve_busy pdu (suc n) = (0x83 ∷ 6 ∷ [], n)

abbrev busy_peer : Peer
busy_peer = record {
  Device = ℕ;
  answer = λ frame n. (framed mode_rtu 0 1 (serve_busy frame n).0, (serve_busy frame n).1);
}

serve_busy-IsReply : (pdu : List ℕ) (n : ℕ) → IsReply (serve_busy pdu n).0
serve_busy-IsReply pdu zero = counted 3 (0 ∷ 7 ∷ []) refl (omega arith) (omega arith)
serve_busy-IsReply pdu (suc n) = exception 3 6 (omega arith) (omega arith)

same_reply :
    (frame pdu : List ℕ) (n : ℕ)
    → busy_peer.answer frame n ≡ (framed mode_rtu 0 1 (serve_busy pdu n).0, (serve_busy pdu n).1)
same_reply frame pdu zero = refl
same_reply frame pdu (suc n) = refl

busy_peer-Serves : Serves busy_peer mode_rtu_over_tcp 1 serve_busy
busy_peer-Serves pdu bs trans_id small n =
    (serve_busy-IsReply pdu n, same_reply (framed mode_rtu 0 1 pdu) pdu n)

abbrev busy_client : Client (stream busy_peer)
busy_client = record {
  endpoint = b'h' ∷ [];
  mode = mode_rtu_over_tcp;
  unit_id = 1;
  timeout = default_timeout;
  retry = default_retry;
  trans_id = 0;
  conn = none;
  auto_close = false;
  dial = some tcp_dial;
  serial_mode = zero_mode;
}

abbrev busy_for : ℕ → State (stream busy_peer) (Client (stream busy_peer))
busy_for n = record { client = busy_client; world = line busy_peer n [] [] }

abbrev one_register : List ℕ
one_register = 0x03 ∷ 0 ∷ 9 ∷ 0 ∷ 1 ∷ []

twice : (d : ℕ) → Refuses serve_busy one_register 2 (suc (suc d)) d
twice d = refuses 3 6 (suc d) (omega arith) refl (refuses 3 6 d (omega arith) refl (no_more d))

send_pdu-persists_example :
    Alike
      (Models busy_peer serve_busy busy_client)
      (send_pdu (stream busy_peer) one_register (busy_for 2))
      (ok (0x03 ∷ 2 ∷ 0 ∷ 7 ∷ []), 0)
unfolding normalize
send_pdu-persists_example =
    send_pdu-persists busy_peer serve_busy (busy_for 2) one_register busy_peer-Serves (omega arith)
      refl (omega arith) 2 0x03 (2 ∷ 0 ∷ 7 ∷ []) 0 0 (twice 0) (omega arith) refl (omega arith)

send_pdu-refused_example :
    Alike
      (Models busy_peer serve_busy busy_client)
      (send_pdu (stream busy_peer) one_register (busy_for 5))
      (err (failed_after 3 (modbus_exception 6)), 2)
unfolding normalize
send_pdu-refused_example =
    send_pdu-refused busy_peer serve_busy (busy_for 5) one_register busy_peer-Serves (omega arith)
      refl (omega arith) 3 6 3 2 (twice 3) (omega arith) refl
