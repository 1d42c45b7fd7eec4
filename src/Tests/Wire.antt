-- ===== src/Tests/Wire.antt =====
-- The Modbus clients in two wire modes on a device that holds registers.
use go_iot_client.Base.{ℕ, ◌*◌, ◌≡◌, refl, false, none, some, List, [], ◌∷◌, arith}
use go_iot_client.Base.Int.{pos, negsuc, pos_part}
use go_iot_client.Base.Outcome.{ok}
use go_iot_client.Base.Alike.{Alike}
use go_iot_client.Text.{trim_space, trim_left, trim_right, is_nul, parse_uint, parse_digits}
use go_iot_client.Value.{int16, int32, float32, string}
use go_iot_client.Core.{normalize}
use go_iot_client.Net.{State}
use go_iot_client.Net.Stream.{stream}
use go_iot_client.Net.Stream.Laws.{line}
use go_iot_client.Modbus.Client.{
  Client, mode_tcp, mode_rtu, tcp_dial, serial_dial, default_timeout, default_retry, zero_mode,
}
use go_iot_client.Modbus.Exchange.{send_pdu}
use go_iot_client.Modbus.Exchange.Refines.{Models, master, send_pdu-refines}
use go_iot_client.Modbus.Registers.Equivalent.{behind, Match, IsPair}
use go_iot_client.Modbus.Api.{parse_address, read_int16, read_int32, read_float, read_string, write}
use go_iot_client.Modbus.Api.Equivalent.{methods-equivalent}
use go_iot_client.Modbus.Api.ReadBack.{ReadsBack, modbus_methods_read_back}
use go_iot_client.Iot.{
  Request, to_open, to_write, to_read_int32, to_close, to_read_string, requests,
}
use go_iot_client.Modbus.Reliable.{modbus_client}
use go_iot_client.Modbus.Sessions.{sessions-equivalent}
use go_iot_client.Tests.Bank.{
  registers, serve_bank, serve_bank-IsBank, answer_tcp, answer_rtu, tcp_peer, rtu_peer,
  tcp_peer-Serves, rtu_peer-Serves,
}

-- The next transaction id of this client is 0 again.
abbrev tcp_client : Client (stream tcp_peer)
tcp_client = record {
  endpoint = b'h' ∷ b':' ∷ b'5' ∷ b'0' ∷ b'2' ∷ [];
  mode = mode_tcp;
  unit_id = 17;
  timeout = default_timeout;
  retry = default_retry;
  trans_id = 65535;
  conn = none;
  auto_close = false;
  dial = some tcp_dial;
  serial_mode = zero_mode;
}

abbrev rtu_client : Client (stream rtu_peer)
rtu_client = record {
  endpoint = b't' ∷ b't' ∷ b'y' ∷ [];
  mode = mode_rtu;
  unit_id = 1;
  timeout = default_timeout;
  retry = default_retry;
  trans_id = 0;
  conn = some tt;
  auto_close = false;
  dial = some serial_dial;
  serial_mode = zero_mode;
}

abbrev held : ℕ → ℕ
held addr = addr * 7

abbrev tcp_start : State (stream tcp_peer) (Client (stream tcp_peer))
tcp_start = record { client = tcp_client; world = line tcp_peer held [] (2 ∷ 0 ∷ []) }

abbrev rtu_start : State (stream rtu_peer) (Client (stream rtu_peer))
rtu_start = record { client = rtu_client; world = line rtu_peer held [] [] }

abbrev two_registers : List ℕ
two_registers = 0x03 ∷ 0 ∷ 100 ∷ 0 ∷ 2 ∷ []

send_pdu-refines_example :
    Alike
      (Models tcp_peer serve_bank tcp_client)
      (send_pdu (stream tcp_peer) two_registers tcp_start)
      (master serve_bank (pos_part (normalize default_retry).max_retries) two_registers held)
send_pdu-refines_example =
    send_pdu-refines tcp_peer serve_bank tcp_start two_registers (tcp_peer-Serves 17) (omega arith)
      refl (omega arith)

tcp_and_rtu : IsPair answer_tcp answer_rtu serve_bank tcp_client rtu_client
tcp_and_rtu = record {
  serves = tcp_peer-Serves 17;
  serves' = rtu_peer-Serves 1;
  unit = omega arith;
  unit' = omega arith;
  same_retry = refl;
}

abbrev d100 : List ℕ
d100 = b'1' ∷ b'0' ∷ b'0' ∷ []

abbrev Matched :
    State (behind answer_tcp) (Client (behind answer_tcp))
    → State (behind answer_rtu) (Client (behind answer_rtu))
    → Type 0
Matched = Match answer_tcp answer_rtu serve_bank tcp_client rtu_client

methods-equivalent_example :
    Alike Matched
      (read_int16 (behind answer_tcp) d100 tcp_start)
      (read_int16 (behind answer_rtu) d100 rtu_start)
    × Alike Matched
        (read_int32 (behind answer_tcp) d100 tcp_start)
        (read_int32 (behind answer_rtu) d100 rtu_start)
    × Alike Matched
        (read_float (behind answer_tcp) d100 tcp_start)
        (read_float (behind answer_rtu) d100 rtu_start)
    × Alike Matched
        (read_string (behind answer_tcp) d100 (pos 4) tcp_start)
        (read_string (behind answer_rtu) d100 (pos 4) rtu_start)
    × Alike Matched
        (write (behind answer_tcp) d100 (int32 (negsuc 4)) tcp_start)
        (write (behind answer_rtu) d100 (int32 (negsuc 4)) rtu_start)
methods-equivalent_example =
    methods-equivalent answer_tcp answer_rtu serve_bank tcp_client rtu_client tcp_and_rtu tcp_start
      rtu_start d100 (pos 4) (int32 (negsuc 4))
      (((refl, refl, refl), refl), ((refl, refl, refl), refl), refl)

abbrev calls : List Request
calls =
    to_open
    ∷ to_write d100 (int32 (negsuc 70000))
    ∷ to_read_int32 d100
    ∷ to_close
    ∷ to_read_string d100 (pos 4)
    ∷ []

sessions-equivalent_example :
    Alike Matched
      (requests (modbus_client (behind answer_tcp)) calls tcp_start)
      (requests (modbus_client (behind answer_rtu)) calls rtu_start)
sessions-equivalent_example =
    sessions-equivalent answer_tcp answer_rtu serve_bank tcp_client rtu_client tcp_and_rtu calls
      tcp_start rtu_start (((refl, refl, refl), refl), ((refl, refl, refl), refl), refl)

d100-parsed : parse_address d100 ≡ ok 100
unfolding parse_address trim_space trim_right trim_left parse_uint parse_digits
d100-parsed = refl

abbrev text : List ℕ
text = b'a' ∷ 0 ∷ b'b' ∷ []

modbus_methods_read_back_example :
    ReadsBack rtu_peer serve_bank registers serve_bank-IsBank rtu_start
      (omega arith)
      (rtu_peer-Serves 1)
      refl
      d100
      100
      d100-parsed
      (int16 (negsuc 4))
      (read_int16 (stream rtu_peer) d100)
      (negsuc 4)
    × ReadsBack rtu_peer serve_bank registers serve_bank-IsBank rtu_start
        (omega arith)
        (rtu_peer-Serves 1)
        refl
        d100
        100
        d100-parsed
        (int32 (negsuc 70000))
        (read_int32 (stream rtu_peer) d100)
        (negsuc 70000)
    × ReadsBack rtu_peer serve_bank registers serve_bank-IsBank rtu_start
        (omega arith)
        (rtu_peer-Serves 1)
        refl
        d100
        100
        d100-parsed
        (float32 1078530011)
        (read_float (stream rtu_peer) d100)
        1078530011
    × ReadsBack rtu_peer serve_bank registers serve_bank-IsBank rtu_start
        (omega arith)
        (rtu_peer-Serves 1)
        refl
        d100
        100
        d100-parsed
        (string text)
        (read_string (stream rtu_peer) d100 (pos 3))
        (trim_right is_nul text)
modbus_methods_read_back_example =
    modbus_methods_read_back rtu_peer serve_bank registers serve_bank-IsBank rtu_start (omega arith)
      (rtu_peer-Serves 1) refl d100 100 d100-parsed (negsuc 4) (negsuc 70000) 1078530011 text
      (omega arith) (omega arith) (omega arith) (omega arith, (omega arith, (omega arith, tt)))
      (omega arith) (omega arith) (omega arith) (omega arith)
