-- ===== src/Tests/Modbus.antt =====
-- clients/modbus/stub_clients.go on a device that holds 42 in its register.
use go_iot_client.Base.{ℕ, ◌≡◌, ◌≢◌, ◌↔◌, refl, true, arith, none, List, [], ◌∷◌, ◌++◌}
use go_iot_client.Base.Int.{pos, negsuc}
use go_iot_client.Base.Words.{little, put_uint16}
use go_iot_client.Base.Slices.{index, slice, word_at}
use go_iot_client.Base.Outcome.{ok, Meets}
use go_iot_client.Core.{RetryPolicy}
use go_iot_client.Value.{int16}
use go_iot_client.Net.{Net, State, SerialMode, even_parity, one_stop_bit}
use go_iot_client.Net.Stream.{Peer, stream}
use go_iot_client.Net.Stream.Laws.{stream-IsLawful, line}
use go_iot_client.Modbus.Checksum.{crc16, lrc}
use go_iot_client.Modbus.Checksum.Crc.{crc16_one_byte, crc16_residue}
use go_iot_client.Modbus.Checksum.Lrc.{lrc_one_byte}
use go_iot_client.Modbus.Client.{
  Client, new_tcp_client, new_rtu_over_tcp_client, new_rtu_client, new_ascii_client, open_,
}
use go_iot_client.Modbus.Client.Invariant.{IsValid, constructors-IsValid, open-Meets}
use go_iot_client.Modbus.Frame.{check_exception, rtu_frame, rtu_pdu, ascii_frame, ascii_line_pdu}
use go_iot_client.Modbus.Frame.Rtu.{rtu_pdu-rejects_one_byte, rtu_pdu-rtu_frame}
use go_iot_client.Modbus.Frame.Ascii.{ascii_line_pdu-ascii_frame}
use go_iot_client.Modbus.Exchange.{send_pdu}
use go_iot_client.Modbus.Exchange.Safety.{Request, send_pdu-Request}
use go_iot_client.Modbus.Api.{read_int16, read_int32, read_float, read_string, write}
use go_iot_client.Iot.{IsReliable}
use go_iot_client.Modbus.Public.{
  tcp_client, rtu_over_tcp_client, rtu_client, ascii_client, public_clients-IsReliable,
}
use go_iot_client.Modbus.Api.Safety.{Answers, AnswersT, methods-Answer}

-- A device that answers the first request with the value 42.
abbrev register_peer : Peer
register_peer = record {
  Device = Unit {0};
  answer = λ request d.
      (0x00 ∷ 0x01 ∷ 0x00 ∷ 0x00 ∷ 0x00 ∷ 0x05 ∷ 0x01 ∷ 0x03 ∷ 0x02 ∷ 0x00 ∷ 0x2A ∷ [], d);
}

abbrev device_net : Net
device_net = stream register_peer

abbrev endpoint : List ℕ
endpoint = b'h' ∷ b':' ∷ b'5' ∷ b'0' ∷ b'2' ∷ []

abbrev tcp : Client device_net
tcp = new_tcp_client device_net endpoint

-- A client that is not connected yet, and a device that sends one or two bytes at a time.
abbrev start : State device_net (Client device_net)
start = record { client = tcp; world = line register_peer tt [] (1 ∷ 0 ∷ 1 ∷ []) }

tcp-IsValid : IsValid tcp
tcp-IsValid = (constructors-IsValid device_net endpoint).0

abbrev eager : RetryPolicy
eager = record { max_retries = negsuc 0; retry_delay = pos 0 }

abbrev even_mode : SerialMode
even_mode = record {
  baud_rate = 9600;
  data_bits = 8;
  parity = even_parity;
  stop_bits = one_stop_bit;
}

open-Meets_example :
    Meets
      (λ r s'.
        IsValid s'.client
        × ((r.is_succeed ≡ true) ↔ (s'.client.conn ≢ none))
        × ((r.err_code ≡ 408) ↔ (s'.client.conn ≡ none)))
      (λ _ _. ⊥)
      (open_ device_net start)
open-Meets_example = open-Meets device_net (stream-IsLawful register_peer) start tcp-IsValid

methods-Answer_example :
    AnswersT (pos 0) tcp (read_int16 device_net (b'7' ∷ []) start)
    × AnswersT (pos 0) tcp (read_int32 device_net (b'7' ∷ []) start)
    × AnswersT 0 tcp (read_float device_net (b'7' ∷ []) start)
    × AnswersT [] tcp (read_string device_net (b'7' ∷ []) (pos 3) start)
    × Answers tcp (write device_net (b'7' ∷ []) (int16 (negsuc 4)) start)
methods-Answer_example =
    methods-Answer device_net (stream-IsLawful register_peer) start tcp-IsValid (b'7' ∷ []) (pos 3)
      (int16 (negsuc 4))

send_pdu-Request_example :
    Request tcp (send_pdu device_net (0x03 ∷ 0x00 ∷ 0x07 ∷ 0x00 ∷ 0x01 ∷ []) start)
send_pdu-Request_example =
    send_pdu-Request device_net (stream-IsLawful register_peer)
      (0x03 ∷ 0x00 ∷ 0x07 ∷ 0x00 ∷ 0x01 ∷ []) start tcp-IsValid

-- The message of the Modbus documentation, with its checksum.
abbrev message : List ℕ
message = 0x01 ∷ 0x03 ∷ 0x00 ∷ 0x00 ∷ 0x00 ∷ 0x0A ∷ []

crc16-message : crc16 message ≡ 0xCDC5
unfolding crc16
crc16-message = refl

crc16_one_byte_example :
    crc16 ((0x01 ∷ 0x03 ∷ []) ++ (0x0A ∷ (0x00 ∷ [])))
    ≢ crc16 ((0x01 ∷ 0x03 ∷ []) ++ (0x0B ∷ (0x00 ∷ [])))
crc16_one_byte_example =
    crc16_one_byte (0x01 ∷ 0x03 ∷ []) (0x00 ∷ []) 0x0A 0x0B (omega arith, (omega arith, tt))
      (omega arith, tt) (omega arith) (omega arith) (omega arith)

crc16_residue_example : crc16 (message ++ put_uint16 little (crc16 message)) ≡ 0
crc16_residue_example =
    crc16_residue message
      (omega arith, (omega arith, (omega arith, (omega arith, (omega arith, (omega arith, tt))))))

lrc_one_byte_example :
    lrc ((0x01 ∷ []) ++ (0x0A ∷ (0x00 ∷ []))) ≢ lrc ((0x01 ∷ []) ++ (0x0B ∷ (0x00 ∷ [])))
lrc_one_byte_example =
    lrc_one_byte (0x01 ∷ []) (0x00 ∷ []) 0x0A 0x0B (omega arith) (omega arith) (omega arith)

rtu_pdu-rtu_frame_example :
    rtu_pdu 0x01 (rtu_frame 0x01 (0x03 ∷ 0x02 ∷ 0x00 ∷ 0x2A ∷ []))
    ≡ ok (0x03 ∷ 0x02 ∷ 0x00 ∷ 0x2A ∷ [])
rtu_pdu-rtu_frame_example =
    rtu_pdu-rtu_frame 0x01 0x03 (0x02 ∷ 0x00 ∷ 0x2A ∷ []) (omega arith) (omega arith)
      (omega arith, (omega arith, (omega arith, tt))) (omega arith)

-- The response with the value 42, its checksum included, and the same with 43 in its place.
accepted :
    rtu_pdu 0x01 ((0x01 ∷ 0x03 ∷ 0x02 ∷ 0x00 ∷ []) ++ (0x2A ∷ (0x39 ∷ 0x9B ∷ [])))
    ≡ ok (0x03 ∷ 0x02 ∷ 0x00 ∷ 0x2A ∷ [])
unfolding rtu_pdu check_exception crc16 index word_at slice
accepted = refl

rtu_pdu-rejects_one_byte_example :
    rtu_pdu 0x01 ((0x01 ∷ 0x03 ∷ 0x02 ∷ 0x00 ∷ []) ++ (0x2B ∷ (0x39 ∷ 0x9B ∷ [])))
    ≢ ok (0x03 ∷ 0x02 ∷ 0x00 ∷ 0x2B ∷ [])
rtu_pdu-rejects_one_byte_example =
    rtu_pdu-rejects_one_byte 0x01 (0x01 ∷ 0x03 ∷ 0x02 ∷ 0x00 ∷ []) (0x39 ∷ 0x9B ∷ []) 0x2A 0x2B
      (0x03 ∷ 0x02 ∷ 0x00 ∷ 0x2A ∷ []) (0x03 ∷ 0x02 ∷ 0x00 ∷ 0x2B ∷ [])
      (omega arith, (omega arith, (omega arith, (omega arith, tt))))
      (omega arith, (omega arith, tt)) (omega arith) (omega arith) (omega arith) accepted

ascii_line_pdu-ascii_frame_example :
    ascii_line_pdu 0x01 (ascii_frame 0x01 (0x03 ∷ 0x02 ∷ 0x00 ∷ 0x2A ∷ []))
    ≡ ok (0x03 ∷ 0x02 ∷ 0x00 ∷ 0x2A ∷ [])
ascii_line_pdu-ascii_frame_example =
    ascii_line_pdu-ascii_frame 0x01 0x03 (0x02 ∷ 0x00 ∷ 0x2A ∷ []) (omega arith) (omega arith)
      (omega arith, (omega arith, (omega arith, tt)))

public_clients-IsReliable_example :
    (IsReliable (tcp_client device_net) (λ s. IsValid s.client.inner) (λ _. Unit)
      × IsReliable (rtu_over_tcp_client device_net) (λ s. IsValid s.client.inner) (λ _. Unit)
      × IsReliable (rtu_client device_net) (λ s. IsValid s.client.inner) (λ _. Unit)
      × IsReliable (ascii_client device_net) (λ s. IsValid s.client.inner) (λ _. Unit))
    × (IsValid (new_tcp_client device_net endpoint)
        × IsValid (new_rtu_over_tcp_client device_net endpoint)
        × IsValid (new_rtu_client device_net endpoint)
        × IsValid (new_ascii_client device_net endpoint))
public_clients-IsReliable_example =
    public_clients-IsReliable device_net endpoint (stream-IsLawful register_peer)
