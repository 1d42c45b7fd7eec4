-- ===== src/Tests/Mock.antt =====
-- The Mitsubishi client on the mock PLC.
use go_iot_client.Base.{ℕ, ◌≡◌, refl, ◌%◌, false, some, List, [], ◌∷◌, ◌++◌, arith}
use go_iot_client.Base.Int.{pos, negsuc}
use go_iot_client.Text.{
  trim_space, trim_left, trim_right, to_upper, parse_uint, parse_digits, is_nul,
}
use go_iot_client.Value.{int16, int32, float32, string}
use go_iot_client.Mitsubishi.Client.Address.{parse_upper, parse_d_address}
use go_iot_client.Mitsubishi.Api.{read_int16, read_int32, read_float, read_string}
use go_iot_client.Mock.Methods.{ReadsBack, methods_read_back}
use go_iot_client.Base.Words.{little, words_to_bytes}
use go_iot_client.Base.Slices.{word_at}
use go_iot_client.Base.Outcome.{ok, err, plc_end_code, failed_after}
use go_iot_client.Net.{Net, State}
use go_iot_client.Net.Stream.{stream}
use go_iot_client.Net.Stream.Laws.{line}
use go_iot_client.Mitsubishi.Client.{Client, version_qna3e, new_mitsubishi_client}
use go_iot_client.Mitsubishi.Request.{body_data, exchange, send_request}
use go_iot_client.Net.Stream.Steps.{Answered}
use go_iot_client.Mitsubishi.Request.Exchange.{exchange-Answered}
use go_iot_client.Mitsubishi.Words.{device_range}
use go_iot_client.Mock.{Server, cells, fail_next, injected}
use go_iot_client.Mock.Session.{mock_peer}
use go_iot_client.Mock.Exchange.{exchange-cells}
use go_iot_client.Mock.Recovery.{send_request-recovers, send_request-injected}
use go_iot_client.Mock.Memory.{exchange-written}
use go_iot_client.Tests.Mitsubishi.{seven_peer, plc_net, client, start}

abbrev mock_net : Net
mock_net = stream mock_peer

abbrev mock_client : Client mock_net
mock_client = new_mitsubishi_client mock_net version_qna3e (b'm' ∷ []) (pos 5002) (pos 0)

abbrev server : Server
server = record { words = λ addr. addr % 65536; fail_next_request = false; fail_with_end_code = 0 }

abbrev mock_start : State mock_net (Client mock_net)
mock_start = record { client = mock_client; world = line mock_peer server [] (3 ∷ 0 ∷ 1 ∷ []) }

abbrev three_words : List ℕ
three_words = 7 ∷ 65535 ∷ 300 ∷ []

length_field :
    word_at little (0xD0 ∷ 0x00 ∷ 0x00 ∷ 0xFF ∷ 0xFF ∷ 0x03 ∷ 0x00 ∷ 0x04 ∷ 0x00 ∷ []) 7 ≡ ok 4
unfolding word_at
length_field = refl

exchange-Answered_example :
    Answered seven_peer
      (body_data (0x00 ∷ 0x00 ∷ 0x07 ∷ 0x00 ∷ []))
      client
      tt
      (exchange plc_net client tt 0x0401 0x0000 (device_range 7 1) (pos 5000) start)
exchange-Answered_example =
    exchange-Answered seven_peer client 0x0401 0x0000 (device_range 7 1) (pos 5000) start
      (0xD0 ∷ 0x00 ∷ 0x00 ∷ 0xFF ∷ 0xFF ∷ 0x03 ∷ 0x00 ∷ 0x04 ∷ 0x00 ∷ [])
      (0x00 ∷ 0x00 ∷ 0x07 ∷ 0x00 ∷ []) tt refl refl refl length_field

exchange-cells_example :
    Answered mock_peer
      (ok (words_to_bytes little (cells server.words 100 2)))
      mock_client
      server
      (exchange mock_net mock_client tt 0x0401 0x0000 (device_range 100 2) (pos 5000) mock_start)
exchange-cells_example =
    exchange-cells mock_client (pos 5000) mock_start refl refl 100 (omega arith) 2 (omega arith)

exchange-written_example :
    (exchange mock_net mock_client tt 0x0401 0x0000
      (device_range 65534 3)
      (pos 5000)
      (exchange mock_net mock_client tt 0x1401 0x0000
        (device_range 65534 3 ++ words_to_bytes little three_words)
        (pos 5000)
        mock_start).1).0
    ≡ ok (words_to_bytes little three_words)
exchange-written_example =
    exchange-written mock_client (pos 5000) mock_start 65534 three_words refl refl (omega arith)
      (omega arith) (omega arith, (omega arith, (omega arith, tt)))

-- The PLC was told to fail the next request, and the client is connected.
abbrev failing : Server
failing = fail_next 0 server

abbrev connected_client : Client mock_net
connected_client = record mock_client { conn = some tt }

abbrev failing_start : State mock_net (Client mock_net)
failing_start = record {
  client = connected_client;
  world = line mock_peer failing [] (3 ∷ 0 ∷ 1 ∷ []);
}

-- The same with a client that does not try again.
abbrev impatient_start : State mock_net (Client mock_net)
impatient_start = record failing_start { client = record connected_client { max_retries = 0 } }

send_request-recovers_example :
    let (r, s') =
      send_request mock_net 0x0401 0x0000 (device_range 100 2) (pos 5000) failing_start in
    (r ≡ ok (words_to_bytes little (cells failing.words 100 2)))
    × (s'.world.device ≡ record failing { fail_next_request = false })
unfolding fail_next new_mitsubishi_client
send_request-recovers_example =
    send_request-recovers (pos 5000) failing_start 100 2 (refl, refl) refl (omega arith)
      (omega arith) (omega arith) (omega arith)

send_request-injected_example :
    let (r, s') =
      send_request mock_net 0x0401 0x0000 (device_range 100 2) (pos 5000) impatient_start in
    (r ≡ err (failed_after 1 (plc_end_code (injected failing.fail_with_end_code))))
    × (s'.world.device ≡ record failing { fail_next_request = false })
unfolding fail_next
send_request-injected_example =
    send_request-injected 0x0401 0x0000 (device_range 100 2) (omega arith) (pos 5000)
      impatient_start (refl, refl) refl (omega arith) refl

abbrev d100 : List ℕ
d100 = b'D' ∷ b'1' ∷ b'0' ∷ b'0' ∷ []

d100-parsed : parse_d_address d100 ≡ ok 100
unfolding parse_d_address parse_upper trim_space trim_right trim_left to_upper parse_uint
    parse_digits
d100-parsed = refl

methods_read_back_example :
    ReadsBack mock_start
      (refl, refl)
      d100
      100
      d100-parsed
      (int16 (negsuc 4))
      (read_int16 mock_net d100)
      (negsuc 4)
    × ReadsBack mock_start
        (refl, refl)
        d100
        100
        d100-parsed
        (int32 (negsuc 70000))
        (read_int32 mock_net d100)
        (negsuc 70000)
    × ReadsBack mock_start
        (refl, refl)
        d100
        100
        d100-parsed
        (float32 1078530011)
        (read_float mock_net d100)
        1078530011
    × ReadsBack mock_start
        (refl, refl)
        d100
        100
        d100-parsed
        (string (b'a' ∷ 0 ∷ b'b' ∷ []))
        (read_string mock_net d100 (pos 3))
        (trim_right is_nul (b'a' ∷ 0 ∷ b'b' ∷ []))
methods_read_back_example =
    methods_read_back mock_start (refl, refl) d100 100 d100-parsed (negsuc 4) (negsuc 70000)
      1078530011 (b'a' ∷ 0 ∷ b'b' ∷ []) (omega arith) (omega arith) (omega arith)
      (omega arith, (omega arith, (omega arith, tt))) (omega arith) (omega arith)
