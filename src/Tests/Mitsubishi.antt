-- ===== src/Tests/Mitsubishi.antt =====
-- mitsubishi_client.go on a PLC that answers every request with the word 7.
use go_iot_client.Base.{ℕ, ◌+◌, ◌≤◌, ◌<◌, ◌≡◌, ◌≢◌, none, List, [], ◌∷◌, ◌++◌, length, arith}
use go_iot_client.Base.Int.{pos}
use go_iot_client.Base.Words.{little, words_to_bytes}
use go_iot_client.Base.Outcome.{NetError, Error, net, failed_after, ok, panic, Meets}
use go_iot_client.Value.{string}
use go_iot_client.Net.{Net, State}
use go_iot_client.Net.Stream.{Peer, stream}
use go_iot_client.Net.Stream.Laws.{stream-IsLawful, line}
use go_iot_client.Mitsubishi.Client.{Client, version_qna3e, new_mitsubishi_client}
use go_iot_client.Text.{itoa}
use go_iot_client.Mitsubishi.Client.Address.{parse_d_address}
use go_iot_client.Mitsubishi.Client.Address.Laws.{parse_d_address-itoa}
use go_iot_client.Mitsubishi.Request.{read_full, send_request}
use go_iot_client.Mitsubishi.Request.Safety.{SameSettings, send_request-Meets, read_full-Filled}
use go_iot_client.Mitsubishi.Words.{device_range, write_payload}
use go_iot_client.Mitsubishi.Words.Safety.{write_payload-cases}
use go_iot_client.Mitsubishi.Api.{read_int16, read_int32, read_float, read_string, write}
use go_iot_client.Mitsubishi.Api.Safety.{Answers, AnswersT, mitsubishi_methods-Answer}

abbrev seven : List ℕ
seven =
    0xD0 ∷ 0x00 ∷ 0x00 ∷ 0xFF ∷ 0xFF ∷ 0x03 ∷ 0x00 ∷ 0x04 ∷ 0x00 ∷ 0x00 ∷ 0x00 ∷ 0x07 ∷ 0x00 ∷ []

abbrev pub seven_peer : Peer
seven_peer = record { Device = Unit {0}; answer = λ request d. (seven, d) }

abbrev pub plc_net : Net
plc_net = stream seven_peer

abbrev pub client : Client plc_net
client = new_mitsubishi_client plc_net version_qna3e (b'p' ∷ []) (pos 5002) (pos 1500)

abbrev pub start : State plc_net (Client plc_net)
start = record { client = client; world = line seven_peer tt [] (1 ∷ 0 ∷ 4 ∷ []) }

mitsubishi_methods-Answer_example :
    AnswersT (pos 0) client (read_int16 plc_net (b'D' ∷ b'7' ∷ []) start)
    × AnswersT (pos 0) client (read_int32 plc_net (b'D' ∷ b'7' ∷ []) start)
    × AnswersT 0 client (read_float plc_net (b'D' ∷ b'7' ∷ []) start)
    × AnswersT [] client (read_string plc_net (b'D' ∷ b'7' ∷ []) (pos 3) start)
    × Answers client (write plc_net (b'D' ∷ b'7' ∷ []) (string (b'a' ∷ b'b' ∷ b'c' ∷ [])) start)
mitsubishi_methods-Answer_example =
    mitsubishi_methods-Answer plc_net (stream-IsLawful seven_peer) start (b'D' ∷ b'7' ∷ []) (pos 3)
      (string (b'a' ∷ b'b' ∷ b'c' ∷ [])) (omega arith)

send_request-Meets_example :
    Meets
      (λ _ s'. SameSettings client s'.client × (s'.client.conn ≢ none))
      (λ e s'.
        SameSettings client s'.client
        × ((last : Error) × (e ≡ failed_after (client.max_retries + 1) last)))
      (send_request plc_net 0x0401 0x0000 (device_range 7 1) (pos 5000) start)
send_request-Meets_example =
    send_request-Meets plc_net (stream-IsLawful seven_peer) start 0x0401 0x0000 (device_range 7 1)
      (pos 5000)

read_full-Filled_example :
    Meets
      (λ xs _. length xs ≡ 3)
      (λ e _. (x : NetError) × (e ≡ net x))
      (read_full plc_net tt 3 (line seven_peer tt (1 ∷ 2 ∷ []) []))
read_full-Filled_example =
    read_full-Filled plc_net (stream-IsLawful seven_peer) tt 3 (line seven_peer tt (1 ∷ 2 ∷ []) [])

abbrev two_words : List ℕ
two_words = 7 ∷ 8 ∷ []

write_payload-cases_example :
    (length two_words < 65536
      → write_payload 100 two_words
        ≡ ok (device_range 100 (length two_words) ++ words_to_bytes little two_words))
    × (65536 ≤ length two_words → write_payload 100 two_words ≡ panic)
write_payload-cases_example = write_payload-cases 100 two_words

parse_d_address-itoa_example : parse_d_address (b'D' ∷ itoa (pos 65535)) ≡ ok 65535
parse_d_address-itoa_example = parse_d_address-itoa 65535 (omega arith)
