-- ===== src/Tests/Plc.antt =====
-- The clients of clients/plc on small devices, and the retry loop.
use go_iot_client.Base.{
  ℕ, zero, suc, ◌+◌, ◌<◌, ◌≡◌, ◌↔◌, refl, none, some, List, [], ◌∷◌, ◌++◌, length, replicate, ◌==◌,
  if◌then◌else◌, arith,
}
use go_iot_client.Base.Int.{pos, pos_part}
use go_iot_client.Base.Outcome.{Error, unsupported_type, Outcome, ok, err, Meets, failed_after}
use go_iot_client.Base.Slices.{word_at, slice}
use go_iot_client.Value.{int16}
use go_iot_client.Text.{itoa}
use go_iot_client.Core.{normalize}
use go_iot_client.Core.Report.{Answers, AnswersT}
use go_iot_client.Retry.{attempts}
use go_iot_client.Retry.Runs.{Ends, attempts-Ends}
use go_iot_client.Net.{Net, State}
use go_iot_client.Net.Stream.{Peer, stream}
use go_iot_client.Net.Stream.Laws.{stream-IsLawful, line}
use go_iot_client.Omron.Client as OmronClient
use go_iot_client.Omron.Client.Safety as OmronSafety
use go_iot_client.Omron.Address as OmronAddress
use go_iot_client.Omron.Address.Laws.{parse_omron_address-itoa}
use go_iot_client.Omron.Api as OmronApi
use go_iot_client.Omron.Api.Safety.{omron_methods-Answer}
use go_iot_client.AllenBradley.Client.{Client, new_allen_bradley_client}
use go_iot_client.AllenBradley.Client.Safety.{Same, IsRegistered, Linked}
use go_iot_client.AllenBradley.Frame.{build_read_command, build_write_command}
use go_iot_client.AllenBradley.Frame.Lengths.{Framed, allen_commands-Framed}
use go_iot_client.AllenBradley.Command.{read_data, send_command}
use go_iot_client.AllenBradley.Command.Safety.{allen_send_command-Meets}
use go_iot_client.AllenBradley.Api.{read_int16, read_int32, read_float, read_string, write}
use go_iot_client.AllenBradley.Api.Safety.{allen_methods-Answer}

abbrev endpoint : List ℕ
endpoint = b'p' ∷ b':' ∷ b'1' ∷ []

-- A controller that gives out the session 5, and holds the value 42.
abbrev pub controller_answer : List ℕ → List ℕ
controller_answer [] = []
controller_answer (c ∷ rest) =
    if c == 0x65
    then 0x65 ∷ 0 ∷ 4 ∷ 0 ∷ 5 ∷ replicate 23 0
    else (0x6F ∷ 0 ∷ 24 ∷ 0 ∷ 5 ∷ replicate 33 0) ++ (8 ∷ 0 ∷ replicate 6 0 ++ (42 ∷ 0 ∷ []))

abbrev pub controller : Peer
controller = record { Device = Unit {0}; answer = λ request d. (controller_answer request, d) }

abbrev controller_net : Net
controller_net = stream controller

abbrev allen : Client controller_net
allen = new_allen_bradley_client controller_net endpoint

abbrev allen_start : State controller_net (Client controller_net)
allen_start = record { client = allen; world = line controller tt [] (1 ∷ 0 ∷ 4 ∷ []) }

abbrev tag : List ℕ
tag = b't' ∷ b'a' ∷ b'g' ∷ []

allen-IsRegistered : IsRegistered allen
unfolding new_allen_bradley_client
allen-IsRegistered h = absurd (h refl)

allen_send_command-Meets_example :
    Meets
      (λ _ s'. Linked allen s'.client)
      (λ e s'.
        (Same allen s'.client × (s'.client.conn ≡ none))
        × ((last : Error) × (e
              ≡ failed_after (pos_part (normalize allen.retry).max_retries + 1) last)))
      (send_command controller_net (build_read_command 0 0 tag 2) allen_start)
allen_send_command-Meets_example =
    allen_send_command-Meets controller_net (stream-IsLawful controller) allen_start
      (build_read_command 0 0 tag 2) allen-IsRegistered

allen_methods-Answer_example :
    let K = λ (s' : State controller_net (Client controller_net)).
      Same allen s'.client × IsRegistered s'.client in
    AnswersT (pos 0) K (read_int16 controller_net tag allen_start)
    × AnswersT (pos 0) K (read_int32 controller_net tag allen_start)
    × AnswersT 0 K (read_float controller_net tag allen_start)
    × AnswersT [] K (read_string controller_net tag (pos 3) allen_start)
    × Answers K (write controller_net tag (int16 (pos 7)) allen_start)
allen_methods-Answer_example =
    allen_methods-Answer controller_net (stream-IsLawful controller) allen_start allen-IsRegistered
      tag (pos 3) (int16 (pos 7))

allen_commands-Framed_example :
    Framed (build_read_command 5 0 tag 2)
    × (Framed (build_write_command 5 0 tag 0xC3 (7 ∷ 0 ∷ []) 2)
        ↔ (length (build_write_command 5 0 tag 0xC3 (7 ∷ 0 ∷ []) 2) < 65560))
allen_commands-Framed_example = allen_commands-Framed 5 0 tag 0xC3 (7 ∷ 0 ∷ []) 2 (omega arith)

-- A PLC that answers everything with the same bytes, which are no FINS frame.
abbrev talker : Peer
talker = record { Device = Unit {0}; answer = λ request d. (1 ∷ 2 ∷ 3 ∷ [], d) }

abbrev talker_net : Net
talker_net = stream talker

abbrev omron : OmronClient.Client talker_net
omron = OmronClient.new_omron_fins_client talker_net endpoint

abbrev omron_start : State talker_net (OmronClient.Client talker_net)
omron_start = record { client = omron; world = line talker tt [] [] }

abbrev word_address : List ℕ
word_address = b'D' ∷ b'7' ∷ []

omron_methods-Answer_example :
    let K =
      λ (s' : State talker_net (OmronClient.Client talker_net)). OmronSafety.Same omron s'.client in
    AnswersT (pos 0) K (OmronApi.read_int16 talker_net word_address omron_start)
    × AnswersT (pos 0) K (OmronApi.read_int32 talker_net word_address omron_start)
    × AnswersT 0 K (OmronApi.read_float talker_net word_address omron_start)
    × AnswersT [] K (OmronApi.read_string talker_net word_address (pos 3) omron_start)
    × Answers K (OmronApi.write talker_net word_address (int16 (pos 7)) omron_start)
omron_methods-Answer_example =
    omron_methods-Answer talker_net (stream-IsLawful talker) omron_start word_address (pos 3)
      (int16 (pos 7))

work_area : OmronAddress.area_code b'W' ≡ some 0xB1
unfolding OmronAddress.area_code
work_area = refl

parse_omron_address-itoa_example :
    (OmronAddress.parse_omron_address (b'W' ∷ itoa (pos 65535))
      ≡ ok (record { word_code = 0xB1; word_addr = 65535; bit_addr = 0 }))
    × (OmronAddress.parse_omron_address (b'W' ∷ (itoa (pos 65535) ++ (b'.' ∷ itoa (pos 15))))
        ≡ ok (record { word_code = 0xB1; word_addr = 65535; bit_addr = 15 }))
parse_omron_address-itoa_example =
    parse_omron_address-itoa b'W' 0xB1 65535 15 work_area (omega arith) (omega arith)

-- An attempt that fails until the state has come down to 0.
abbrev countdown : ℕ → Outcome ℕ × ℕ
countdown zero = (ok 7, zero)
countdown (suc n) = (err unsupported_type, suc n)

abbrev down : ℕ → ℕ
down zero = zero
down (suc n) = n

attempts-Ends_example :
    (attempts (λ s. s) down 2 2 countdown 2 ≡ (ok 7, 0))
    ↔ Ends (λ s. s) down 2 2 countdown 2 (ok 7, 0)
attempts-Ends_example = attempts-Ends (λ s. s) down 2 2 countdown 2 (ok 7, 0)

countdown_succeeds : attempts (λ s. s) down 2 2 countdown 2 ≡ (ok 7, 0)
unfolding attempts
countdown_succeeds = refl

-- The value in the controller's answer to a read.
reads_42 : read_data (controller_answer (0x6F ∷ [])) ≡ ok (42 ∷ 0 ∷ [])
unfolding read_data word_at slice
reads_42 = refl
