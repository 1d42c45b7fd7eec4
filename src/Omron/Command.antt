-- ===== src/Omron/Command.antt =====
-- Memory commands: `buildMemoryCommand`, `sendCommandOnceLocked`, `sendCommand`, `readWords`, `writeWords`.
pub mod Safety
use go_iot_client.Base.{
  ℕ, ◌+◌, ◌-◌, ◌*◌, ◌/◌, ◌%◌, not, List, [], ◌∷◌, ◌++◌, length, ltb, ◌==◌, if◌then◌else◌,
}
use go_iot_client.Base.Int.{pos_part}
use go_iot_client.Base.Outcome.{
  Outcome, ok, err, ◌>>=◌, ◌>>◌, lift, reject, bind, invalid_content_length, fins_status,
  fins_end_code, fins_too_short,
}
use go_iot_client.Base.Words.{big, put_uint16, put_uint32, words_to_bytes, read_words}
use go_iot_client.Base.Slices.{slice, word_at}
use go_iot_client.Core.{normalize}
use go_iot_client.Retry.{attempts}
use go_iot_client.Net.{Net, State, checked, on_world}
use go_iot_client.Net.Full.{read_full}
use go_iot_client.Omron.Client.{
  Client, Call, magic, content_length, the_client, the_conn, ensure_conn, close_locked,
}
use go_iot_client.Omron.Address.{Addr, parse_omron_address}

-- The frame: magic and length, the FINS/TCP header, the FINS header with its route, and the command.
unfoldable pub build_memory_command : {N : Net} → Client N → ℕ → ℕ → Addr → ℕ → List ℕ → List ℕ
build_memory_command c main_cmd sub_cmd a count payload =
    magic
    ++ (put_uint32 big ((26 + length payload) % 4294967296)
        ++ (0
            ∷ 0
            ∷ 0
            ∷ 0x02
            ∷ 0
            ∷ 0
            ∷ 0
            ∷ 0
            ∷ 0x80
            ∷ 0
            ∷ 0x02
            ∷ 0
            ∷ c.da1
            ∷ c.unit_address
            ∷ 0
            ∷ c.sa1
            ∷ 0
            ∷ 0
            ∷ main_cmd
            ∷ sub_cmd
            ∷ a.word_code
            ∷ (put_uint16 big a.word_addr ++ (a.bit_addr ∷ (put_uint16 big count ++ payload)))))

-- The checks on the content of a response: its status, then its end code.
unfoldable pub content_data : List ℕ → Outcome (List ℕ)
content_data content =
    if ltb (length content) 26
    then err fins_too_short
    else bind (word_at big content 12) (λ status.
      if not (status == 0)
      then err (fins_status status)
      else bind (word_at big content 24) (λ end_code.
        if not (end_code == 0)
        then err (fins_end_code end_code)
        else slice content 26 (length content)))

unfoldable pub words_of : ℕ → List ℕ → Outcome (List ℕ)
words_of count resp =
    if ltb (length resp) (count * 2) then err fins_too_short else read_words big count resp

module _ (N : Net) where
  -- The method on the connection `conn` of the client `c`.
  unfoldable pub exchange : Client N → N.Conn → List ℕ → Call N (List ℕ)
  exchange c conn cmd = do
    checked N (N.set_deadline conn c.timeout)
    checked N (N.write conn cmd)
    head ← on_world N (read_full N conn 8)
    n ← lift (content_length head)
    reject (ltb n 26) invalid_content_length
    content ← on_world N (read_full N conn n)
    lift (content_data content)

  unfoldable pub send_command_once : List ℕ → Call N (List ℕ)
  send_command_once cmd = do ensure_conn N; c ← the_client N; conn ← the_conn N; exchange c conn cmd

  abbrev pub sleep : State N (Client N) → State N (Client N)
  sleep s = record s { world = N.sleep (normalize s.client.retry).retry_delay s.world }

  unfoldable pub send_command : List ℕ → Call N (List ℕ)
  send_command cmd s =
      let retries = pos_part (normalize s.client.retry).max_retries in
      attempts (close_locked N) sleep retries retries (send_command_once cmd) s

  -- The command is built from the fields that the client has before it connects.
  unfoldable pub read_words_from : List ℕ → ℕ → Call N (List ℕ)
  read_words_from address count = do
    arg ← lift (parse_omron_address address)
    c ← the_client N
    resp ← send_command (build_memory_command c 0x01 0x01 arg count [])
    lift (words_of count resp)

  unfoldable pub write_words : List ℕ → List ℕ → Call N (Unit {0})
  write_words address words = do
    arg ← lift (parse_omron_address address)
    c ← the_client N
    _ ←
        send_command
          (build_memory_command c 0x01 0x02 arg (length words % 65536) (words_to_bytes big words))
    lift (ok tt)
