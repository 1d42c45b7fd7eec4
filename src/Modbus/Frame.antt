-- ===== src/Modbus/Frame.antt =====
-- One exchange of a PDU on the wire, in each of the three framings.
pub mod Safety
pub mod Rtu
pub mod Ascii
pub mod Stream
pub mod Exchange
pub mod Wire
use go_iot_client.Base.{
  ℕ, zero, suc, ◌+◌, ◌-◌, ◌/◌, ◌%◌, bit_and, Bool, true, false, not, ◌||◌, Option, none, some, List,
  [], ◌∷◌, ◌++◌, map, length, drop, ltb, leb, ◌==◌, if◌then◌else◌,
}
use go_iot_client.Base.Outcome.{
  Outcome, ok, err, panic, M, ◌>>=◌, ◌>>◌, lift, reject, bind, transaction_mismatch, unit_mismatch,
  invalid_response_length, modbus_exception, response_too_short, crc_failed, lrc_failed,
  missing_colon, odd_hex_length, bad_hex, ascii_too_short, ascii_too_long, unsupported_function,
}
use go_iot_client.Base.Words.{big, little, put_uint16}
use go_iot_client.Base.Slices.{index, slice, word_at}
use go_iot_client.Text.{trim_space, to_upper, hex_encode, hex_decode}
use go_iot_client.Net.{Net, State, checked, on_world}
use go_iot_client.Net.Full.{read_full}
use go_iot_client.Modbus.Checksum.{crc16, lrc}
use go_iot_client.Modbus.Client.{Client, Call, the_client, the_conn}

abbrev pub is_exception : ℕ → Bool
is_exception function = bit_and function 0x80 == 0x80

-- `if len(resp) >= 2 && resp[0]&0x80 == 0x80 { return error }`
unfoldable pub check_exception : List ℕ → Outcome (List ℕ)
check_exception [] = ok []
check_exception (function ∷ []) = ok (function ∷ [])
check_exception (function ∷ code ∷ rest) =
    if is_exception function then err (modbus_exception code) else ok (function ∷ code ∷ rest)

-- The MBAP header and the PDU; the length field counts the unit id too.
unfoldable pub tcp_frame : ℕ → ℕ → List ℕ → List ℕ
tcp_frame trans_id unit_id pdu =
    put_uint16 big trans_id
    ++ (0 ∷ 0 ∷ (put_uint16 big ((length pdu + 1) % 65536) ++ (unit_id ∷ pdu)))

unfoldable pub rtu_frame : ℕ → List ℕ → List ℕ
rtu_frame unit_id pdu = (unit_id ∷ pdu) ++ put_uint16 little (crc16 (unit_id ∷ pdu))

-- `':'`, the bytes with their LRC in upper-case hexadecimal, `\r` and `\n`.
unfoldable pub ascii_frame : ℕ → List ℕ → List ℕ
ascii_frame unit_id pdu =
    b':'
    ∷ (map to_upper (hex_encode ((unit_id ∷ pdu) ++ (lrc (unit_id ∷ pdu) ∷ []))) ++ (13 ∷ 10 ∷ []))

-- The checks of `sendTCPFrameLocked` on a response header, and the length of what follows it.
unfoldable pub tcp_body_length : ℕ → ℕ → List ℕ → Outcome ℕ
tcp_body_length trans_id unit_id head = bind (word_at big head 0) (λ got_id.
    if not (got_id == trans_id)
    then err transaction_mismatch
    else bind (index head 6) (λ unit.
      if not (unit == unit_id)
      then err unit_mismatch
      else bind (word_at big head 4)
          (λ len. if leb len 1 then err invalid_response_length else ok (len - 1))))

-- The checks of `sendRTUFrameLocked` on a response.
unfoldable pub rtu_pdu : ℕ → List ℕ → Outcome (List ℕ)
rtu_pdu unit_id response =
    if ltb (length response) 4
    then err response_too_short
    else bind (index response 0) (λ unit.
      if not (unit == unit_id)
      then err unit_mismatch
      else bind (word_at little response (length response - 2)) (λ got_crc.
        bind (slice response 0 (length response - 2)) (λ message.
          if not (crc16 message == got_crc)
          then err crc_failed
          else bind (slice response 1 (length response - 2)) check_exception)))

-- The checks of `sendASCIIFrameLocked` on the decoded bytes.
unfoldable pub ascii_pdu : ℕ → List ℕ → Outcome (List ℕ)
ascii_pdu unit_id raw =
    if ltb (length raw) 3
    then err ascii_too_short
    else bind (index raw 0) (λ unit.
      if not (unit == unit_id)
      then err unit_mismatch
      else bind (slice raw 0 (length raw - 1)) (λ message.
        bind (index raw (length raw - 1)) (λ got_lrc.
          if not (lrc message == got_lrc)
          then err lrc_failed
          else bind (slice message 1 (length message)) check_exception)))

abbrev decoded : ℕ → Option (List ℕ) → Outcome (List ℕ)
decoded unit_id none = err bad_hex
decoded unit_id (some raw) = ascii_pdu unit_id raw

-- The text between the colon and the end of the line, then the checks above.
unfoldable pub ascii_line_pdu : ℕ → List ℕ → Outcome (List ℕ)
ascii_line_pdu unit_id [] = err missing_colon
ascii_line_pdu unit_id (c ∷ line) =
    if not (c == b':')
    then err missing_colon
    else let trimmed = trim_space line in
      if not (length trimmed % 2 == 0)
      then err odd_hex_length
      else decoded unit_id (hex_decode trimmed)

abbrev pub is_read : ℕ → Bool
is_read f = f == 0x01 || f == 0x02 || f == 0x03 || f == 0x04

abbrev pub is_write : ℕ → Bool
is_write f = f == 0x05 || f == 0x06 || f == 0x0F || f == 0x10

module _ (N : Net) where
  -- The three shapes of a response in `readRTUResponse`, behind its first two bytes.
  unfoldable pub rtu_exception : N.Conn → List ℕ → M N.World (List ℕ)
  rtu_exception conn first = do rest ← read_full N conn 3; lift (ok (first ++ rest))

  unfoldable pub rtu_counted : N.Conn → List ℕ → M N.World (List ℕ)
  rtu_counted conn first = do
    count ← read_full N conn 1
    n ← lift (index count 0)
    rest ← read_full N conn (n + 2)
    lift (ok (first ++ (n ∷ rest)))

  unfoldable pub rtu_echo : N.Conn → List ℕ → M N.World (List ℕ)
  rtu_echo conn first = do rest ← read_full N conn 6; lift (ok (first ++ rest))

  unfoldable pub rtu_rest : N.Conn → List ℕ → ℕ → M N.World (List ℕ)
  rtu_rest conn first function =
      if is_exception function
      then rtu_exception conn first
      else if is_read function
      then rtu_counted conn first
      else if is_write function
      then rtu_echo conn first
      else lift (err (unsupported_function function))

  unfoldable pub read_rtu_response : N.Conn → M N.World (List ℕ)
  read_rtu_response conn = do
    first ← read_full N conn 2
    function ← lift (index first 1)
    rtu_rest conn first function

  -- A line that has ended is the result; else the loop goes on.
  abbrev pub unless_ended : Bool → List ℕ → (List ℕ → M N.World (List ℕ)) → M N.World (List ℕ)
  unless_ended true out more = lift (ok out)
  unless_ended false out more = more out

  -- The loop of `readASCIIResponseLine`, by the room left below 1024 bytes.
  unfoldable pub ascii_loop : N.Conn → ℕ → List ℕ → M N.World (List ℕ)
  ascii_loop conn zero out = lift (err ascii_too_long)
  ascii_loop conn (suc room) out = read_full N conn 1 >>= λ one.
      lift (index one 0) >>= λ b. unless_ended (b == 10) (out ++ (b ∷ [])) (ascii_loop conn room)

  unfoldable pub read_ascii_line : N.Conn → M N.World (List ℕ)
  read_ascii_line conn = ascii_loop conn 1024 []

  -- `c.transID++`
  abbrev next_transaction : Call N (Unit {0})
  next_transaction s =
      (ok tt, record s { client = record s.client { trans_id = (s.client.trans_id + 1) % 65536 } })

  -- The three methods on the connection `conn` of the client `c`.
  unfoldable pub tcp_exchange : Client N → N.Conn → List ℕ → Call N (List ℕ)
  tcp_exchange c conn pdu = do
    checked N (N.write conn (tcp_frame c.trans_id c.unit_id pdu))
    head ← on_world N (read_full N conn 7)
    body_length ← lift (tcp_body_length c.trans_id c.unit_id head)
    resp ← on_world N (read_full N conn body_length)
    lift (check_exception resp)

  unfoldable pub rtu_exchange : Client N → N.Conn → List ℕ → Call N (List ℕ)
  rtu_exchange c conn pdu = do
    checked N (N.write conn (rtu_frame c.unit_id pdu))
    response ← on_world N (read_rtu_response conn)
    lift (rtu_pdu c.unit_id response)

  unfoldable pub ascii_exchange : Client N → N.Conn → List ℕ → Call N (List ℕ)
  ascii_exchange c conn pdu = do
    checked N (N.write conn (ascii_frame c.unit_id pdu))
    line ← on_world N (read_ascii_line conn)
    lift (ascii_line_pdu c.unit_id line)

  unfoldable pub send_tcp_frame : List ℕ → Call N (List ℕ)
  send_tcp_frame pdu = do
    next_transaction
    c ← the_client N
    conn ← the_conn N
    tcp_exchange c conn pdu

  unfoldable pub send_rtu_frame : List ℕ → Call N (List ℕ)
  send_rtu_frame pdu = do c ← the_client N; conn ← the_conn N; rtu_exchange c conn pdu

  unfoldable pub send_ascii_frame : List ℕ → Call N (List ℕ)
  send_ascii_frame pdu = do c ← the_client N; conn ← the_conn N; ascii_exchange c conn pdu
