-- ===== src/Modbus/Registers/Bank.antt =====
-- Register requests, in any wire mode, to a device that holds registers.
use go_iot_client.Base.{
  ℕ, ◌+◌, ◌*◌, ◌≤◌, ◌<◌, ◌≡◌, refl, sym, ap, ◌∙◌, false, List, [], ◌∷◌, ◌++◌, length, append-nil,
  All, ltb, arith,
}
use mathlib.Core.Path.{subst}
use go_iot_client.Base.Int.{pos_part}
use go_iot_client.Base.Outcome.{ok, lift, invalid_write_register}
use go_iot_client.Base.Alike.{Alike, continue-Alike}
use go_iot_client.Base.Words.{IsByte, IsWord, big, put_uint16, words_to_bytes, read_words}
use go_iot_client.Base.Words.Laws.{length-words_to_bytes, read_words-words_to_bytes}
use go_iot_client.Core.{normalize}
use go_iot_client.Retry.Laws.{here, attempts_first_success}
use go_iot_client.Net.{State}
use go_iot_client.Net.Stream.{Peer, stream}
use go_iot_client.Modbus.Client.{Client}
use go_iot_client.Modbus.Frame.{check_exception}
use go_iot_client.Modbus.Frame.Rtu.{check_exception-ok}
use go_iot_client.Modbus.Exchange.{send_pdu}
use go_iot_client.Modbus.Exchange.Stream.{Serves}
use go_iot_client.Modbus.Exchange.Refines.{Models, send_pdu-Models}
use go_iot_client.Modbus.Registers.{
  read_request, registers_of, check_echo, read_registers, write_registers,
}
use go_iot_client.Modbus.Registers.Bytes.{write_bytes, write_request-bytes, write_bytes-IsByte}

-- What the Modbus specification says of the functions 0x03 and 0x10, for requests in its limits: a read
-- brings the registers, two bytes each, and a write is echoed and stored.
pub record IsBank {D : Type 0} (serve : List ℕ → D → List ℕ × D) (registers : D → ℕ → ℕ → List ℕ)
    : Type 0 where
  pub length-registers : (d : D) (addr count : ℕ) → length (registers d addr count) ≡ count
  pub registers-IsWord : (d : D) (addr count : ℕ) → All IsWord (registers d addr count)
  pub reads :
      (d : D) (addr count : ℕ)
      → 0 < count
      → count ≤ 125
      → addr + count ≤ 65536
      → serve (0x03 ∷ (put_uint16 big addr ++ put_uint16 big count)) d
        ≡ (0x03 ∷ (count * 2) ∷ words_to_bytes big (registers d addr count), d)
  pub writes :
      (d : D) (addr : ℕ) (values : List ℕ)
      → All IsWord values
      → 0 < length values
      → length values ≤ 123
      → addr + length values ≤ 65536
      → let (reply, d') = serve (write_bytes addr values) d in
        (reply ≡ 0x10 ∷ (put_uint16 big addr ++ put_uint16 big (length values)))
        × (registers d' addr (length values) ≡ values)

registers_of-reply :
    (count : ℕ) (values : List ℕ)
    → length values ≡ count
    → All IsWord values
    → registers_of count 0x03 (0x03 ∷ (count * 2) ∷ words_to_bytes big values) ≡ ok values
unfolding registers_of
registers_of-reply count values l w = ground (
  arith,
  length-words_to_bytes big values,
  ap (λ (n : ℕ). read_words big n (words_to_bytes big values)) (sym l),
  ap (read_words big (length values)) (append-nil (words_to_bytes big values)),
  read_words-words_to_bytes big values [] w,
)

module _ (P : Peer) (serve : List ℕ → P.Device → List ℕ × P.Device)
    (registers : P.Device → ℕ → ℕ → List ℕ) (bank : IsBank serve registers) (c : Client (stream P))
    (u : IsByte c.unit_id) (serves : Serves P c.mode c.unit_id serve) where
  -- A request that the device does not answer with an exception is the client's first attempt.
  request :
      (pdu : List ℕ) (function : ℕ) (rest : List ℕ) (s : State (stream P) (Client (stream P)))
      (d d' : P.Device)
      → All IsByte pdu
      → function < 128
      → serve pdu d ≡ (function ∷ rest, d')
      → Models P serve c s d
      → Alike (Models P serve c) (send_pdu (stream P) pdu s) (ok (function ∷ rest), d')
  request pdu function rest s d d' bs small answered m =
      let retries = pos_part (normalize c.retry).max_retries in
      subst (Alike (Models P serve c) (send_pdu (stream P) pdu s))
        (attempts_first_success (λ e. e) (λ e. e) retries retries 0
          (λ e. (check_exception (serve pdu e).0, (serve pdu e).1)) (function ∷ rest) d' (here d)
          (omega arith)
          (ap (λ (a : List ℕ × P.Device). (check_exception a.0, a.1)) answered
            ∙ ap (λ o. (o, d')) (check_exception-ok function rest small)))
        (send_pdu-Models P serve c u serves pdu bs s d m)

  pub read_registers-Bank :
      (addr count : ℕ) (s : State (stream P) (Client (stream P))) (d : P.Device)
      → Models P serve c s d
      → 0 < count
      → count ≤ 125
      → addr + count ≤ 65536
      → Alike
          (Models P serve c)
          (read_registers (stream P) addr count 0x03 s)
          (ok (registers d addr count), d)
  unfolding read_registers read_request
  read_registers-Bank addr count s d m some_registers few fits =
      let values = registers d addr count in
      let pdu = 0x03 ∷ (put_uint16 big addr ++ put_uint16 big count) in
      let rest = (count * 2) ∷ words_to_bytes big values in
      subst (λ o. Alike (Models P serve c) (read_registers (stream P) addr count 0x03 s) (o, d))
        (registers_of-reply count values (bank.length-registers d addr count)
          (bank.registers-IsWord d addr count))
        (continue-Alike (Models P serve c) (send_pdu (stream P) pdu s) (ok (0x03 ∷ rest), d)
          (λ resp. lift (registers_of count 0x03 resp))
          (λ resp. lift (registers_of count 0x03 resp))
          (request pdu 0x03 rest s d d (omega arith) (omega arith)
            (bank.reads d addr count some_registers few fits) m)
          (λ resp s' e g. (refl, g)))

  pub write_registers-Bank :
      (addr : ℕ) (values : List ℕ) (s : State (stream P) (Client (stream P))) (d : P.Device)
      → Models P serve c s d
      → All IsWord values
      → 0 < length values
      → length values ≤ 123
      → addr + length values ≤ 65536
      → Alike
          (Models P serve c)
          (write_registers (stream P) addr values s)
          (ok tt, (serve (write_bytes addr values) d).1)
  unfolding write_registers
  write_registers-Bank addr [] s d m w some_values few fits = absurd (omega arith)
  write_registers-Bank addr (v ∷ vs) s d m w some_values few fits =
      let values = v ∷ vs in
      let pdu = write_bytes addr values in
      let rest = put_uint16 big addr ++ put_uint16 big (length values) in
      let d' = (serve pdu d).1 in
      let in_limit : ltb 123 (length values) ≡ false = ground arith in
      rw (in_limit, write_request-bytes addr values)
        (continue-Alike (Models P serve c) (send_pdu (stream P) pdu s) (ok (0x10 ∷ rest), d')
          (λ resp. lift (check_echo 0x10 invalid_write_register resp))
          (λ resp. lift (check_echo 0x10 invalid_write_register resp))
          (request pdu 0x10 rest s d d' (write_bytes-IsByte addr values) (omega arith)
            (ap (λ r. (r, d')) (bank.writes d addr values w some_values few fits).0) m)
          (λ resp s' e g. (refl, g)))
