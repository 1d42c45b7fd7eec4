-- ===== src/Tests/Bank.antt =====
-- A device that holds registers, behind a TCP and behind an RTU connection.
use go_iot_client.Base.{
  ℕ, zero, suc, ◌+◌, ◌-◌, ◌*◌, ◌/◌, ◌%◌, ◌≤◌, ◌<◌, ◌≡◌, refl, sym, ap, ◌∙◌, false, List, [], ◌∷◌,
  ◌++◌, length, take, drop, length-append, take-append, All, ltb, ◌==◌, if◌then◌else◌, Bool-cases,
  inl, inr, arith,
}
use mathlib.Core.Path.{ap₂, subst}
use go_iot_client.Base.Words.{IsByte, IsWord, big, put_uint16, words_to_bytes, bytes_to_words}
use go_iot_client.Base.Words.Laws.{length-words_to_bytes, words_to_bytes-IsByte}
use go_iot_client.Net.Stream.{Peer}
use go_iot_client.Mock.{cells, store}
use go_iot_client.Mock.Session.{length-cells}
use go_iot_client.Mock.Memory.{cells-store}
use go_iot_client.Modbus.Client.{mode_tcp, mode_rtu}
use go_iot_client.Modbus.Frame.Wire.{framed}
use go_iot_client.Modbus.Frame.Stream.{IsReply, exception, counted, echo}
use go_iot_client.Modbus.Exchange.Stream.{Serves}
use go_iot_client.Modbus.Registers.Bank.{IsBank}

abbrev pub registers : (ℕ → ℕ) → ℕ → ℕ → List ℕ
registers d addr count = cells (λ a. d a % 65536) addr count

-- The exceptions 3, for too many registers, and 1, for a function that is not known.
abbrev read_bank : ℕ → ℕ → (ℕ → ℕ) → List ℕ × (ℕ → ℕ)
read_bank addr count d =
    if ltb 125 count
    then (0x83 ∷ 3 ∷ [], d)
    else let xs = words_to_bytes big (registers d addr count) in (0x03 ∷ length xs ∷ xs, d)

abbrev pub serve_bank : List ℕ → (ℕ → ℕ) → List ℕ × (ℕ → ℕ)
serve_bank (f ∷ a ∷ b ∷ c ∷ e ∷ rest) d =
    if f == 0x03
    then read_bank (a * 256 + b) (c * 256 + e) d
    else if f == 0x10
    then (0x10 ∷ a ∷ b ∷ c ∷ e ∷ [], store d (a * 256 + b) (bytes_to_words big (drop 1 rest)))
    else (0x81 ∷ 1 ∷ [], d)
serve_bank _ d = (0x81 ∷ 1 ∷ [], d)

no_function : IsReply (0x81 ∷ 1 ∷ [])
no_function = exception 1 1 (omega arith) (omega arith)

read_bank-IsReply : (addr count : ℕ) (d : ℕ → ℕ) → IsReply (read_bank addr count d).0
read_bank-IsReply addr count d = elim (Bool-cases (ltb 125 count)) [
  | inl e ↦ rw e (exception 3 3 (omega arith) (omega arith))
  | inr e ↦ rw e (
      counted 3 (words_to_bytes big (registers d addr count)) refl
        (words_to_bytes-IsByte big (registers d addr count))
        (ground (
          arith,
          length-words_to_bytes big (registers d addr count),
          length-cells (λ a. d a % 65536) addr count,
        )))
]

serve_bank-IsReply : (pdu : List ℕ) (d : ℕ → ℕ) → All IsByte pdu → IsReply (serve_bank pdu d).0
serve_bank-IsReply (f ∷ a ∷ b ∷ c ∷ e ∷ rest) d h = elim (Bool-cases (f == 0x03)) [
  | inl p ↦ rw p (read_bank-IsReply (a * 256 + b) (c * 256 + e) d)
  | inr p ↦ elim (Bool-cases (f == 0x10)) [
    | inl q ↦ rw (p, q) (echo 0x10 a b c e refl (omega arith))
    | inr q ↦ rw (p, q) no_function
  ]
]
serve_bank-IsReply [] d h = no_function
serve_bank-IsReply (f ∷ []) d h = no_function
serve_bank-IsReply (f ∷ a ∷ []) d h = no_function
serve_bank-IsReply (f ∷ a ∷ b ∷ []) d h = no_function
serve_bank-IsReply (f ∷ a ∷ b ∷ c ∷ []) d h = no_function

bytes_to_words-words_to_bytes :
    (values : List ℕ) → All IsWord values → bytes_to_words big (words_to_bytes big values) ≡ values
unfolding bytes_to_words words_to_bytes
bytes_to_words-words_to_bytes [] h = refl
bytes_to_words-words_to_bytes (v ∷ vs) h =
    ap₂ (λ x xs. x ∷ xs) (omega arith) (bytes_to_words-words_to_bytes vs h.1)

cells-IsWord : (d : ℕ → ℕ) (addr n : ℕ) → All IsWord (cells (λ a. d a % 65536) addr n)
unfolding cells
cells-IsWord d addr zero = tt
cells-IsWord d addr (suc n) = (omega arith, cells-IsWord d ((addr + 1) % 65536) n)

cells-wrapped :
    (d : ℕ → ℕ) (addr n : ℕ)
    → All IsWord (cells d addr n)
    → cells (λ a. d a % 65536) addr n ≡ cells d addr n
unfolding cells
cells-wrapped d addr zero h = refl
cells-wrapped d addr (suc n) h =
    ap₂ (λ x xs. x ∷ xs) (omega arith) (cells-wrapped d ((addr + 1) % 65536) n h.1)

registers-stored :
    (d : ℕ → ℕ) (addr : ℕ) (values : List ℕ)
    → All IsWord values
    → addr < 65536
    → length values ≤ 123
    → registers (store d addr values) addr (length values) ≡ values
registers-stored d addr values h fits few =
    let kept = cells-store d addr values fits (omega arith) in
    cells-wrapped (store d addr values) addr (length values) (subst (All IsWord) (sym kept) h)
    ∙ kept

decoded_address : (addr : ℕ) → addr < 65536 → addr / 256 % 256 * 256 + addr % 256 ≡ addr
decoded_address addr h = omega arith

pub serve_bank-IsBank : IsBank serve_bank registers
serve_bank-IsBank = record {
  length-registers = λ d addr count. length-cells (λ a. d a % 65536) addr count;
  registers-IsWord = cells-IsWord;
  reads = λ d addr count some_registers few fits.
      let within : ltb 125 count ≡ false = ground arith in
      let size : length (words_to_bytes big (registers d addr count)) ≡ count * 2 = omega (
        arith,
        length-words_to_bytes big (registers d addr count),
        length-cells (λ a. d a % 65536) addr count,
      ) in
      rw (decoded_address addr (omega arith), decoded_address count (omega arith), within)
        (ap (λ (n : ℕ). (0x03 ∷ n ∷ words_to_bytes big (registers d addr count), d)) size);
  writes = λ d addr values w some_values few fits. (
    ap (λ (n : ℕ). 0x10 ∷ (put_uint16 big addr ++ put_uint16 big n)) (omega arith),
    rw (decoded_address addr (omega arith), bytes_to_words-words_to_bytes values w)
        (registers-stored d addr values w (omega arith) few),
  );
}

-- The device behind a TCP connection: the header is answered with the same transaction and unit ids.
abbrev pub answer_tcp : List ℕ → (ℕ → ℕ) → List ℕ × (ℕ → ℕ)
answer_tcp (a ∷ b ∷ _ ∷ _ ∷ _ ∷ _ ∷ unit_id ∷ pdu) d =
    (framed mode_tcp (a * 256 + b) unit_id (serve_bank pdu d).0, (serve_bank pdu d).1)
answer_tcp _ d = ([], d)

abbrev answer_unit : ℕ → List ℕ → (ℕ → ℕ) → List ℕ × (ℕ → ℕ)
answer_unit unit_id pdu d = (framed mode_rtu 0 unit_id (serve_bank pdu d).0, (serve_bank pdu d).1)

-- The device behind a serial line or its tunnel: the last two bytes are the CRC.
abbrev pub answer_rtu : List ℕ → (ℕ → ℕ) → List ℕ × (ℕ → ℕ)
answer_rtu [] d = ([], d)
answer_rtu (unit_id ∷ rest) d = answer_unit unit_id (take (length rest - 2) rest) d

abbrev pub tcp_peer : Peer
tcp_peer = record { Device = ℕ → ℕ; answer = answer_tcp }

abbrev pub rtu_peer : Peer
rtu_peer = record { Device = ℕ → ℕ; answer = answer_rtu }

pub tcp_peer-Serves : (unit_id : ℕ) → Serves tcp_peer mode_tcp unit_id serve_bank
tcp_peer-Serves unit_id pdu bs trans_id small d = (serve_bank-IsReply pdu d bs, same)
  where
    same :
        answer_tcp (framed mode_tcp trans_id unit_id pdu) d
        ≡ (framed mode_tcp trans_id unit_id (serve_bank pdu d).0, (serve_bank pdu d).1)
    same =
        ap (λ (i : ℕ). (framed mode_tcp i unit_id (serve_bank pdu d).0, (serve_bank pdu d).1))
          (decoded_address trans_id small)

pub rtu_peer-Serves : (unit_id : ℕ) → Serves rtu_peer mode_rtu unit_id serve_bank
rtu_peer-Serves unit_id pdu bs trans_id small d = (serve_bank-IsReply pdu d bs, same)
  where
    without_crc :
        (xs end : List ℕ) → length end ≡ 2 → take (length (xs ++ end) - 2) (xs ++ end) ≡ xs
    without_crc xs end two =
        ap (λ (n : ℕ). take n (xs ++ end)) (omega (arith, length-append xs end))
        ∙ take-append xs end

    same :
        answer_rtu (framed mode_rtu 0 unit_id pdu) d
        ≡ (framed mode_rtu 0 unit_id (serve_bank pdu d).0, (serve_bank pdu d).1)
    same = ap (λ xs. answer_unit unit_id xs d) (without_crc pdu _ refl)
