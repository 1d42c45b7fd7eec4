-- ===== src/Modbus/Frame/Wire.antt =====
-- The frames as the Modbus documents lay them out, and that the code's frames are these.
use go_iot_client.Base.{
  ℕ, ◌+◌, ◌/◌, ◌%◌, ◌<◌, ◌≡◌, refl, sym, ap, ◌∙◌, List, [], ◌∷◌, ◌++◌, map, length, All, All-append,
  ltb, if◌then◌else◌, arith,
}
use mathlib.Core.Path.{ap₂}
use go_iot_client.Base.Words.{IsByte}
use go_iot_client.Text.{to_upper, hex_digit, hex_encode}
use go_iot_client.Net.Stream.{Peer}
use go_iot_client.Modbus.Checksum.{crc16, lrc}
use go_iot_client.Modbus.Checksum.Lrc.{lrc-IsByte}
use go_iot_client.Modbus.Client.{WireMode, mode_tcp, mode_rtu_over_tcp, mode_rtu, mode_ascii}
use go_iot_client.Modbus.Frame.{tcp_frame, rtu_frame, ascii_frame}

abbrev digit : ℕ → ℕ
digit n = if ltb n 10 then 48 + n else 55 + n

-- Two upper-case hexadecimal digits for each byte.
abbrev digits : List ℕ → List ℕ
digits [] = []
digits (x ∷ xs) = digit (x / 16) ∷ digit (x % 16) ∷ digits xs

abbrev with_crc : List ℕ → List ℕ
with_crc message = message ++ ((crc16 message % 256) ∷ (crc16 message / 256 % 256) ∷ [])

abbrev with_lrc : List ℕ → List ℕ
with_lrc message = message ++ (lrc message ∷ [])

-- The frame of a PDU in a wire mode: the transaction id, the protocol 0 and the length that counts the unit id,
-- on TCP; the unit id, the PDU and their CRC, low byte first; or both with their LRC as a line of text.
abbrev pub framed : WireMode → ℕ → ℕ → List ℕ → List ℕ
framed mode_tcp trans_id unit_id pdu =
    (trans_id / 256 % 256)
    ∷ (trans_id % 256)
    ∷ 0
    ∷ 0
    ∷ ((length pdu + 1) / 256 % 256)
    ∷ ((length pdu + 1) % 256)
    ∷ unit_id
    ∷ pdu
framed mode_rtu_over_tcp trans_id unit_id pdu = with_crc (unit_id ∷ pdu)
framed mode_rtu trans_id unit_id pdu = with_crc (unit_id ∷ pdu)
framed mode_ascii trans_id unit_id pdu =
    b':' ∷ (digits (with_lrc (unit_id ∷ pdu)) ++ (13 ∷ 10 ∷ []))

tcp_frame-framed :
    (trans_id unit_id : ℕ) (pdu : List ℕ)
    → framed mode_tcp trans_id unit_id pdu ≡ tcp_frame trans_id unit_id pdu
unfolding tcp_frame
tcp_frame-framed trans_id unit_id pdu =
    ap₂ (λ hi lo. (trans_id / 256 % 256) ∷ (trans_id % 256) ∷ 0 ∷ 0 ∷ hi ∷ lo ∷ unit_id ∷ pdu)
      (omega arith) (omega arith)

rtu_frame-framed : (unit_id : ℕ) (pdu : List ℕ) → with_crc (unit_id ∷ pdu) ≡ rtu_frame unit_id pdu
unfolding rtu_frame
rtu_frame-framed unit_id pdu = refl

digit-to_upper : (n : ℕ) → n < 16 → digit n ≡ to_upper (hex_digit n)
unfolding to_upper hex_digit
digit-to_upper n h = ground arith

digits-hex_encode : (xs : List ℕ) → All IsByte xs → digits xs ≡ map to_upper (hex_encode xs)
unfolding hex_encode
digits-hex_encode [] h = refl
digits-hex_encode (x ∷ xs) h =
    rw
      (
        digit-to_upper (x / 16) (omega arith),
        digit-to_upper (x % 16) (omega arith),
        digits-hex_encode xs h.1,
      )
      refl

ascii_frame-framed :
    (unit_id : ℕ) (pdu : List ℕ)
    → IsByte unit_id
    → All IsByte pdu
    → framed mode_ascii 0 unit_id pdu ≡ ascii_frame unit_id pdu
unfolding ascii_frame
ascii_frame-framed unit_id pdu u bs =
    ap (λ ds. b':' ∷ (ds ++ (13 ∷ 10 ∷ [])))
      (digits-hex_encode (with_lrc (unit_id ∷ pdu)) (
        All-append IsByte (unit_id ∷ pdu) (lrc (unit_id ∷ pdu) ∷ []) (u, bs)
          (lrc-IsByte (unit_id ∷ pdu), tt)))

module _ (P : Peer) (d d' : P.Device) (unit_id : ℕ) (pdu reply : List ℕ) where
  answers_by :
      (f f' r r' : List ℕ) → f ≡ f' → r ≡ r' → P.answer f d ≡ (r, d') → P.answer f' d ≡ (r', d')
  answers_by f f' r r' e k h = ap (λ x. P.answer x d) (sym e) ∙ h ∙ ap (λ x. (x, d')) k

  -- A device that answers the frame of a PDU with the frame of a reply answers the code's frame with that.
  pub answers_tcp :
      (trans_id : ℕ)
      → P.answer (framed mode_tcp trans_id unit_id pdu) d
        ≡ (framed mode_tcp trans_id unit_id reply, d')
      → P.answer (tcp_frame trans_id unit_id pdu) d ≡ (tcp_frame trans_id unit_id reply, d')
  answers_tcp trans_id =
      answers_by _ _ _ _ (tcp_frame-framed trans_id unit_id pdu)
        (tcp_frame-framed trans_id unit_id reply)

  pub answers_rtu :
      P.answer (with_crc (unit_id ∷ pdu)) d ≡ (with_crc (unit_id ∷ reply), d')
      → P.answer (rtu_frame unit_id pdu) d ≡ (rtu_frame unit_id reply, d')
  answers_rtu = answers_by _ _ _ _ (rtu_frame-framed unit_id pdu) (rtu_frame-framed unit_id reply)

  pub answers_ascii :
      IsByte unit_id
      → All IsByte pdu
      → All IsByte reply
      → P.answer (framed mode_ascii 0 unit_id pdu) d ≡ (framed mode_ascii 0 unit_id reply, d')
      → P.answer (ascii_frame unit_id pdu) d ≡ (ascii_frame unit_id reply, d')
  answers_ascii u bs rs =
      answers_by _ _ _ _ (ascii_frame-framed unit_id pdu u bs)
        (ascii_frame-framed unit_id reply u rs)
