-- ===== src/Modbus/Frame/Ascii.antt =====
-- What the ASCII framing lets through.
use go_iot_client.Base.{
  ℕ, ◌+◌, ◌-◌, ◌*◌, ◌/◌, ◌%◌, ◌<◌, ◌≡◌, refl, ap, ◌∙◌, false, some, List, [], ◌∷◌, ◌++◌, map,
  length, take, length-append, take-append, All, All-append, append-nil, arith,
}
use go_iot_client.Base.Outcome.{ok}
use go_iot_client.Base.Words.{IsByte}
use go_iot_client.Base.Slices.{index-nth, slice-take}
use go_iot_client.Text.{
  is_space, trim_left, trim_right, trim_space, to_upper, hex_digit, hex_encode, hex_value,
  hex_decode,
}
use go_iot_client.Modbus.Checksum.{lrc}
use go_iot_client.Modbus.Checksum.Lrc.{lrc-IsByte}
use go_iot_client.Modbus.Frame.{check_exception, ascii_frame, ascii_pdu, ascii_line_pdu}
use go_iot_client.Modbus.Frame.Rtu.{nth-append, check_exception-ok}

-- An upper-case hexadecimal digit.
abbrev upper_digit : ℕ → ℕ
upper_digit n = to_upper (hex_digit n)

hex_value-upper_digit : (n : ℕ) → n < 16 → hex_value (upper_digit n) ≡ some n
unfolding hex_value to_upper hex_digit
hex_value-upper_digit n h = ground arith

is_space-upper_digit : (n : ℕ) → n < 16 → is_space (upper_digit n) ≡ false
unfolding to_upper hex_digit
is_space-upper_digit n h = ground arith

-- `hex.DecodeString` undoes `hex.Encode`, also after `bytes.ToUpper`.
pub hex_decode-hex_encode :
    (xs : List ℕ) → All IsByte xs → hex_decode (map to_upper (hex_encode xs)) ≡ some xs
unfolding hex_decode hex_encode
hex_decode-hex_encode [] h = refl
hex_decode-hex_encode (x ∷ xs) h =
    rw
      (
        hex_value-upper_digit (x / 16) (omega arith),
        hex_value-upper_digit (x % 16) (omega arith),
        hex_decode-hex_encode xs h.1,
      )
      (ap (λ (b : ℕ). some (b ∷ xs)) (omega arith))

pub length-hex_encode : (xs : List ℕ) → length (map to_upper (hex_encode xs)) ≡ 2 * length xs
unfolding hex_encode
length-hex_encode [] = refl
length-hex_encode (x ∷ xs) = omega (arith, length-hex_encode xs)

-- Trimming takes the line end off text with no space in it.
trim_right-line :
    (xs : List ℕ)
    → All (λ c. is_space c ≡ false) xs
    → trim_right is_space (xs ++ (13 ∷ 10 ∷ [])) ≡ xs
unfolding trim_right
trim_right-line [] h = refl
trim_right-line (x ∷ []) h = ground arith
trim_right-line (x ∷ y ∷ xs) h = rw (trim_right-line (y ∷ xs) h.1)

trim_left-line : (x : ℕ) (xs : List ℕ) → is_space x ≡ false → trim_left is_space (x ∷ xs) ≡ x ∷ xs
unfolding trim_left
trim_left-line x xs h = ground arith

pub hex_encode-no_space :
    (xs : List ℕ) → All IsByte xs → All (λ c. is_space c ≡ false) (map to_upper (hex_encode xs))
unfolding hex_encode
hex_encode-no_space [] h = tt
hex_encode-no_space (x ∷ xs) h = (
  is_space-upper_digit (x / 16) (omega arith),
  (is_space-upper_digit (x % 16) (omega arith), hex_encode-no_space xs h.1),
)

-- `strings.TrimSpace` takes the line end off the hexadecimal text of some bytes.
trim_space-line :
    (x : ℕ) (xs : List ℕ)
    → All IsByte (x ∷ xs)
    → trim_space (map to_upper (hex_encode (x ∷ xs)) ++ (13 ∷ 10 ∷ []))
      ≡ map to_upper (hex_encode (x ∷ xs))
unfolding trim_space hex_encode
trim_space-line x xs h =
    ap (trim_right is_space)
      (trim_left-line (upper_digit (x / 16)) _ (is_space-upper_digit (x / 16) (omega arith)))
    ∙ trim_right-line (map to_upper (hex_encode (x ∷ xs))) (hex_encode-no_space (x ∷ xs) h)

ascii_pdu-parts :
    (unit_id function : ℕ) (rest : List ℕ)
    → ascii_pdu unit_id ((unit_id ∷ function ∷ rest) ++ (lrc (unit_id ∷ function ∷ rest) ∷ []))
      ≡ check_exception (function ∷ rest)
unfolding ascii_pdu
ascii_pdu-parts unit_id function rest = ground (
  arith,
  size,
  index-nth raw 0,
  index-nth raw (length raw - 1),
  nth-append message (lrc message ∷ []) 0 (length raw - 1) (omega (arith, size)),
  slice-take raw 0 (length raw - 1),
  slice-take message 1 (length message),
  whole,
  take-append (function ∷ rest) [],
  append-nil rest,
)
  where
    message : List ℕ
    message = unit_id ∷ function ∷ rest

    raw : List ℕ
    raw = message ++ (lrc message ∷ [])

    size : length raw ≡ length message + 1
    size = length-append message (lrc message ∷ [])

    k_is : length raw - 1 ≡ length message
    k_is = omega (arith, size)

    whole : take (length raw - 1) raw ≡ message
    whole = ap (λ (n : ℕ). take n raw) k_is ∙ take-append message (lrc message ∷ [])

-- The line of a PDU of bytes yields what the check for an exception makes of the PDU.
pub ascii_line_pdu-checked :
    (unit_id function : ℕ) (rest : List ℕ)
    → IsByte unit_id
    → IsByte function
    → All IsByte rest
    → ascii_line_pdu unit_id (ascii_frame unit_id (function ∷ rest))
      ≡ check_exception (function ∷ rest)
unfolding ascii_line_pdu ascii_frame
ascii_line_pdu-checked unit_id function rest hu hf hr = ground (
  arith,
  trim_space-line unit_id (function ∷ (rest ++ (lrc message ∷ []))) raw-IsByte,
  length-hex_encode (message ++ (lrc message ∷ [])),
  hex_decode-hex_encode (message ++ (lrc message ∷ [])) raw-IsByte,
  ascii_pdu-parts unit_id function rest,
)
  where
    message : List ℕ
    message = unit_id ∷ function ∷ rest

    raw-IsByte : All IsByte (message ++ (lrc message ∷ []))
    raw-IsByte =
        All-append IsByte message (lrc message ∷ []) (hu, (hf, hr)) (lrc-IsByte message, tt)

-- Decoding undoes encoding: the line of a PDU of bytes with a function code below 128, sent for the
-- client's unit, yields the PDU.
pub ascii_line_pdu-ascii_frame :
    (unit_id function : ℕ) (rest : List ℕ)
    → IsByte unit_id
    → function < 128
    → All IsByte rest
    → ascii_line_pdu unit_id (ascii_frame unit_id (function ∷ rest)) ≡ ok (function ∷ rest)
ascii_line_pdu-ascii_frame unit_id function rest hu hf hr =
    ascii_line_pdu-checked unit_id function rest hu (omega arith) hr
    ∙ check_exception-ok function rest hf
