-- ===== src/Modbus/Frame/Rtu.antt =====
-- What the RTU framing lets through.
use go_iot_client.Base.{
  ℕ, zero, suc, ◌+◌, ◌-◌, ◌/◌, ◌%◌, ◌≤◌, ◌<◌, ◌≡◌, ◌≢◌, refl, sym, ap, ◌∙◌, List, [], ◌∷◌, ◌++◌,
  length, take, drop, length-append, take-append, take-append-drop, All, All-append, All-take,
  arith,
}
use go_iot_client.Base.Outcome.{ok}
use go_iot_client.Base.Words.{IsByte, little, uint16, put_uint16}
use go_iot_client.Base.Slices.{nth, index-nth, slice-take, word_at-nth, nth-IsByte}
use go_iot_client.Base.Xor.{top_bit}
use go_iot_client.Modbus.Checksum.{crc16}
use go_iot_client.Modbus.Checksum.Crc.{crc16-IsWord, crc16_residue, crc16_one_byte}
use go_iot_client.Modbus.Frame.{check_exception, rtu_frame, rtu_pdu}

-- The last two elements of a list, as the places that hold them.
drop-last_two :
    (xs : List ℕ) (i : ℕ) → i + 2 ≡ length xs → drop i xs ≡ nth xs i ∷ nth xs (suc i) ∷ []
drop-last_two [] i h = absurd (omega arith)
drop-last_two (a ∷ []) i h = absurd (omega arith)
drop-last_two (a ∷ b ∷ []) zero h = refl
drop-last_two (a ∷ b ∷ c ∷ xs) zero h = absurd (omega arith)
drop-last_two (a ∷ b ∷ xs) (suc i) h = drop-last_two (b ∷ xs) i (omega arith)

-- The facts that an accepted response has passed the checks of.
rtu_pdu-checked :
    (unit_id : ℕ) (response pdu : List ℕ)
    → rtu_pdu unit_id response ≡ ok pdu
    → (4 ≤ length response)
      × (nth response 0 ≡ unit_id)
      × (crc16 (take (length response - 2) response)
          ≡ uint16 little
              (nth response (length response - 2))
              (nth response (suc (length response - 2))))
unfolding rtu_pdu
rtu_pdu-checked unit_id response pdu h = ground (
  arith,
  index-nth response 0,
  word_at-nth little response (length response - 2),
  slice-take response 0 (length response - 2),
  slice-take response 1 (length response - 2),
)

-- The bytes of an accepted response, its checksum included, have the checksum 0.
rtu_pdu-residue :
    (unit_id : ℕ) (response pdu : List ℕ)
    → All IsByte response
    → rtu_pdu unit_id response ≡ ok pdu
    → crc16 response ≡ 0
rtu_pdu-residue unit_id response pdu bs h =
    ap crc16 (
      sym (take-append-drop k response)
      ∙ ap (λ t. message ++ t) (drop-last_two response k (omega (arith, facts)) ∙ sym carried))
    ∙ crc16_residue message (All-take IsByte k response bs)
  where
    k : ℕ
    k = length response - 2

    message : List ℕ
    message = take k response

    facts :
        (4 ≤ length response)
        × (nth response 0 ≡ unit_id)
        × (crc16 message ≡ uint16 little (nth response k) (nth response (suc k)))
    facts = rtu_pdu-checked unit_id response pdu h

    carried : put_uint16 little (crc16 message) ≡ nth response k ∷ nth response (suc k) ∷ []
    carried = rw facts.2 (ground (arith, nth-IsByte response k bs, nth-IsByte response (suc k) bs))

-- A response of bytes that differs from an accepted one in a single byte, wherever that stands, the unit, the
-- function code and the checksum included, is not accepted.
pub rtu_pdu-rejects_one_byte :
    (unit_id : ℕ) (xs ys : List ℕ) (a b : ℕ) (pdu pdu' : List ℕ)
    → All IsByte xs
    → All IsByte ys
    → IsByte a
    → IsByte b
    → a ≢ b
    → rtu_pdu unit_id (xs ++ (a ∷ ys)) ≡ ok pdu
    → rtu_pdu unit_id (xs ++ (b ∷ ys)) ≢ ok pdu'
rtu_pdu-rejects_one_byte unit_id xs ys a b pdu pdu' hx hy ha hb ne h k =
    crc16_one_byte xs ys a b hx hy ha hb ne (
      rtu_pdu-residue unit_id (xs ++ (a ∷ ys)) pdu (All-append IsByte xs (a ∷ ys) hx (ha, hy)) h
      ∙ sym (
          rtu_pdu-residue unit_id (xs ++ (b ∷ ys)) pdu' (All-append IsByte xs (b ∷ ys) hx (hb, hy))
            k))

-- A response that `check_exception` passes: its function code has no top bit, or it is a bare byte.
pub check_exception-ok :
    (function : ℕ) (rest : List ℕ)
    → function < 128
    → check_exception (function ∷ rest) ≡ ok (function ∷ rest)
unfolding check_exception
check_exception-ok function [] h = refl
check_exception-ok function (c ∷ rest) h = ground (arith, top_bit function (omega arith))

pub nth-append : (xs ys : List ℕ) (i j : ℕ) → j ≡ length xs + i → nth (xs ++ ys) j ≡ nth ys i
nth-append [] ys i j e = ap (nth ys) (omega (arith, e))
nth-append (x ∷ xs) ys i zero e = absurd (omega arith)
nth-append (x ∷ xs) ys i (suc j) e = nth-append xs ys i j (omega arith)

rtu_pdu-parts :
    (unit_id function : ℕ) (rest : List ℕ) (lo hi : ℕ)
    → 0 < length rest
    → crc16 (unit_id ∷ function ∷ rest) ≡ uint16 little lo hi
    → rtu_pdu unit_id ((unit_id ∷ function ∷ rest) ++ (lo ∷ hi ∷ []))
      ≡ check_exception (function ∷ rest)
unfolding rtu_pdu
rtu_pdu-parts unit_id function rest lo hi long e = ground (
  arith,
  size,
  index-nth frame 0,
  word_at-nth little frame (length frame - 2),
  slice-take frame 0 (length frame - 2),
  slice-take frame 1 (length frame - 2),
  places,
  whole,
  tail,
)
  where
    message : List ℕ
    message = unit_id ∷ function ∷ rest

    frame : List ℕ
    frame = message ++ (lo ∷ hi ∷ [])

    size : length frame ≡ length message + 2
    size = length-append message (lo ∷ hi ∷ [])

    k_is : length frame - 2 ≡ length message
    k_is = omega (arith, size)

    places : (nth frame (length frame - 2) ≡ lo) × (nth frame (suc (length frame - 2)) ≡ hi)
    places = (
      nth-append message (lo ∷ hi ∷ []) 0 (length frame - 2) (omega (arith, k_is)),
      nth-append message (lo ∷ hi ∷ []) 1 (suc (length frame - 2)) (omega (arith, k_is)),
    )

    whole : take (length frame - 2) frame ≡ message
    whole = ap (λ (n : ℕ). take n frame) k_is ∙ take-append message (lo ∷ hi ∷ [])

    k_less : length frame - 2 - 1 ≡ suc (length rest)
    k_less = omega (arith, k_is)

    tail : take (length frame - 2 - 1) (drop 1 frame) ≡ function ∷ rest
    tail =
        ap (λ (n : ℕ). take n (drop 1 frame)) k_less ∙ take-append (function ∷ rest) (lo ∷ hi ∷ [])

-- The frame of a PDU of bytes yields what the check for an exception makes of the PDU.
pub rtu_pdu-checked_frame :
    (unit_id function : ℕ) (rest : List ℕ)
    → IsByte unit_id
    → IsByte function
    → All IsByte rest
    → 0 < length rest
    → rtu_pdu unit_id (rtu_frame unit_id (function ∷ rest)) ≡ check_exception (function ∷ rest)
unfolding rtu_frame
rtu_pdu-checked_frame unit_id function rest hu hf hr long =
    rtu_pdu-parts unit_id function rest (crc % 256) (crc / 256 % 256) long
      (omega (arith, crc16-IsWord (unit_id ∷ function ∷ rest) (hu, (hf, hr))))
  where
    crc : ℕ
    crc = crc16 (unit_id ∷ function ∷ rest)

-- Decoding undoes encoding: the frame of a PDU of bytes with a function code below 128 and at least
-- one byte behind it, sent for the client's unit, yields the PDU.
pub rtu_pdu-rtu_frame :
    (unit_id function : ℕ) (rest : List ℕ)
    → IsByte unit_id
    → function < 128
    → All IsByte rest
    → 0 < length rest
    → rtu_pdu unit_id (rtu_frame unit_id (function ∷ rest)) ≡ ok (function ∷ rest)
rtu_pdu-rtu_frame unit_id function rest hu hf hr long =
    rtu_pdu-checked_frame unit_id function rest hu (omega arith) hr long
    ∙ check_exception-ok function rest hf
