-- ===== src/Omron/Address.antt =====
-- `parseOmronAddress`: an area letter, a word address, and a bit behind a point.
pub mod Laws
use go_iot_client.Base.{
  ℕ, ◌-◌, Bool, Option, none, some, List, [], ◌∷◌, map, ltb, ◌==◌, if◌then◌else◌,
}
use go_iot_client.Base.Outcome.{Outcome, ok, err, bind, invalid_address}
use go_iot_client.Text.{trim_space, to_upper, parse_uint, split}

-- `omronAddr`
pub record Addr : Type 0 where
  pub word_code : ℕ
  pub word_addr : ℕ
  pub bit_addr : ℕ

-- The memory area of a letter.
unfoldable pub area_code : ℕ → Option ℕ
area_code c =
    if c == b'D'
    then some 0x82
    else if c == b'C'
    then some 0xB0
    else if c == b'W'
    then some 0xB1
    else if c == b'H'
    then some 0xB2
    else if c == b'A'
    then some 0xB3
    else none

abbrev pub parsed : {A : Type 0} → Option A → Outcome A
parsed none = err invalid_address
parsed (some n) = ok n

-- The bit, in the second of the parts between points; further parts are not looked at.
abbrev pub bit_of : List (List ℕ) → Outcome ℕ
bit_of [] = ok 0
bit_of (bit ∷ rest) =
    bind (parsed (parse_uint 255 bit)) (λ b. if ltb 15 b then err invalid_address else ok b)

-- The address after `TrimSpace` and `ToUpper`.
unfoldable pub parse_upper : List ℕ → Outcome Addr
parse_upper [] = err invalid_address
parse_upper (c ∷ raw) = bind (parsed (area_code c)) (λ code.
    let (word, rest) = split b'.' raw in
    bind (parsed (parse_uint 65535 word)) (λ w.
      bind (bit_of rest) (λ b. ok (record { word_code = code; word_addr = w; bit_addr = b }))))

unfoldable pub parse_omron_address : List ℕ → Outcome Addr
parse_omron_address address = parse_upper (map to_upper (trim_space address))
