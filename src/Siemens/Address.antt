-- ===== src/Siemens/Address.antt =====
-- `parseSiemensAddress`: a data block with an offset, or an offset in the areas M, I and Q.
pub mod Laws
pub mod Safety
use go_iot_client.Base.{
  ℕ, Bool, ◌||◌, Option, none, some, List, [], ◌∷◌, map, ltb, ◌==◌, if◌then◌else◌,
}
use go_iot_client.Base.Int.{ℤ, is_negative, pos_part}
use go_iot_client.Base.Outcome.{Outcome, ok, err, bind, invalid_address}
use go_iot_client.Text.{trim_space, to_upper, atoi, split, strip_prefix}

-- `siemensAreaType`
pub data Area : Type 0 where
  area_db area_m area_i area_q : Area

-- `siemensAddr`
pub record Addr : Type 0 where
  pub area : Area
  pub db : ℕ
  pub start : ℕ

-- A number of `strconv.Atoi` from `low` to 65535.
abbrev pub in_range : ℕ → Option ℤ → Outcome ℕ
in_range low none = err invalid_address
in_range low (some z) =
    if is_negative z || ltb (pos_part z) low || ltb 65535 (pos_part z)
    then err invalid_address
    else ok (pos_part z)

abbrev pub parsed : {A : Type 0} → Option A → Outcome A
parsed none = err invalid_address
parsed (some a) = ok a

abbrev or_else : Option (List ℕ) → Option (List ℕ) → Option (List ℕ)
or_else (some s) t = some s
or_else none t = t

-- `part[3:]`, where `part` begins with DBB, DBW or DBD.
unfoldable pub offset_text : List ℕ → Option (List ℕ)
offset_text part = or_else (strip_prefix (b'D' ∷ b'B' ∷ b'B' ∷ []) part) (
    or_else (strip_prefix (b'D' ∷ b'B' ∷ b'W' ∷ []) part)
      (strip_prefix (b'D' ∷ b'B' ∷ b'D' ∷ []) part))

-- The parts of an address that begins with DB, without these two letters; there must be two.
abbrev pub parse_parts : List ℕ × List (List ℕ) → Outcome Addr
parse_parts (number, []) = err invalid_address
parse_parts (number, part ∷ []) = bind (in_range 1 (atoi number)) (λ db.
    bind (parsed (offset_text part)) (λ text.
      bind (in_range 0 (atoi text))
        (λ offset. ok (record { area = area_db; db = db; start = offset }))))
parse_parts (number, part ∷ other ∷ rest) = err invalid_address

abbrev pub area_of : ℕ → Option Area
area_of c =
    if c == b'M'
    then some area_m
    else if c == b'I'
    then some area_i
    else if c == b'Q'
    then some area_q
    else none

abbrev pub parse_area : List ℕ → Outcome Addr
parse_area [] = err invalid_address
parse_area (c ∷ text) = bind (in_range 0 (atoi text)) (λ offset.
    bind (parsed (area_of c)) (λ area. ok (record { area = area; db = 0; start = offset })))

-- `strings.HasPrefix(addr, "DB")`
abbrev pub parse_by : Option (List ℕ) → List ℕ → Outcome Addr
parse_by (some text) addr = parse_parts (split b'.' text)
parse_by none addr = parse_area addr

-- The address after `TrimSpace` and `ToUpper`.
unfoldable pub parse_upper : List ℕ → Outcome Addr
parse_upper addr = parse_by (strip_prefix (b'D' ∷ b'B' ∷ []) addr) addr

unfoldable pub parse_siemens_address : List ℕ → Outcome Addr
parse_siemens_address address = parse_upper (map to_upper (trim_space address))
