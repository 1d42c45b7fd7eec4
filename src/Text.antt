-- ===== src/Text.antt =====
-- What the code uses of `strings`, `strconv` and `encoding/hex`, on ASCII text as a list of codes.
pub mod Laws
use mathlib.Core.Option
use go_iot_client.Base.Int.{ℤ, pos, negsuc}
use go_iot_client.Base.{
  ℕ, zero, suc, ◌++◌, ◌+◌, ◌-◌, ◌*◌, ◌/◌, ◌%◌, Bool, ◌&&◌, ◌||◌, Option, none, some, List, [], ◌∷◌,
  ltb, leb, ◌==◌, if◌then◌else◌,
}

-- `\t`, `\n`, `\v`, `\f`, `\r` and the space
abbrev pub is_space : ℕ → Bool
is_space c = leb 9 c && leb c 13 || c == b' '

abbrev pub is_nul : ℕ → Bool
is_nul c = c == 0

unfoldable pub trim_left : (ℕ → Bool) → List ℕ → List ℕ
trim_left p [] = []
trim_left p (c ∷ s) = let rest = trim_left p s in if p c then rest else c ∷ s

abbrev keep_left : (ℕ → Bool) → ℕ → List ℕ → List ℕ
keep_left p c [] = if p c then [] else c ∷ []
keep_left p c (d ∷ s) = c ∷ d ∷ s

unfoldable pub trim_right : (ℕ → Bool) → List ℕ → List ℕ
trim_right p [] = []
trim_right p (c ∷ s) = keep_left p c (trim_right p s)

-- `strings.TrimSpace`
unfoldable pub trim_space : List ℕ → List ℕ
trim_space s = trim_right is_space (trim_left is_space s)

-- `unicode.ToUpper` of an ASCII code
unfoldable pub to_upper : ℕ → ℕ
to_upper c = if leb b'a' c && leb c b'z' then c - 32 else c

abbrev pub is_digit : ℕ → Bool
is_digit c = leb b'0' c && leb c b'9'

-- The loop of `strconv.ParseUint(s, 10, bits)`, for limit = 2 ^ bits - 1: any other character and
-- any value past the limit end it with an error.
unfoldable pub parse_digits : ℕ → ℕ → List ℕ → Option ℕ
parse_digits limit n [] = some n
parse_digits limit n (c ∷ s) =
    let rest = parse_digits limit (n * 10 + (c - 48)) s in
    if is_digit c then if leb (n * 10 + (c - 48)) limit then rest else none else none

unfoldable pub parse_uint : ℕ → List ℕ → Option ℕ
parse_uint limit [] = none
parse_uint limit (c ∷ s) = parse_digits limit 0 (c ∷ s)

-- Decimal digits, most significant first; a number has no more digits than the fuel `suc n`.
unfoldable pub decimal : ℕ → ℕ → List ℕ
decimal zero n = []
decimal (suc fuel) n =
    let front = decimal fuel (n / 10) in
    if ltb n 10 then (n + 48) ∷ [] else front ++ ((n % 10 + 48) ∷ [])

-- `strconv.Itoa`
unfoldable pub itoa : ℤ → List ℕ
itoa (pos n) = decimal (suc n) n
itoa (negsuc n) = b'-' ∷ decimal (suc (suc n)) (suc n)

-- `strconv.Atoi`: an optional sign and digits, for an int of 64 bits.
abbrev negated : ℕ → ℤ
negated zero = pos 0
negated (suc n) = negsuc n

unfoldable pub atoi : List ℕ → Option ℤ
atoi [] = none
atoi (c ∷ s) =
    if c == b'-'
    then Option.map negated (parse_uint 9223372036854775808 s)
    else if c == b'+'
    then Option.map pos (parse_uint 9223372036854775807 s)
    else Option.map pos (parse_uint 9223372036854775807 (c ∷ s))

-- `strings.Split(s, sep)` for one character: the part before the first `sep`, and the parts behind it.
unfoldable pub split : ℕ → List ℕ → List ℕ × List (List ℕ)
split sep [] = ([], [])
split sep (c ∷ s) =
    let (part, parts) = split sep s in if c == sep then ([], part ∷ parts) else (c ∷ part, parts)

-- `strings.HasPrefix`, with what stands behind the prefix.
unfoldable pub strip_prefix : List ℕ → List ℕ → Option (List ℕ)
strip_prefix [] s = some s
strip_prefix (p ∷ ps) [] = none
strip_prefix (p ∷ ps) (c ∷ s) = let rest = strip_prefix ps s in if p == c then rest else none

-- `hex.Encode`: two lower-case digits for each byte.
unfoldable pub hex_digit : ℕ → ℕ
hex_digit n = if ltb n 10 then n + 48 else n + 87

unfoldable pub hex_encode : List ℕ → List ℕ
hex_encode [] = []
hex_encode (b ∷ bs) = hex_digit (b / 16) ∷ hex_digit (b % 16) ∷ hex_encode bs

unfoldable pub hex_value : ℕ → Option ℕ
hex_value c =
    if is_digit c
    then some (c - 48)
    else if leb b'a' c && leb c b'f'
    then some (c - 87)
    else if leb b'A' c && leb c b'F'
    then some (c - 55)
    else none

abbrev hex_byte : Option ℕ → Option ℕ → Option (List ℕ) → Option (List ℕ)
hex_byte (some hi) (some lo) (some bs) = some ((hi * 16 + lo) ∷ bs)
hex_byte _ _ _ = none

-- `hex.DecodeString`, with `none` for its errors.
unfoldable pub hex_decode : List ℕ → Option (List ℕ)
hex_decode [] = some []
hex_decode (c ∷ []) = none
hex_decode (c ∷ d ∷ s) = hex_byte (hex_value c) (hex_value d) (hex_decode s)
