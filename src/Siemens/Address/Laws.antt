-- ===== src/Siemens/Address/Laws.antt =====
-- `parseSiemensAddress` on addresses of data blocks and areas.
use go_iot_client.Base.{
  ℕ, ◌≤◌, ◌≡◌, ◌≢◌, refl, ap, ◌∙◌, none, some, List, [], ◌∷◌, ◌++◌, All, All-append, arith,
}
use go_iot_client.Base.Int.{pos}
use go_iot_client.Base.Outcome.{ok}
use go_iot_client.Text.{to_upper, atoi, itoa, strip_prefix}
use go_iot_client.Text.Laws.{
  atoi-itoa, IsDigit, itoa-IsDigit, IsPlain, IsPlain-digit, All-weaken, upper_trim-plain, split-two,
  digit-ne-point,
}
use go_iot_client.Siemens.Address.{
  Area, area_db, in_range, offset_text, parse_parts, area_of, parse_by, parse_upper,
  parse_siemens_address,
}

itoa-IsPlain : (n : ℕ) → All IsPlain (itoa (pos n))
itoa-IsPlain n = All-weaken IsDigit IsPlain (itoa (pos n)) IsPlain-digit (itoa-IsDigit n)

itoa-no_point : (n : ℕ) → All (λ c. c ≢ b'.') (itoa (pos n))
itoa-no_point n = All-weaken IsDigit (λ c. c ≢ b'.') (itoa (pos n)) digit-ne-point (itoa-IsDigit n)

in_range-itoa : (low n : ℕ) → low ≤ n → n ≤ 65535 → in_range low (atoi (itoa (pos n))) ≡ ok n
in_range-itoa low n h k = rw (atoi-itoa n (omega arith)) (ground arith)

-- The size of an access in a data block: a byte, a word or a double word.
pub data Size : Type 0 where
  byte word double_word : Size

abbrev pub letter : Size → ℕ
letter byte = b'B'
letter word = b'W'
letter double_word = b'D'

letter-IsPlain : (size : Size) → IsPlain (letter size)
unfolding to_upper
letter-IsPlain byte = (refl, refl)
letter-IsPlain word = (refl, refl)
letter-IsPlain double_word = (refl, refl)

letter-ne-point : (size : Size) → letter size ≢ b'.'
letter-ne-point byte e = ground arith
letter-ne-point word e = ground arith
letter-ne-point double_word e = ground arith

abbrev pub offset_part : Size → ℕ → List ℕ
offset_part size n = b'D' ∷ b'B' ∷ letter size ∷ itoa (pos n)

offset_text-part : (size : Size) (n : ℕ) → offset_text (offset_part size n) ≡ some (itoa (pos n))
unfolding offset_text strip_prefix
offset_text-part byte n = refl
offset_text-part word n = refl
offset_text-part double_word n = refl

-- The address of an offset in a data block: `DB` and the block, and behind a point `DBB`, `DBW` or `DBD`
-- and the offset.
abbrev pub block_address : ℕ → Size → ℕ → List ℕ
block_address db size n = b'D' ∷ b'B' ∷ (itoa (pos db) ++ (b'.' ∷ offset_part size n))

D-IsPlain : IsPlain b'D'
unfolding to_upper
D-IsPlain = (refl, refl)

part-IsPlain : (size : Size) (n : ℕ) → All IsPlain (b'.' ∷ offset_part size n)
unfolding to_upper
part-IsPlain size n =
    ((refl, refl), ((refl, refl), ((refl, refl), (letter-IsPlain size, itoa-IsPlain n))))

block_address-IsPlain : (db : ℕ) (size : Size) (n : ℕ) → All IsPlain (block_address db size n)
unfolding to_upper
block_address-IsPlain db size n = (
  (refl, refl),
  (
    (refl, refl),
    All-append IsPlain (itoa (pos db)) (b'.' ∷ offset_part size n) (itoa-IsPlain db)
        (part-IsPlain size n),
  ),
)

strip_prefix-block :
    (db : ℕ) (size : Size) (n : ℕ)
    → strip_prefix (b'D' ∷ b'B' ∷ []) (block_address db size n)
      ≡ some (itoa (pos db) ++ (b'.' ∷ offset_part size n))
unfolding strip_prefix
strip_prefix-block db size n = refl

parse_parts-block :
    (db : ℕ) (size : Size) (n : ℕ)
    → 1 ≤ db
    → db ≤ 65535
    → n ≤ 65535
    → parse_parts (itoa (pos db), offset_part size n ∷ [])
      ≡ ok (record { area = area_db; db = db; start = n })
parse_parts-block db size n h k l =
    rw (in_range-itoa 1 db h k, offset_text-part size n, in_range-itoa 0 n (omega arith) l) refl

area-IsPlain : (c : ℕ) {area : Area} → area_of c ≡ some area → IsPlain c
unfolding to_upper
area-IsPlain c e = ground arith

strip_prefix-area :
    (c : ℕ) {area : Area} (text : List ℕ)
    → area_of c ≡ some area
    → strip_prefix (b'D' ∷ b'B' ∷ []) (c ∷ text) ≡ none
unfolding strip_prefix
strip_prefix-area c [] e = ground arith
strip_prefix-area c (d ∷ text) e = ground arith

part-no_point : (size : Size) (n : ℕ) → All (λ c. c ≢ b'.') (offset_part size n)
part-no_point size n =
    ((λ e. ground arith), ((λ e. ground arith), (letter-ne-point size, itoa-no_point n)))

parse-block :
    (db : ℕ) (size : Size) (n : ℕ)
    → 1 ≤ db
    → db ≤ 65535
    → n ≤ 65535
    → parse_siemens_address (block_address db size n)
      ≡ ok (record { area = area_db; db = db; start = n })
unfolding parse_siemens_address parse_upper
parse-block db size n h k l =
    ap parse_upper (upper_trim-plain (block_address db size n) (block_address-IsPlain db size n))
    ∙ ap (λ r. parse_by r (block_address db size n)) (strip_prefix-block db size n)
    ∙ ap parse_parts (
        split-two b'.' (itoa (pos db)) (offset_part size n) (itoa-no_point db)
          (part-no_point size n))
    ∙ parse_parts-block db size n h k l

parse-area :
    (c : ℕ) (area : Area) (n : ℕ)
    → area_of c ≡ some area
    → n ≤ 65535
    → parse_siemens_address (c ∷ itoa (pos n)) ≡ ok (record { area = area; db = 0; start = n })
unfolding parse_siemens_address parse_upper
parse-area c area n h k =
    ap parse_upper (upper_trim-plain (c ∷ itoa (pos n)) (area-IsPlain c h, itoa-IsPlain n))
    ∙ ap (λ r. parse_by r (c ∷ itoa (pos n))) (strip_prefix-area c (itoa (pos n)) h)
    ∙ rw (in_range-itoa 0 n (omega arith) k, h) refl

-- For a data block from 1 to 65535 and an offset up to 65535, `DB`, the digits of the block, a point,
-- `DBB`, `DBW` or `DBD` and the digits of the offset are the address of the offset in the block; the
-- letter of an area and the digits of the offset are the address of the offset in the area.
pub parse_siemens_address-itoa :
    (db : ℕ) (size : Size) (c : ℕ) (area : Area) (n : ℕ)
    → 1 ≤ db
    → db ≤ 65535
    → area_of c ≡ some area
    → n ≤ 65535
    → (parse_siemens_address (block_address db size n)
        ≡ ok (record { area = area_db; db = db; start = n }))
      × (parse_siemens_address (c ∷ itoa (pos n)) ≡ ok (record { area = area; db = 0; start = n }))
parse_siemens_address-itoa db size c area n h k e l =
    (parse-block db size n h k l, parse-area c area n e l)
