-- ===== src/Omron/Address/Laws.antt =====
-- `parseOmronAddress` on the addresses of words and bits.
use go_iot_client.Base.{
  ℕ, ◌≤◌, ◌≡◌, ◌≢◌, refl, ap, ◌∙◌, some, List, [], ◌∷◌, ◌++◌, All, All-append, arith,
}
use go_iot_client.Base.Int.{pos}
use go_iot_client.Base.Outcome.{ok}
use go_iot_client.Text.{to_upper, itoa, split}
use go_iot_client.Text.Laws.{
  parse_uint-itoa, IsDigit, itoa-IsDigit, IsPlain, IsPlain-digit, All-weaken, upper_trim-plain,
  split-one, split-two, digit-ne-point,
}
use go_iot_client.Omron.Address.{area_code, bit_of, parse_upper, parse_omron_address}

itoa-IsPlain : (n : ℕ) → All IsPlain (itoa (pos n))
itoa-IsPlain n = All-weaken IsDigit IsPlain (itoa (pos n)) IsPlain-digit (itoa-IsDigit n)

itoa-no_point : (n : ℕ) → All (λ c. c ≢ b'.') (itoa (pos n))
itoa-no_point n = All-weaken IsDigit (λ c. c ≢ b'.') (itoa (pos n)) digit-ne-point (itoa-IsDigit n)

area-IsPlain : (c : ℕ) {code : ℕ} → area_code c ≡ some code → IsPlain c
unfolding area_code to_upper
area-IsPlain c e = ground arith

parsed_word :
    (c code w bit : ℕ) (raw : List ℕ) (rest : List (List ℕ))
    → area_code c ≡ some code
    → w ≤ 65535
    → split b'.' raw ≡ (itoa (pos w), rest)
    → bit_of rest ≡ ok bit
    → parse_upper (c ∷ raw) ≡ ok (record { word_code = code; word_addr = w; bit_addr = bit })
unfolding parse_upper
parsed_word c code w bit raw rest a h s b = rw (a, s, parse_uint-itoa 65535 w h, b) refl

bit_of-itoa : (bit : ℕ) → bit ≤ 15 → bit_of (itoa (pos bit) ∷ []) ≡ ok bit
bit_of-itoa bit h = rw (parse_uint-itoa 255 bit (omega arith)) (ground arith)

point-IsPlain : IsPlain b'.'
unfolding to_upper
point-IsPlain = (refl, refl)

-- For the letter of an area, a word up to 65535 and a bit up to 15: the letter and the digits of the
-- word are the address of the word, and with a point and the digits of the bit behind them that of the
-- bit.
pub parse_omron_address-itoa :
    (c code w bit : ℕ)
    → area_code c ≡ some code
    → w ≤ 65535
    → bit ≤ 15
    → (parse_omron_address (c ∷ itoa (pos w))
        ≡ ok (record { word_code = code; word_addr = w; bit_addr = 0 }))
      × (parse_omron_address (c ∷ (itoa (pos w) ++ (b'.' ∷ itoa (pos bit))))
          ≡ ok (record { word_code = code; word_addr = w; bit_addr = bit }))
unfolding parse_omron_address
parse_omron_address-itoa c code w bit a h k = (
  ap parse_upper (upper_trim-plain (c ∷ itoa (pos w)) (area-IsPlain c a, itoa-IsPlain w))
      ∙ parsed_word c code w 0 (itoa (pos w)) [] a h
          (split-one b'.' (itoa (pos w)) (itoa-no_point w)) refl,
  ap parse_upper (
        upper_trim-plain (c ∷ (itoa (pos w) ++ (b'.' ∷ itoa (pos bit)))) (
          area-IsPlain c a,
          All-append IsPlain (itoa (pos w)) (b'.' ∷ itoa (pos bit)) (itoa-IsPlain w)
              (point-IsPlain, itoa-IsPlain bit),
        ))
      ∙ parsed_word c code w bit (itoa (pos w) ++ (b'.' ∷ itoa (pos bit))) (itoa (pos bit) ∷ []) a h
          (split-two b'.' (itoa (pos w)) (itoa (pos bit)) (itoa-no_point w) (itoa-no_point bit))
          (bit_of-itoa bit k),
)
