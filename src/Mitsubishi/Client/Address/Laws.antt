-- ===== src/Mitsubishi/Client/Address/Laws.antt =====
-- `parseDAddress` on the addresses of D registers.
use go_iot_client.Base.{
  map, Option, none, some, ℕ, ◌≤◌, ◌<◌, ◌≡◌, refl, ap, ◌∙◌, List, [], ◌∷◌, length, All, arith,
}
use go_iot_client.Base.Int.{pos}
use go_iot_client.Text.{trim_space}
use go_iot_client.Base.Outcome.{ok}
use go_iot_client.Text.{to_upper, parse_uint, itoa}
use go_iot_client.Text.Laws.{
  parse_uint-itoa, parse_uint-le, IsDigit, itoa-IsDigit, length-itoa, IsPlain, IsPlain-digit,
  All-weaken, trim_upper-plain,
}
use go_iot_client.Mitsubishi.Client.Address.{parsed, parse_upper, parse_d_address}

parse_upper-digits :
    (s : List ℕ) → 0 < length s → parse_upper (b'D' ∷ s) ≡ parsed (parse_uint 65535 s)
unfolding parse_upper
parse_upper-digits [] h = absurd (omega arith)
parse_upper-digits (c ∷ s) h = refl

address-IsPlain : (n : ℕ) → All IsPlain (b'D' ∷ itoa (pos n))
unfolding to_upper
address-IsPlain n =
    ((refl, refl), All-weaken IsDigit IsPlain (itoa (pos n)) IsPlain-digit (itoa-IsDigit n))

-- A D followed by the digits of a number up to 65535 is the address of the register with that number.
pub parse_d_address-itoa : (n : ℕ) → n ≤ 65535 → parse_d_address (b'D' ∷ itoa (pos n)) ≡ ok n
unfolding parse_d_address
parse_d_address-itoa n h =
    ap parse_upper (trim_upper-plain (b'D' ∷ itoa (pos n)) (address-IsPlain n))
    ∙ parse_upper-digits (itoa (pos n)) (length-itoa n)
    ∙ ap parsed (parse_uint-itoa 65535 n h)

parsed-le :
    (o : Option ℕ) {n : ℕ} → ((m : ℕ) → o ≡ some m → m ≤ 65535) → parsed o ≡ ok n → n ≤ 65535
parsed-le none h e = cc
parsed-le (some m) {n = n} h e = let le = h m refl in ground arith

parse_upper-le : (s : List ℕ) {n : ℕ} → parse_upper s ≡ ok n → n ≤ 65535
unfolding parse_upper
parse_upper-le [] e = cc
parse_upper-le (c ∷ []) e = cc
parse_upper-le (c ∷ d ∷ s) {n = n} e =
    let le : parsed (parse_uint 65535 (d ∷ s)) ≡ ok n → n ≤ 65535 =
      parsed-le (parse_uint 65535 (d ∷ s)) (λ m p. parse_uint-le 65535 (d ∷ s) p) in
    ground arith

-- An address that is read is in range.
pub parse_d_address-le : (address : List ℕ) {n : ℕ} → parse_d_address address ≡ ok n → n ≤ 65535
unfolding parse_d_address
parse_d_address-le address e = parse_upper-le (trim_space (map to_upper address)) e
