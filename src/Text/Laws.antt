-- ===== src/Text/Laws.antt =====
-- Decimal numbers, trimming, upper case and splitting.
use go_iot_client.Base.{
  ℕ, zero, suc, ◌+◌, ◌-◌, ◌*◌, ◌/◌, ◌%◌, ◌≤◌, ◌<◌, ◌≡◌, ◌≢◌, refl, sym, ap, ◌∙◌, append-nil, inl,
  inr, true, false, some, List, [], ◌∷◌, ◌++◌, map, append_assoc, length, length-append, All,
  All-append, ltb, Bool-cases, arith,
}
use go_iot_client.Base.Int.{pos}
use go_iot_client.Text.{
  is_space, trim_left, trim_right, trim_space, to_upper, is_digit, parse_digits, parse_uint,
  decimal, itoa, atoi, split,
}

-- What `itoa` writes is read back, and what follows it is read on.
parse_digits-decimal :
    (limit fuel n : ℕ) (rest : List ℕ)
    → n < fuel
    → n ≤ limit
    → parse_digits limit 0 (decimal fuel n ++ rest) ≡ parse_digits limit n rest
unfolding parse_digits decimal
parse_digits-decimal limit zero n rest h k = absurd (omega arith)
parse_digits-decimal limit (suc fuel) n rest h k = elim (Bool-cases (ltb n 10)) [
  | inl one ↦ rw one (ground arith)
  | inr more ↦ rw more (
      ap (λ xs. parse_digits limit 0 xs)
        (append_assoc (decimal fuel (n / 10)) ((n % 10 + 48) ∷ []) rest)
      ∙ parse_digits-decimal limit fuel (n / 10) ((n % 10 + 48) ∷ rest) (ground arith) (omega arith)
      ∙ ground arith)
]

length-decimal : (fuel n : ℕ) → 0 < length (decimal (suc fuel) n)
unfolding decimal
length-decimal fuel n = ground (arith, length-append (decimal fuel (n / 10)) ((n % 10 + 48) ∷ []))

parse_uint-nonempty :
    (limit : ℕ) (s : List ℕ) → 0 < length s → parse_uint limit s ≡ parse_digits limit 0 s
unfolding parse_uint
parse_uint-nonempty limit [] h = absurd (omega arith)
parse_uint-nonempty limit (c ∷ s) h = refl

-- A number that is in range is read back from its digits.
pub parse_uint-itoa : (limit n : ℕ) → n ≤ limit → parse_uint limit (itoa (pos n)) ≡ some n
unfolding itoa
parse_uint-itoa limit n h =
    parse_uint-nonempty limit (decimal (suc n) n) (length-decimal n n)
    ∙ ap (parse_digits limit 0) (sym (append-nil (decimal (suc n) n)))
    ∙ parse_digits-decimal limit (suc n) n [] (omega arith) h
    ∙ unfold parse_digits in refl

-- A number that is read is in range.
parse_digits-le :
    (limit n : ℕ) (s : List ℕ) {r : ℕ} → n ≤ limit → parse_digits limit n s ≡ some r → r ≤ limit
unfolding parse_digits
parse_digits-le limit n [] h e = ground arith
parse_digits-le limit n (c ∷ s) {r = r} h e =
    let next = parse_digits-le limit (n * 10 + (c - 48)) s {r = r} in ground arith

pub parse_uint-le : (limit : ℕ) (s : List ℕ) {r : ℕ} → parse_uint limit s ≡ some r → r ≤ limit
unfolding parse_uint
parse_uint-le limit [] e = cc
parse_uint-le limit (c ∷ s) e = parse_digits-le limit 0 (c ∷ s) (omega arith) e

-- Digits.
abbrev pub IsDigit : ℕ → Type 0
IsDigit c = is_digit c ≡ true

decimal-IsDigit : (fuel n : ℕ) → All IsDigit (decimal fuel n)
unfolding decimal
decimal-IsDigit zero n = tt
decimal-IsDigit (suc fuel) n = elim (Bool-cases (ltb n 10)) [
  | inl one ↦ rw one (ground arith)
  | inr more ↦ rw more (
      All-append IsDigit (decimal fuel (n / 10)) ((n % 10 + 48) ∷ [])
        (decimal-IsDigit fuel (n / 10)) (ground arith))
]

pub itoa-IsDigit : (n : ℕ) → All IsDigit (itoa (pos n))
unfolding itoa
itoa-IsDigit n = decimal-IsDigit (suc n) n

pub length-itoa : (n : ℕ) → 0 < length (itoa (pos n))
unfolding itoa
length-itoa n = length-decimal n n

atoi-digits :
    (s : List ℕ) {n : ℕ}
    → All IsDigit s
    → parse_uint 9223372036854775807 s ≡ some n
    → atoi s ≡ some (pos n)
unfolding atoi
atoi-digits [] h e = absurd (unfold parse_uint in cc)
atoi-digits (c ∷ s) h e = rw e (ground arith)

pub atoi-itoa : (n : ℕ) → n ≤ 9223372036854775807 → atoi (itoa (pos n)) ≡ some (pos n)
atoi-itoa n h =
    atoi-digits (itoa (pos n)) (itoa-IsDigit n) (parse_uint-itoa 9223372036854775807 n h)

-- Characters that trimming and upper case leave alone.
abbrev pub IsPlain : ℕ → Type 0
IsPlain c = (is_space c ≡ false) × (to_upper c ≡ c)

pub IsPlain-digit : (c : ℕ) → IsDigit c → IsPlain c
unfolding to_upper
IsPlain-digit c h = ground arith

pub All-weaken : (P Q : ℕ → Type 0) (xs : List ℕ) → ((x : ℕ) → P x → Q x) → All P xs → All Q xs
All-weaken P Q [] f h = tt
All-weaken P Q (x ∷ xs) f h = (f x h.0, All-weaken P Q xs f h.1)

trim_right-plain : (xs : List ℕ) → All IsPlain xs → trim_right is_space xs ≡ xs
unfolding trim_right
trim_right-plain [] h = refl
trim_right-plain (x ∷ []) h = ground arith
trim_right-plain (x ∷ y ∷ xs) h = rw (trim_right-plain (y ∷ xs) h.1)

trim_left-plain : (xs : List ℕ) → All IsPlain xs → trim_left is_space xs ≡ xs
unfolding trim_left
trim_left-plain [] h = refl
trim_left-plain (x ∷ xs) h = ground arith

map-to_upper-plain : (xs : List ℕ) → All IsPlain xs → map to_upper xs ≡ xs
map-to_upper-plain [] h = refl
map-to_upper-plain (x ∷ xs) h = rw (h.0.1, map-to_upper-plain xs h.1)

pub trim_space-plain : (xs : List ℕ) → All IsPlain xs → trim_space xs ≡ xs
unfolding trim_space
trim_space-plain xs h = ap (trim_right is_space) (trim_left-plain xs h) ∙ trim_right-plain xs h

pub upper_trim-plain : (xs : List ℕ) → All IsPlain xs → map to_upper (trim_space xs) ≡ xs
upper_trim-plain xs h = ap (map to_upper) (trim_space-plain xs h) ∙ map-to_upper-plain xs h

pub trim_upper-plain : (xs : List ℕ) → All IsPlain xs → trim_space (map to_upper xs) ≡ xs
trim_upper-plain xs h = ap trim_space (map-to_upper-plain xs h) ∙ trim_space-plain xs h

-- Text without the separator is one part.
pub split-one : (sep : ℕ) (xs : List ℕ) → All (λ c. c ≢ sep) xs → split sep xs ≡ (xs, [])
unfolding split
split-one sep [] h = refl
split-one sep (x ∷ xs) h = rw (split-one sep xs h.1) (ground arith)

pub split-two :
    (sep : ℕ) (xs ys : List ℕ)
    → All (λ c. c ≢ sep) xs
    → All (λ c. c ≢ sep) ys
    → split sep (xs ++ (sep ∷ ys)) ≡ (xs, ys ∷ [])
unfolding split
split-two sep [] ys h k = rw (split-one sep ys k) (ground arith)
split-two sep (x ∷ xs) ys h k = rw (split-two sep xs ys h.1 k) (ground arith)

pub digit-ne-point : (c : ℕ) → IsDigit c → c ≢ b'.'
digit-ne-point c h e = ground arith
