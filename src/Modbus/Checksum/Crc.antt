-- ===== src/Modbus/Checksum/Crc.antt =====
-- What the CRC of a frame detects.
use go_iot_client.Base.{
  ℕ, zero, suc, ◌*◌, ◌/◌, ◌%◌, ◌^◌, ◌<◌, bit_xor, ◌≡◌, ◌≢◌, refl, ap, sym, ◌∙◌, ◌⊎◌, inl, inr, List,
  [], ◌∷◌, ◌++◌, All, arith,
}
use go_iot_client.Base.Words.{IsByte, IsWord, put_uint16, little}
use go_iot_client.Base.Xor.{
  bit_and-one, xor-lt, xor-cancel, xor-injective, xor_comm, xor_self, xor-low_byte,
}
use native.Mathlib.Nat.{pow-suc}
use go_iot_client.Modbus.Checksum.{crc_bit, crc_bits, crc_loop, crc16}

-- One round in plain arithmetic, on an even and on an odd word.
crc_bit-even : (c : ℕ) → c % 2 ≡ 0 → crc_bit c ≡ c / 2
unfolding crc_bit
crc_bit-even c h = ground (arith, bit_and-one c)

crc_bit-odd : (c : ℕ) → c % 2 ≡ 1 → crc_bit c ≡ bit_xor (c / 2) 0xA001
unfolding crc_bit
crc_bit-odd c h = ground (arith, bit_and-one c)

parity : (c : ℕ) → (c % 2 ≡ 0) ⊎ (c % 2 ≡ 1)
parity c = grind arith

-- The polynomial sets the top bit, which a shifted word has not.
top-xor : (x : ℕ) → x < 32768 → ¬ (bit_xor x 0xA001 < 32768)
top-xor x h k = omega (
  arith,
  xor-cancel 0xA001 x,
  xor-lt 15 (bit_xor 0xA001 x) x (omega (arith, xor_comm x 0xA001)) h,
)

crc_bit-IsWord : (c : ℕ) → IsWord c → IsWord (crc_bit c)
crc_bit-IsWord c h = elim (parity c) [
  | inl e ↦ omega (arith, crc_bit-even c e)
  | inr o ↦ omega (arith, crc_bit-odd c o, xor-lt 16 (c / 2) 0xA001 (omega arith) (omega arith))
]

-- A round loses nothing: the top bit tells which way it went.
crc_bit-injective : (c d : ℕ) → IsWord c → IsWord d → crc_bit c ≡ crc_bit d → c ≡ d
crc_bit-injective c d h k e = elim (parity c) [
  | inl p ↦ elim (parity d) [
    | inl q ↦ omega (arith, crc_bit-even c p, crc_bit-even d q)
    | inr q ↦
        absurd (top-xor (d / 2) (omega arith) (omega (arith, crc_bit-even c p, crc_bit-odd d q)))
  ]
  | inr p ↦ elim (parity d) [
    | inl q ↦
        absurd (top-xor (c / 2) (omega arith) (omega (arith, crc_bit-odd c p, crc_bit-even d q)))
    | inr q ↦
        omega (
          arith,
          xor-injective (c / 2) (d / 2) 0xA001 (sym (crc_bit-odd c p) ∙ e ∙ crc_bit-odd d q),
        )
  ]
]

crc_bits-IsWord : (n c : ℕ) → IsWord c → IsWord (crc_bits n c)
unfolding crc_bits
crc_bits-IsWord zero c h = h
crc_bits-IsWord (suc n) c h = crc_bits-IsWord n (crc_bit c) (crc_bit-IsWord c h)

crc_bits-injective : (n c d : ℕ) → IsWord c → IsWord d → crc_bits n c ≡ crc_bits n d → c ≡ d
unfolding crc_bits
crc_bits-injective zero c d h k e = e
crc_bits-injective (suc n) c d h k e =
    crc_bit-injective c d h k
      (crc_bits-injective n (crc_bit c) (crc_bit d) (crc_bit-IsWord c h) (crc_bit-IsWord d k) e)

xor-IsWord : (c b : ℕ) → IsWord c → IsByte b → IsWord (bit_xor c b)
xor-IsWord c b h k = xor-lt 16 c b (omega arith) (omega arith)

pub crc_loop-IsWord : (c : ℕ) (xs : List ℕ) → IsWord c → All IsByte xs → IsWord (crc_loop c xs)
unfolding crc_loop
crc_loop-IsWord c [] h bs = h
crc_loop-IsWord c (x ∷ xs) h bs =
    crc_loop-IsWord (crc_bits 8 (bit_xor c x)) xs
      (crc_bits-IsWord 8 (bit_xor c x) (xor-IsWord c x h bs.0)) bs.1

-- The checksum of bytes fits the two bytes that carry it.
pub crc16-IsWord : (xs : List ℕ) → All IsByte xs → IsWord (crc16 xs)
unfolding crc16
crc16-IsWord xs bs = crc_loop-IsWord 0xFFFF xs (omega arith) bs

crc_loop-append : (c : ℕ) (xs ys : List ℕ) → crc_loop c (xs ++ ys) ≡ crc_loop (crc_loop c xs) ys
unfolding crc_loop
crc_loop-append c [] ys = refl
crc_loop-append c (x ∷ xs) ys = crc_loop-append (crc_bits 8 (bit_xor c x)) xs ys

crc_loop-injective :
    (xs : List ℕ) (c d : ℕ)
    → IsWord c
    → IsWord d
    → All IsByte xs
    → crc_loop c xs ≡ crc_loop d xs
    → c ≡ d
unfolding crc_loop
crc_loop-injective [] c d h k bs e = e
crc_loop-injective (x ∷ xs) c d h k bs e = xor-injective c d x (
    crc_bits-injective 8 (bit_xor c x) (bit_xor d x) (xor-IsWord c x h bs.0) (xor-IsWord d x k bs.0)
      (crc_loop-injective xs (crc_bits 8 (bit_xor c x)) (crc_bits 8 (bit_xor d x))
        (crc_bits-IsWord 8 _ (xor-IsWord c x h bs.0)) (crc_bits-IsWord 8 _ (xor-IsWord d x k bs.0))
        bs.1 e))

crc16_one_byte_same :
    (xs ys : List ℕ) (a b : ℕ)
    → All IsByte xs
    → All IsByte ys
    → IsByte a
    → IsByte b
    → crc16 (xs ++ (a ∷ ys)) ≡ crc16 (xs ++ (b ∷ ys))
    → a ≡ b
unfolding crc16 crc_loop
crc16_one_byte_same xs ys a b hx hy ha hb e =
    xor-injective a b c (xor_comm a c ∙ same ∙ xor_comm c b)
  where
    c : ℕ
    c = crc_loop 0xFFFF xs

    c-IsWord : IsWord c
    c-IsWord = crc_loop-IsWord 0xFFFF xs (omega arith) hx

    tails : crc_loop c (a ∷ ys) ≡ crc_loop c (b ∷ ys)
    tails = sym (crc_loop-append 0xFFFF xs (a ∷ ys)) ∙ e ∙ crc_loop-append 0xFFFF xs (b ∷ ys)

    same : bit_xor c a ≡ bit_xor c b
    same =
        crc_bits-injective 8 (bit_xor c a) (bit_xor c b) (xor-IsWord c a c-IsWord ha)
          (xor-IsWord c b c-IsWord hb)
          (crc_loop-injective ys (crc_bits 8 (bit_xor c a)) (crc_bits 8 (bit_xor c b))
            (crc_bits-IsWord 8 _ (xor-IsWord c a c-IsWord ha))
            (crc_bits-IsWord 8 _ (xor-IsWord c b c-IsWord hb)) hy tails)

-- Rounds on a word whose low bits are clear shift it down.
crc_bits-clear : (n c : ℕ) → crc_bits n (c * 2 ^ n) ≡ c
unfolding crc_bits
crc_bits-clear zero c = omega arith
crc_bits-clear (suc n) c =
    ap (crc_bits n) (crc_bit-even (c * 2 ^ suc n) (omega (arith, double)) ∙ omega (arith, double))
    ∙ crc_bits-clear n c
  where
    double : c * 2 ^ suc n ≡ 2 * (c * 2 ^ n)
    double = omega (arith, ap (λ (t : ℕ). c * t) (pow-suc 2 n))

crc_loop-own : (c : ℕ) → IsWord c → crc_loop c (put_uint16 little c) ≡ 0
unfolding crc_loop
crc_loop-own c h =
    ap (λ (t : ℕ). crc_bits 8 (bit_xor t (c / 256 % 256)))
      (ap (crc_bits 8) (xor-low_byte c) ∙ crc_bits-clear 8 (c / 256))
    ∙ ap (λ (t : ℕ). crc_bits 8 (bit_xor (c / 256) t)) (omega arith)
    ∙ ap (crc_bits 8) (xor_self (c / 256))
    ∙ crc_bits-clear 8 0

-- A message of bytes with its own CRC behind it, low byte first, has the CRC 0.
pub crc16_residue : (xs : List ℕ) → All IsByte xs → crc16 (xs ++ put_uint16 little (crc16 xs)) ≡ 0
unfolding crc16
crc16_residue xs h =
    crc_loop-append 0xFFFF xs (put_uint16 little (crc_loop 0xFFFF xs))
    ∙ crc_loop-own (crc_loop 0xFFFF xs) (crc_loop-IsWord 0xFFFF xs (omega arith) h)

-- Two messages of bytes that differ in one byte have different CRCs.
pub crc16_one_byte :
    (xs ys : List ℕ) (a b : ℕ)
    → All IsByte xs
    → All IsByte ys
    → IsByte a
    → IsByte b
    → a ≢ b
    → crc16 (xs ++ (a ∷ ys)) ≢ crc16 (xs ++ (b ∷ ys))
crc16_one_byte xs ys a b hx hy ha hb ne e = ne (crc16_one_byte_same xs ys a b hx hy ha hb e)
