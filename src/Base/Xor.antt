-- ===== src/Base/Xor.antt =====
-- Laws of `^` at variables, from its digit recursion, and masks on one byte.
use Prim.Native.Nat.{
  ℕ, zero, suc, ◌+◌, ◌*◌, ◌/◌, ◌%◌, ◌^◌, ◌≤◌, ◌<◌, bit_and, bit_xor, digits, differ,
  bit_xor-bitwise, min, bit_and-bitwise,
}
use mathlib.Core.Path.{◌≡◌, refl, sym, ap, ◌∙◌}
use native.Mathlib.Omega.{arith}
use native.Mathlib.Nat.{pow-suc}

-- The digit recursion does not depend on its fuel.
module _ (z : ℕ → ℕ) (f : ℕ → ℕ → ℕ) where
  digits_enough : (n m a b : ℕ) → a ≤ n → a ≤ m → digits z f n a b ≡ digits z f m a b
  digits_enough zero zero a b p q = refl
  digits_enough zero (suc m) zero b p q = refl
  digits_enough zero (suc m) (suc a) b p q = absurd (omega arith)
  digits_enough (suc n) zero zero b p q = refl
  digits_enough (suc n) zero (suc a) b p q = absurd (omega arith)
  digits_enough (suc n) (suc m) zero b p q = refl
  digits_enough (suc n) (suc m) (suc a) b p q =
      ap (λ (t : ℕ). t * 2 + f (suc a % 2) (b % 2))
        (digits_enough n m (suc a / 2) (b / 2) (omega arith) (omega arith))

differ-small : (x y : ℕ) → x < 2 → y < 2 → differ x y ≡ (x + y) % 2
differ-small zero zero h k = refl
differ-small zero (suc zero) h k = refl
differ-small (suc zero) zero h k = refl
differ-small (suc zero) (suc zero) h k = refl
differ-small (suc (suc x)) y h k = absurd (omega arith)
differ-small zero (suc (suc y)) h k = absurd (omega arith)
differ-small (suc zero) (suc (suc y)) h k = absurd (omega arith)

zero-xor : (b : ℕ) → bit_xor 0 b ≡ b
zero-xor b = bit_xor-bitwise 0 b

-- One equation for the lowest digit.
pub bit_xor_step : (a b : ℕ) → bit_xor a b ≡ bit_xor (a / 2) (b / 2) * 2 + (a % 2 + b % 2) % 2
bit_xor_step zero b = omega (arith, zero-xor b, zero-xor (b / 2))
bit_xor_step (suc a) b = omega (
  arith,
  bit_xor-bitwise (suc a) b,
  bit_xor-bitwise (suc a / 2) (b / 2),
  differ-small (suc a % 2) (b % 2) (omega arith) (omega arith),
  digits_enough (λ y. y) differ a (suc a / 2) (suc a / 2) (b / 2) (omega arith) (omega arith),
)

xor-cancel_fuel : (n a b : ℕ) → a ≤ n → b ≤ n → bit_xor (bit_xor a b) b ≡ a
xor-cancel_fuel zero zero zero h k = refl
xor-cancel_fuel zero (suc a) b h k = absurd (omega arith)
xor-cancel_fuel zero zero (suc b) h k = absurd (omega arith)
xor-cancel_fuel (suc n) a b h k =
    bit_xor_step (bit_xor a b) b
    ∙ ap (λ (t : ℕ). bit_xor t (b / 2) * 2 + (bit_xor a b % 2 + b % 2) % 2) half
    ∙ omega (arith, bit_xor_step a b, xor-cancel_fuel n (a / 2) (b / 2) (omega arith) (omega arith))
  where
    half : bit_xor a b / 2 ≡ bit_xor (a / 2) (b / 2)
    half = omega (arith, bit_xor_step a b)

-- `^` twice with the same word is nothing.
pub xor-cancel : (a b : ℕ) → bit_xor (bit_xor a b) b ≡ a
xor-cancel a b = xor-cancel_fuel (a + b) a b (omega arith) (omega arith)

pub xor-injective : (a b c : ℕ) → bit_xor a c ≡ bit_xor b c → a ≡ b
xor-injective a b c h = sym (xor-cancel a c) ∙ ap (λ (t : ℕ). bit_xor t c) h ∙ xor-cancel b c

xor_comm_fuel : (n a b : ℕ) → a ≤ n → b ≤ n → bit_xor a b ≡ bit_xor b a
xor_comm_fuel zero zero zero h k = refl
xor_comm_fuel zero (suc a) b h k = absurd (omega arith)
xor_comm_fuel zero zero (suc b) h k = absurd (omega arith)
xor_comm_fuel (suc n) a b h k = omega (
  arith,
  bit_xor_step a b,
  bit_xor_step b a,
  xor_comm_fuel n (a / 2) (b / 2) (omega arith) (omega arith),
)

pub xor_comm : (a b : ℕ) → bit_xor a b ≡ bit_xor b a
xor_comm a b = xor_comm_fuel (a + b) a b (omega arith) (omega arith)

pub xor-zero : (a : ℕ) → bit_xor a 0 ≡ a
xor-zero a = xor_comm a 0 ∙ zero-xor a

pub xor_self : (a : ℕ) → bit_xor a a ≡ 0
xor_self a = ap (λ (t : ℕ). bit_xor t a) (sym (zero-xor a)) ∙ xor-cancel 0 a

-- Words of `k` bits stay below `2 ^ k`.
pub xor-lt : (k a b : ℕ) → a < 2 ^ k → b < 2 ^ k → bit_xor a b < 2 ^ k
xor-lt zero zero zero h g = omega arith
xor-lt zero (suc a) b h g = absurd (omega arith)
xor-lt zero zero (suc b) h g = absurd (omega arith)
xor-lt (suc k) a b h g =
    omega (arith, bit_xor_step a b, pow-suc 2 k, xor-lt k (a / 2) (b / 2) half_a half_b)
  where
    half_a : a / 2 < 2 ^ k
    half_a = omega (arith, pow-suc 2 k)

    half_b : b / 2 < 2 ^ k
    half_b = omega (arith, pow-suc 2 k)

pub xor-half : (a b : ℕ) → bit_xor a b / 2 ≡ bit_xor (a / 2) (b / 2)
xor-half a b = omega (arith, bit_xor_step a b)

-- Where the low bits agree, `^` clears them.
xor-even : (a b : ℕ) → a % 2 ≡ b % 2 → bit_xor a b ≡ bit_xor (a / 2) (b / 2) * 2
xor-even a b h = omega (arith, bit_xor_step a b)

zero-and : (b : ℕ) → bit_and 0 b ≡ 0
zero-and b = bit_and-bitwise 0 b

bit_and_step : (a b : ℕ) → bit_and a b ≡ bit_and (a / 2) (b / 2) * 2 + min (a % 2) (b % 2)
bit_and_step zero b = omega (arith, zero-and b, zero-and (b / 2))
bit_and_step (suc a) b = omega (
  arith,
  bit_and-bitwise (suc a) b,
  bit_and-bitwise (suc a / 2) (b / 2),
  digits_enough (λ y. 0) min a (suc a / 2) (suc a / 2) (b / 2) (omega arith) (omega arith),
)

and-zero_fuel : (fuel x : ℕ) → x ≤ fuel → bit_and x 0 ≡ 0
and-zero_fuel zero x h = rw (none_left) (zero-and 0)
  where
    none_left : x ≡ 0
    none_left = omega arith
and-zero_fuel (suc fuel) x h =
    bit_and_step x 0 ∙ omega (arith, and-zero_fuel fuel (x / 2) (omega arith))

-- A mask with nothing set.
and-zero : (x : ℕ) → bit_and x 0 ≡ 0
and-zero x = and-zero_fuel x x (omega arith)

-- `x & 1`
pub bit_and-one : (x : ℕ) → bit_and x 1 ≡ x % 2
bit_and-one x = bit_and_step x 1 ∙ omega (arith, and-zero (x / 2))

-- A mask whose lowest bit is clear.
and-double : (a m r : ℕ) → bit_and (a / 2) m ≡ r → bit_and a (m * 2) ≡ r * 2
and-double a m r h =
    bit_and_step a (m * 2)
    ∙ ap (λ (t : ℕ). bit_and (a / 2) t * 2 + min (a % 2) (m * 2 % 2)) half
    ∙ omega (arith, h)
  where
    half : m * 2 / 2 ≡ m
    half = omega arith

-- `b & 8` by three places to the right, and then four more.
and-eight : (b : ℕ) → bit_and b 8 ≡ b / 8 % 2 * 8
and-eight b =
    and-double b 4 _
      (and-double (b / 2) 2 _ (and-double (b / 2 / 2) 1 _ (bit_and-one (b / 2 / 2 / 2))))
    ∙ omega arith

sixteenth : (b : ℕ) → bit_and b 128 ≡ b / 16 / 8 % 2 * 128
sixteenth b =
    and-double b 64 _ (
      and-double (b / 2) 32 _ (
        and-double (b / 2 / 2) 16 _ (
          and-double (b / 2 / 2 / 2) 8 _
            (ap (λ (t : ℕ). bit_and t 8) places ∙ and-eight (b / 16)))))
    ∙ omega arith
  where
    places : b / 2 / 2 / 2 / 2 ≡ b / 16
    places = omega arith

-- `b & 0x80` of a byte
pub top_bit : (b : ℕ) → b < 256 → bit_and b 0x80 ≡ b / 128 * 128
top_bit b h = sixteenth b ∙ omega arith

-- `^` with the own `k` low bits clears them.
xor-fields : (k q l : ℕ) → l < 2 ^ k → bit_xor (q * 2 ^ k + l) l ≡ q * 2 ^ k
xor-fields zero q zero h = omega (arith, xor-zero (q * 2 ^ 0 + 0))
xor-fields zero q (suc l) h = absurd (omega arith)
xor-fields (suc k) q l h =
    xor-even (q * 2 ^ suc k + l) l (omega (arith, double))
    ∙ ap (λ (t : ℕ). bit_xor t (l / 2) * 2) half
    ∙ omega (arith, double, xor-fields k q (l / 2) (omega (arith, pow-suc 2 k)))
  where
    double : q * 2 ^ suc k ≡ 2 * (q * 2 ^ k)
    double = omega (arith, ap (λ (t : ℕ). q * t) (pow-suc 2 k))

    half : (q * 2 ^ suc k + l) / 2 ≡ q * 2 ^ k + l / 2
    half = omega (arith, double)

-- `^` with the own low byte clears it.
pub xor-low_byte : (c : ℕ) → bit_xor c (c % 256) ≡ c / 256 * 256
xor-low_byte c =
    ap (λ (t : ℕ). bit_xor t (c % 256)) (omega arith)
    ∙ xor-fields 8 (c / 256) (c % 256) (omega arith)
