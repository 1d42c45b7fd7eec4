-- ===== src/Modbus/Checksum/Lrc.antt =====
-- What the LRC of an ASCII frame detects.
use go_iot_client.Base.{ℕ, ◌+◌, ◌%◌, ◌≡◌, ◌≢◌, refl, sym, ◌∙◌, List, [], ◌∷◌, ◌++◌, arith}
use go_iot_client.Base.Words.{IsByte}
use go_iot_client.Modbus.Checksum.{lrc_sum, lrc}

lrc_sum-append : (s : ℕ) (xs ys : List ℕ) → lrc_sum s (xs ++ ys) ≡ lrc_sum (lrc_sum s xs) ys
unfolding lrc_sum
lrc_sum-append s [] ys = refl
lrc_sum-append s (x ∷ xs) ys = lrc_sum-append ((s + x) % 256) xs ys

lrc_sum-IsByte : (s : ℕ) (xs : List ℕ) → IsByte s → IsByte (lrc_sum s xs)
unfolding lrc_sum
lrc_sum-IsByte s [] h = h
lrc_sum-IsByte s (x ∷ xs) h = lrc_sum-IsByte ((s + x) % 256) xs (omega arith)

pub lrc-IsByte : (xs : List ℕ) → IsByte (lrc xs)
unfolding lrc
lrc-IsByte xs = omega arith

-- The bytes of a message and its LRC add up to 0 modulo 256.
pub lrc_sum-lrc : (xs : List ℕ) → lrc_sum 0 (xs ++ (lrc xs ∷ [])) ≡ 0
unfolding lrc
lrc_sum-lrc xs =
    lrc_sum-append 0 xs (lrc xs ∷ [])
    ∙ unfold lrc_sum in omega (arith, lrc_sum-IsByte 0 xs (omega arith))

lrc_sum-injective :
    (xs : List ℕ) (s t : ℕ) → IsByte s → IsByte t → lrc_sum s xs ≡ lrc_sum t xs → s ≡ t
unfolding lrc_sum
lrc_sum-injective [] s t h k e = e
lrc_sum-injective (x ∷ xs) s t h k e =
    omega
      (arith, lrc_sum-injective xs ((s + x) % 256) ((t + x) % 256) (omega arith) (omega arith) e)

lrc_one_byte_same :
    (xs ys : List ℕ) (a b : ℕ)
    → IsByte a
    → IsByte b
    → lrc (xs ++ (a ∷ ys)) ≡ lrc (xs ++ (b ∷ ys))
    → a ≡ b
unfolding lrc
lrc_one_byte_same xs ys a b ha hb e = omega (
  arith,
  lrc_sum-injective ys ((c + a) % 256) ((c + b) % 256) (omega arith) (omega arith) tails,
  lrc_sum-IsByte 0 xs (omega arith),
)
  where
    c : ℕ
    c = lrc_sum 0 xs

    sums : lrc_sum 0 (xs ++ (a ∷ ys)) ≡ lrc_sum 0 (xs ++ (b ∷ ys))
    sums = omega (
      arith,
      e,
      lrc_sum-IsByte 0 (xs ++ (a ∷ ys)) (omega arith),
      lrc_sum-IsByte 0 (xs ++ (b ∷ ys)) (omega arith),
    )

    tails : lrc_sum c (a ∷ ys) ≡ lrc_sum c (b ∷ ys)
    tails = sym (lrc_sum-append 0 xs (a ∷ ys)) ∙ sums ∙ lrc_sum-append 0 xs (b ∷ ys)

-- Two messages that differ in one byte have different LRCs.
pub lrc_one_byte :
    (xs ys : List ℕ) (a b : ℕ)
    → IsByte a
    → IsByte b
    → a ≢ b
    → lrc (xs ++ (a ∷ ys)) ≢ lrc (xs ++ (b ∷ ys))
lrc_one_byte xs ys a b ha hb ne e = ne (lrc_one_byte_same xs ys a b ha hb e)
