-- ===== src/Base/Words/Laws.antt =====
-- The loops over words: they fill and read their buffers exactly, and undo one another.
use Prim.Native.Nat.{ℕ, zero, suc, ◌+◌, ◌*◌, ◌/◌, ◌≤◌}
use mathlib.Core.Path.{◌≡◌, refl, ap, ◌∙◌}
use mathlib.Core.List.{List, [], ◌∷◌, ◌++◌}
use native.Mathlib.Omega.{arith}
use go_iot_client.Base.Lists.{length, take, All}
use go_iot_client.Base.Outcome.{Outcome, ok, err, panic}
use go_iot_client.Base.Words.{
  Order, big, little, IsByte, IsWord, words_to_bytes, fill_words, read_words, bytes_to_words,
}

-- A buffer of two bytes for each word takes them all.
pub fill_words-words_to_bytes :
    (o : Order) (vs : List ℕ) → fill_words o (length vs * 2) vs ≡ ok (words_to_bytes o vs)
unfolding fill_words words_to_bytes
fill_words-words_to_bytes o [] = refl
fill_words-words_to_bytes o (v ∷ vs) =
    ap (λ (room : ℕ). fill_words o room (v ∷ vs)) two_more ∙ rw (fill_words-words_to_bytes o vs)
  where
    two_more : suc (length vs) * 2 ≡ suc (suc (length vs * 2))
    two_more = omega arith

pub length-words_to_bytes : (o : Order) (vs : List ℕ) → length (words_to_bytes o vs) ≡ length vs * 2
unfolding words_to_bytes
length-words_to_bytes o [] = refl
length-words_to_bytes big (v ∷ vs) = omega (arith, length-words_to_bytes big vs)
length-words_to_bytes little (v ∷ vs) = omega (arith, length-words_to_bytes little vs)

pub words_to_bytes-IsByte : (o : Order) (vs : List ℕ) → All IsByte (words_to_bytes o vs)
unfolding words_to_bytes
words_to_bytes-IsByte o [] = tt
words_to_bytes-IsByte big (v ∷ vs) = (omega arith, (omega arith, words_to_bytes-IsByte big vs))
words_to_bytes-IsByte little (v ∷ vs) =
    (omega arith, (omega arith, words_to_bytes-IsByte little vs))

-- `n` words, or an error.
abbrev pub Words : ℕ → Outcome (List ℕ) → Type 0
Words n (ok ws) = length ws ≡ n
Words n (err e) = Unit
Words n panic = ⊥

-- A loop that stays within its slice reads as many words as it goes round.
pub read_words-Words :
    (o : Order) (n : ℕ) (xs : List ℕ) → n * 2 ≤ length xs → Words n (read_words o n xs)
unfolding read_words
read_words-Words o zero xs h = refl
read_words-Words o (suc n) [] h = absurd (omega arith)
read_words-Words o (suc n) (a ∷ []) h = absurd (omega arith)
read_words-Words o (suc n) (a ∷ b ∷ xs) h = ground (arith, read_words-Words o n xs)

-- What was written as words is read back.
pub read_words-words_to_bytes :
    (o : Order) (vs rest : List ℕ)
    → All IsWord vs
    → read_words o (length vs) (words_to_bytes o vs ++ rest) ≡ ok vs
unfolding read_words words_to_bytes
read_words-words_to_bytes o [] rest h = refl
read_words-words_to_bytes big (v ∷ vs) rest h =
    rw (read_words-words_to_bytes big vs rest h.1) (ground arith)
read_words-words_to_bytes little (v ∷ vs) rest h =
    rw (read_words-words_to_bytes little vs rest h.1) (ground arith)

-- A text of an even number of bytes is what its words spell; an odd one gains a zero byte.
abbrev pub padded : List ℕ → List ℕ
padded [] = []
padded (a ∷ []) = a ∷ 0 ∷ []
padded (a ∷ b ∷ xs) = a ∷ b ∷ padded xs

pub words_to_bytes-bytes_to_words :
    (o : Order) (xs : List ℕ) → All IsByte xs → words_to_bytes o (bytes_to_words o xs) ≡ padded xs
unfolding words_to_bytes bytes_to_words
words_to_bytes-bytes_to_words o [] h = refl
words_to_bytes-bytes_to_words big (a ∷ []) h = ground arith
words_to_bytes-bytes_to_words little (a ∷ []) h = ground arith
words_to_bytes-bytes_to_words big (a ∷ b ∷ xs) h =
    rw (words_to_bytes-bytes_to_words big xs h.1.1) (ground arith)
words_to_bytes-bytes_to_words little (a ∷ b ∷ xs) h =
    rw (words_to_bytes-bytes_to_words little xs h.1.1) (ground arith)

pub bytes_to_words-IsWord :
    (o : Order) (xs : List ℕ) → All IsByte xs → All IsWord (bytes_to_words o xs)
unfolding bytes_to_words
bytes_to_words-IsWord o [] h = tt
bytes_to_words-IsWord big (a ∷ []) h = (omega arith, tt)
bytes_to_words-IsWord little (a ∷ []) h = (omega arith, tt)
bytes_to_words-IsWord big (a ∷ b ∷ xs) h = (omega arith, bytes_to_words-IsWord big xs h.1.1)
bytes_to_words-IsWord little (a ∷ b ∷ xs) h = (omega arith, bytes_to_words-IsWord little xs h.1.1)

-- A text takes half as many words as it has bytes, rounded up.
pub length-bytes_to_words :
    (o : Order) (xs : List ℕ) → length (bytes_to_words o xs) ≡ (length xs + 1) / 2
unfolding bytes_to_words
length-bytes_to_words o [] = omega arith
length-bytes_to_words o (a ∷ []) = omega arith
length-bytes_to_words o (a ∷ b ∷ xs) = omega (arith, length-bytes_to_words o xs)

take-padded : (xs : List ℕ) → take (length xs) (padded xs) ≡ xs
take-padded [] = refl
take-padded (a ∷ []) = refl
take-padded (a ∷ b ∷ xs) = ap (λ ys. a ∷ b ∷ ys) (take-padded xs)

-- The bytes of its words, cut to its length, are the text.
pub take-words_to_bytes :
    (o : Order) (xs : List ℕ)
    → All IsByte xs
    → take (length xs) (words_to_bytes o (bytes_to_words o xs)) ≡ xs
take-words_to_bytes o xs h =
    ap (take (length xs)) (words_to_bytes-bytes_to_words o xs h) ∙ take-padded xs
