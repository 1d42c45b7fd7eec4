-- ===== src/Base/Slices.antt =====
-- Indexing and slicing as Go does it: out of range is a panic.
use Prim.Native.Nat.{ℕ, zero, suc, ◌+◌, ◌-◌, ◌*◌, ◌/◌, ◌%◌, ◌≤◌, ◌<◌}
use mathlib.Core.Path.{◌≡◌, refl, ap}
use mathlib.Core.Bool.{Bool, true, false}
use mathlib.Core.List.{List, [], ◌∷◌}
use native.Mathlib.Omega.{arith}
use go_iot_client.Base.Tests.{leb, ◌==◌, if◌then◌else◌}
use go_iot_client.Base.Lists.{length, take, drop, All}
use go_iot_client.Base.Outcome.{Outcome, ok, panic, bind, NoPanic}
use go_iot_client.Base.Words.{Order, big, little, uint16, put_uint16, put_uint32, IsByte}

-- `xs[i]`
unfoldable pub index : List ℕ → ℕ → Outcome ℕ
index [] i = panic
index (x ∷ xs) zero = ok x
index (x ∷ xs) (suc i) = index xs i

-- `xs[lo:hi]`, for a slice whose capacity is its length.
unfoldable pub slice : List ℕ → ℕ → ℕ → Outcome (List ℕ)
slice xs lo hi =
    if leb lo hi
    then if leb hi (length xs) then ok (take (hi - lo) (drop lo xs)) else panic
    else panic

-- `Uint16(xs[i:i+2])`
unfoldable pub word_at : Order → List ℕ → ℕ → Outcome ℕ
word_at o [] i = panic
word_at o (x ∷ []) i = panic
word_at o (x ∷ y ∷ xs) zero = ok (uint16 o x y)
word_at o (x ∷ y ∷ xs) (suc i) = word_at o (y ∷ xs) i

-- `Uint32(xs[i:i+4])`
unfoldable pub dword_at : Order → List ℕ → ℕ → Outcome ℕ
dword_at big xs i =
    bind (word_at big xs i) (λ hi. bind (word_at big xs (i + 2)) (λ lo. ok (hi * 65536 + lo)))
dword_at little xs i =
    bind (word_at little xs i) (λ lo. bind (word_at little xs (i + 2)) (λ hi. ok (hi * 65536 + lo)))

-- `string(xs) == string(ys)`
unfoldable pub same_bytes : List ℕ → List ℕ → Bool
same_bytes [] [] = true
same_bytes (x ∷ xs) (y ∷ ys) = let rest = same_bytes xs ys in if x == y then rest else false
same_bytes xs ys = false

-- The byte at a place, and 0 where there is none.
abbrev pub nth : List ℕ → ℕ → ℕ
nth [] i = 0
nth (x ∷ xs) zero = x
nth (x ∷ xs) (suc i) = nth xs i

pub index-nth : (xs : List ℕ) (i : ℕ) → i < length xs → index xs i ≡ ok (nth xs i)
unfolding index
index-nth [] i h = absurd (omega arith)
index-nth (x ∷ xs) zero h = refl
index-nth (x ∷ xs) (suc i) h = index-nth xs i (omega arith)

pub slice-take :
    (xs : List ℕ) (lo hi : ℕ)
    → lo ≤ hi
    → hi ≤ length xs
    → slice xs lo hi ≡ ok (take (hi - lo) (drop lo xs))
unfolding slice
slice-take xs lo hi h k = ground arith

pub word_at-nth :
    (o : Order) (xs : List ℕ) (i : ℕ)
    → i + 2 ≤ length xs
    → word_at o xs i ≡ ok (uint16 o (nth xs i) (nth xs (suc i)))
unfolding word_at
word_at-nth o [] i h = absurd (omega arith)
word_at-nth o (x ∷ []) i h = absurd (omega arith)
word_at-nth o (x ∷ y ∷ xs) zero h = refl
word_at-nth o (x ∷ y ∷ xs) (suc i) h = word_at-nth o (y ∷ xs) i (omega arith)

pub nth-IsByte : (xs : List ℕ) (i : ℕ) → All IsByte xs → IsByte (nth xs i)
nth-IsByte [] i h = omega arith
nth-IsByte (x ∷ xs) zero h = h.0
nth-IsByte (x ∷ xs) (suc i) h = nth-IsByte xs i h.1

pub dword_at-NoPanic :
    (o : Order) (xs : List ℕ) (i : ℕ) → i + 4 ≤ length xs → NoPanic (dword_at o xs i)
unfolding dword_at
dword_at-NoPanic big xs i h = ground (arith, word_at-nth big xs i, word_at-nth big xs (i + 2))
dword_at-NoPanic little xs i h =
    ground (arith, word_at-nth little xs i, word_at-nth little xs (i + 2))

bytes_of : (v : ℕ) → v < 65536 → v / 256 % 256 * 256 + v % 256 ≡ v
bytes_of v h = omega arith

pub halves : (v : ℕ) → v < 4294967296 → v / 65536 % 65536 * 65536 + v % 65536 ≡ v
halves v h = omega arith

-- What `PutUint16` and `PutUint32` wrote is read.
pub word_at-put_uint16 : (o : Order) (v : ℕ) → v < 65536 → word_at o (put_uint16 o v) 0 ≡ ok v
unfolding word_at
word_at-put_uint16 big v h = ap ok (bytes_of v h)
word_at-put_uint16 little v h = ap ok (bytes_of v h)

pub dword_at-put_uint32 :
    (o : Order) (v : ℕ) → v < 4294967296 → dword_at o (put_uint32 o v) 0 ≡ ok v
unfolding dword_at word_at
dword_at-put_uint32 big v h =
    rw (bytes_of (v / 65536 % 65536) (omega arith), bytes_of (v % 65536) (omega arith))
      (ap ok (halves v h))
dword_at-put_uint32 little v h =
    rw (bytes_of (v / 65536 % 65536) (omega arith), bytes_of (v % 65536) (omega arith))
      (ap ok (halves v h))
