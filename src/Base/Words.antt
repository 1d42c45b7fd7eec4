-- ===== src/Base/Words.antt =====
-- Bytes and 16-bit words: `binary.BigEndian` and `binary.LittleEndian`, and words in buffers.
pub mod Laws
use Prim.Native.Nat.{ℕ, zero, suc, ◌+◌, ◌-◌, ◌*◌, ◌/◌, ◌%◌, ◌≤◌, ◌<◌}
use mathlib.Core.Path.{◌≡◌, refl, ap}
use mathlib.Core.List.{List, [], ◌∷◌, ◌++◌}
use native.Mathlib.Omega.{arith}
use go_iot_client.Base.Lists.{length, replicate, All}
use go_iot_client.Base.Outcome.{Outcome, ok, err, panic, bind}

abbrev pub IsByte : ℕ → Type 0
IsByte b = b < 256

abbrev pub IsWord : ℕ → Type 0
IsWord w = w < 65536

-- The two byte orders of `encoding/binary`.
pub data Order : Type 0 where
  big little : Order

-- `PutUint16`: the two bytes of a word; `byte(v)` is `v % 256`.
abbrev pub put_uint16 : Order → ℕ → List ℕ
put_uint16 big v = (v / 256 % 256) ∷ (v % 256) ∷ []
put_uint16 little v = (v % 256) ∷ (v / 256 % 256) ∷ []

-- `Uint16` of two bytes
abbrev pub uint16 : Order → ℕ → ℕ → ℕ
uint16 big a b = a * 256 + b
uint16 little a b = b * 256 + a

-- `PutUint32` and `PutUint64`, most significant word first or last.
abbrev pub put_uint32 : Order → ℕ → List ℕ
put_uint32 big v = put_uint16 big (v / 65536 % 65536) ++ put_uint16 big (v % 65536)
put_uint32 little v = put_uint16 little (v % 65536) ++ put_uint16 little (v / 65536 % 65536)

abbrev pub put_uint64 : Order → ℕ → List ℕ
put_uint64 big v = put_uint32 big (v / 4294967296 % 4294967296) ++ put_uint32 big (v % 4294967296)
put_uint64 little v =
    put_uint32 little (v % 4294967296) ++ put_uint32 little (v / 4294967296 % 4294967296)

-- The loop `out[i*2:i*2+2] = PutUint16(v)` into a buffer of exactly the words' size.
unfoldable pub words_to_bytes : Order → List ℕ → List ℕ
words_to_bytes o [] = []
words_to_bytes o (v ∷ vs) = put_uint16 o v ++ words_to_bytes o vs

-- The loop `for i, v := range values { PutUint16(buf[i*2:i*2+2], v) }` into a buffer of `room` zero
-- bytes: a slice past its end panics, and what no word reaches stays zero.
unfoldable pub fill_words : Order → ℕ → List ℕ → Outcome (List ℕ)
fill_words o room [] = ok (replicate room 0)
fill_words o (suc (suc room)) (v ∷ vs) =
    bind (fill_words o room vs) (λ rest. ok (put_uint16 o v ++ rest))
fill_words o _ (v ∷ vs) = panic

-- The loop `for i := 0; i < count; i++ { out[i] = Uint16(xs[i*2 : i*2+2]) }`.
unfoldable pub read_words : Order → ℕ → List ℕ → Outcome (List ℕ)
read_words o zero xs = ok []
read_words o (suc n) (a ∷ b ∷ xs) = bind (read_words o n xs) (λ ws. ok (uint16 o a b ∷ ws))
read_words o (suc n) _ = panic

-- The bytes of a text as words: an odd tail is padded with a zero byte first.
unfoldable pub bytes_to_words : Order → List ℕ → List ℕ
bytes_to_words o [] = []
bytes_to_words o (a ∷ []) = uint16 o a 0 ∷ []
bytes_to_words o (a ∷ b ∷ xs) = uint16 o a b ∷ bytes_to_words o xs

pub uint16-IsWord : (o : Order) (a b : ℕ) → IsByte a → IsByte b → IsWord (uint16 o a b)
uint16-IsWord big a b h k = omega arith
uint16-IsWord little a b h k = omega arith

pub put_uint16-IsByte : (o : Order) (v : ℕ) → All IsByte (put_uint16 o v)
put_uint16-IsByte big v = omega arith
put_uint16-IsByte little v = omega arith

pub length-put_uint16 : (o : Order) (v : ℕ) → length (put_uint16 o v) ≡ 2
length-put_uint16 big v = refl
length-put_uint16 little v = refl
