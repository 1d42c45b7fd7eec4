-- ===== src/Iot/Values.antt =====
-- The values that a client writes, as the client reads them back.
use go_iot_client.Base.{ℕ, ◌<◌, ◌≡◌, refl, ap, List}
use go_iot_client.Base.Int.{
  ℤ, wrap, InRange, signed-wrap_16, signed-wrap_32, wrap-lt_16, wrap-lt_32,
}
use go_iot_client.Base.Outcome.{Outcome, ok, bind}
use go_iot_client.Base.Words.{big, little}
use go_iot_client.Base.Slices.{index, halves, word_at-put_uint16, dword_at-put_uint32}
use go_iot_client.Value.{Value, int16, int32, float32}
use go_iot_client.Siemens.Api as Siemens
use go_iot_client.AllenBradley.Api as Allen
use go_iot_client.Omron.Api as Omron

-- Of what `encode` makes of the three kinds of value, the three decoders make the value again.
abbrev pub Decodes :
    {A : Type 0}
    → (Value → Outcome A)
    → (A → Outcome ℤ)
    → (A → Outcome ℤ)
    → (A → Outcome ℕ)
    → ℤ
    → ℤ
    → ℕ
    → Type 0
Decodes encode int16_of int32_of bits32_of v x f =
    (bind (encode (int16 v)) int16_of ≡ ok v)
    × (bind (encode (int32 x)) int32_of ≡ ok x)
    × (bind (encode (float32 f)) bits32_of ≡ ok f)

-- The bytes of a value that the Allen-Bradley client sends.
abbrev pub allen_payload : Value → Outcome (List ℕ)
allen_payload v = bind (Allen.code_value v) (λ c. ok c.payload)

module _ (v : ℤ) (x : ℤ) (f : ℕ) (h : InRange 32768 v) (k : InRange 2147483648 x)
    (l : f < 4294967296) where
  siemens-Decodes :
      Decodes Siemens.bytes_of_value Siemens.int16_of Siemens.int32_of Siemens.bits32_of v x f
  unfolding Siemens.bytes_of_value Siemens.int16_of Siemens.int32_of Siemens.bits32_of
  siemens-Decodes = (
    rw (word_at-put_uint16 big (wrap 65536 v) (wrap-lt_16 v), signed-wrap_16 v h) refl,
    rw (dword_at-put_uint32 big (wrap 4294967296 x) (wrap-lt_32 x), signed-wrap_32 x k) refl,
    dword_at-put_uint32 big f l,
  )

  allen-Decodes : Decodes allen_payload Allen.int16_of Allen.int32_of Allen.bits32_of v x f
  unfolding Allen.code_value Allen.int16_of Allen.int32_of Allen.bits32_of
  allen-Decodes = (
    rw (word_at-put_uint16 little (wrap 65536 v) (wrap-lt_16 v), signed-wrap_16 v h) refl,
    rw (dword_at-put_uint32 little (wrap 4294967296 x) (wrap-lt_32 x), signed-wrap_32 x k) refl,
    dword_at-put_uint32 little f l,
  )

  omron-Decodes : Decodes Omron.words_of_value Omron.int16_of Omron.int32_of Omron.bits32_of v x f
  unfolding Omron.words_of_value Omron.int16_of Omron.int32_of Omron.bits32_of index
  omron-Decodes = (
    ap ok (signed-wrap_16 v h),
    rw (halves (wrap 4294967296 x) (wrap-lt_32 x), signed-wrap_32 x k) refl,
    ap ok (halves f l),
  )

  -- An int16, an int32 and the bits of a float32: of the bytes or words that the Siemens, the
  -- Allen-Bradley and the Omron client write of it, the decoding in `ReadInt16`, `ReadInt32` and `ReadFloat`
  -- of the same client makes the value again.
  pub values-read_back :
      Decodes Siemens.bytes_of_value Siemens.int16_of Siemens.int32_of Siemens.bits32_of v x f
      × Decodes allen_payload Allen.int16_of Allen.int32_of Allen.bits32_of v x f
      × Decodes Omron.words_of_value Omron.int16_of Omron.int32_of Omron.bits32_of v x f
  values-read_back = (siemens-Decodes, allen-Decodes, omron-Decodes)
