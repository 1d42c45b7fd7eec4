-- ===== src/Mitsubishi/Api.antt =====
-- The methods of `IoTClient`.
pub mod Safety
use go_iot_client.Base.{
  ℕ, ◌+◌, ◌*◌, ◌/◌, ◌%◌, Bool, true, false, not, List, [], ◌∷◌, length, take, ltb, if◌then◌else◌,
}
use go_iot_client.Base.Int.{ℤ, pos, pos_part, is_positive, wrap, signed}
use go_iot_client.Base.Outcome.{
  Outcome, ok, err, panic, ◌>>=◌, ◌>>◌, lift, reject, bind, read_length_not_positive,
  empty_response, not_enough_words, unsupported_type,
}
use go_iot_client.Base.Words.{little, words_to_bytes, bytes_to_words}
use go_iot_client.Base.Slices.{index}
use go_iot_client.Value.{
  Value, bool, byte, int, uint, int16, uint16, int32, uint32, int64, uint64, float32, float64,
  string, bytes, other,
}
use go_iot_client.Text.{trim_right, is_nul}
use go_iot_client.Core.{Result, ResultT, new_result, fail}
use go_iot_client.Net.{Net, State}
use go_iot_client.Mitsubishi.Client.{Client, Call, report}
use go_iot_client.Mitsubishi.Client.Address.{parse_d_address}
use go_iot_client.Mitsubishi.Words.{read_words_from, write_words}

-- `int16(words[0])`, where there is one.
unfoldable pub int16_of : List ℕ → Outcome ℤ
int16_of words =
    if ltb (length words) 1
    then err empty_response
    else bind (index words 0) (λ w. ok (signed 65536 w))

-- `uint32(words[0]) | uint32(words[1])<<16`: the low word first.
unfoldable pub bits32_of : List ℕ → Outcome ℕ
bits32_of words =
    if ltb (length words) 2
    then err not_enough_words
    else bind (index words 0) (λ lo. bind (index words 1) (λ hi. ok (lo + hi * 65536)))

-- The words of a 32-bit value, the low word first.
abbrev pub low_high : ℕ → List ℕ
low_high v = (v % 65536) ∷ (v / 65536 % 65536) ∷ []

module _ (N : Net) where
  abbrev pub finish_read {ℓ} :
      {A : Type ℓ} → A → Outcome A × State N (Client N) → Outcome (ResultT A) × State N (Client N)
  finish_read zero_value (ok a, s) = (ok (record { result = new_result; value = a }), s)
  finish_read zero_value (err e, s) =
      (ok (record { result = fail e new_result; value = zero_value }), s)
  finish_read zero_value (panic, s) = (panic, s)

  unfoldable pub int16_body : List ℕ → Call N ℤ
  int16_body address = do
    addr ← lift (parse_d_address address)
    words ← read_words_from N addr 1
    lift (int16_of words)

  unfoldable pub bits32_body : List ℕ → Call N ℕ
  bits32_body address = do
    addr ← lift (parse_d_address address)
    words ← read_words_from N addr 2
    lift (bits32_of words)

  unfoldable pub string_body : List ℕ → ℤ → Call N (List ℕ)
  string_body address read_length = do
    reject (not (is_positive read_length)) read_length_not_positive
    addr ← lift (parse_d_address address)
    words ← read_words_from N addr ((pos_part read_length + 1) / 2 % 65536)
    lift (ok (trim_right is_nul (take (pos_part read_length) (words_to_bytes little words))))

  -- The type switch of `Write`.
  unfoldable pub write_value : ℕ → Value → Call N (Unit {0})
  write_value addr (bool v) = write_words N addr ((if v then 1 else 0) ∷ [])
  write_value addr (byte v) = write_words N addr (v ∷ [])
  write_value addr (int16 v) = write_words N addr (wrap 65536 v ∷ [])
  write_value addr (uint16 v) = write_words N addr (v ∷ [])
  write_value addr (int32 v) = write_words N addr (low_high (wrap 4294967296 v))
  write_value addr (uint32 v) = write_words N addr (low_high v)
  write_value addr (float32 v) = write_words N addr (low_high v)
  write_value addr (string v) = write_words N addr (bytes_to_words little v)
  write_value addr (int v) = lift (err unsupported_type)
  write_value addr (uint v) = lift (err unsupported_type)
  write_value addr (int64 v) = lift (err unsupported_type)
  write_value addr (uint64 v) = lift (err unsupported_type)
  write_value addr (float64 v) = lift (err unsupported_type)
  write_value addr (bytes v) = lift (err unsupported_type)
  write_value addr other = lift (err unsupported_type)

  unfoldable pub write_body : List ℕ → Value → Call N (Unit {0})
  write_body address value = do addr ← lift (parse_d_address address); write_value addr value

  unfoldable pub read_int16 : List ℕ → Call N (ResultT ℤ)
  read_int16 address s = finish_read (pos 0) (int16_body address s)

  unfoldable pub read_int32 : List ℕ → Call N (ResultT ℤ)
  read_int32 address s =
      finish_read (pos 0) ((bits32_body address >>= λ b. lift (ok (signed 4294967296 b))) s)

  unfoldable pub read_float : List ℕ → Call N (ResultT ℕ)
  read_float address s = finish_read 0 (bits32_body address s)

  unfoldable pub read_string : List ℕ → ℤ → Call N (ResultT (List ℕ))
  read_string address read_length s = finish_read [] (string_body address read_length s)

  unfoldable pub write : List ℕ → Value → Call N Result
  write address value s = report N (λ e. fail e new_result) (write_body address value s)
