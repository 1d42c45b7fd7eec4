-- ===== src/Omron/Api.antt =====
-- The methods of `IoTClient`.
pub mod Safety
use go_iot_client.Base.{
  ℕ, ◌+◌, ◌*◌, ◌/◌, ◌%◌, Bool, true, false, not, List, [], ◌∷◌, length, take, if◌then◌else◌,
}
use go_iot_client.Base.Int.{ℤ, pos, pos_part, is_positive, wrap, signed}
use go_iot_client.Base.Outcome.{
  Outcome, ok, err, panic, bind, ◌>>=◌, ◌>>◌, lift, reject, read_length_not_positive,
  unsupported_type,
}
use go_iot_client.Base.Words.{big, words_to_bytes, bytes_to_words}
use go_iot_client.Base.Slices.{index}
use go_iot_client.Value.{
  Value, bool, byte, int, uint, int16, uint16, int32, uint32, int64, uint64, float32, float64,
  string, bytes, other,
}
use go_iot_client.Text.{trim_right, is_nul}
use go_iot_client.Core.{Result, ResultT, new_result, fail}
use go_iot_client.Core.Report.{report, finish_read}
use go_iot_client.Net.{Net, State}
use go_iot_client.Omron.Client.{Client, Call}
use go_iot_client.Omron.Command.{read_words_from, write_words}

-- The words of a 32-bit value, the high word first.
abbrev pub high_low : ℕ → List ℕ
high_low v = (v / 65536 % 65536) ∷ (v % 65536) ∷ []

-- The type switch of `Write`: the words of a value, or the error of the default case.
unfoldable pub words_of_value : Value → Outcome (List ℕ)
words_of_value (bool v) = ok ((if v then 1 else 0) ∷ [])
words_of_value (int16 v) = ok (wrap 65536 v ∷ [])
words_of_value (uint16 v) = ok (v ∷ [])
words_of_value (int32 v) = ok (high_low (wrap 4294967296 v))
words_of_value (uint32 v) = ok (high_low v)
words_of_value (float32 v) = ok (high_low v)
words_of_value (string v) = ok (bytes_to_words big v)
words_of_value (byte v) = err unsupported_type
words_of_value (int v) = err unsupported_type
words_of_value (uint v) = err unsupported_type
words_of_value (int64 v) = err unsupported_type
words_of_value (uint64 v) = err unsupported_type
words_of_value (float64 v) = err unsupported_type
words_of_value (bytes v) = err unsupported_type
words_of_value other = err unsupported_type

-- `int16(words[0])`
unfoldable pub int16_of : List ℕ → Outcome ℤ
int16_of words = bind (index words 0) (λ w. ok (signed 65536 w))

-- Two words as the 32 bits that they make up, the first word high.
unfoldable pub bits32_of : List ℕ → Outcome ℕ
bits32_of words = bind (index words 0) (λ hi. bind (index words 1) (λ lo. ok (hi * 65536 + lo)))

-- The same bits as an int32.
unfoldable pub int32_of : List ℕ → Outcome ℤ
int32_of words = bind (bits32_of words) (λ b. ok (signed 4294967296 b))

module _ (N : Net) where
  unfoldable pub int16_body : List ℕ → Call N ℤ
  int16_body address = do words ← read_words_from N address 1; lift (int16_of words)

  unfoldable pub int32_body : List ℕ → Call N ℤ
  int32_body address = do words ← read_words_from N address 2; lift (int32_of words)

  unfoldable pub bits32_body : List ℕ → Call N ℕ
  bits32_body address = do words ← read_words_from N address 2; lift (bits32_of words)

  unfoldable pub string_body : List ℕ → ℤ → Call N (List ℕ)
  string_body address read_length = do
    reject (not (is_positive read_length)) read_length_not_positive
    words ← read_words_from N address ((pos_part read_length + 1) / 2 % 65536)
    lift (ok (trim_right is_nul (take (pos_part read_length) (words_to_bytes big words))))

  unfoldable pub write_body : List ℕ → Value → Call N (Unit {0})
  write_body address value = do words ← lift (words_of_value value); write_words N address words

  unfoldable pub read_int16 : List ℕ → Call N (ResultT ℤ)
  read_int16 address s = finish_read (pos 0) (int16_body address s)

  unfoldable pub read_int32 : List ℕ → Call N (ResultT ℤ)
  read_int32 address s = finish_read (pos 0) (int32_body address s)

  unfoldable pub read_float : List ℕ → Call N (ResultT ℕ)
  read_float address s = finish_read 0 (bits32_body address s)

  unfoldable pub read_string : List ℕ → ℤ → Call N (ResultT (List ℕ))
  read_string address read_length s = finish_read [] (string_body address read_length s)

  unfoldable pub write : List ℕ → Value → Call N Result
  write address value s = report (λ e. fail e new_result) (write_body address value s)
