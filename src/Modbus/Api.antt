-- ===== src/Modbus/Api.antt =====
-- The methods of `IoTClient` on the inner client. The four public clients pass every call on to it.
pub mod Safety
pub mod Equivalent
pub mod ReadBack
use go_iot_client.Base.{ℕ, not, ◌+◌, ◌*◌, ◌/◌, ◌%◌, Bool, Option, none, some, List, [], ◌∷◌, take}
use go_iot_client.Base.Int.{ℤ, pos, wrap, signed, pos_part, is_positive}
use go_iot_client.Base.Outcome.{
  Outcome, ok, err, panic, ◌>>=◌, ◌>>◌, lift, reject, invalid_address, unsupported_type,
  read_length_not_positive,
}
use go_iot_client.Base.Words.{big, put_uint64, bytes_to_words, words_to_bytes}
use go_iot_client.Value.{
  Value, bool, byte, int, uint, int16, uint16, int32, uint32, int64, uint64, float32, float64,
  string, bytes, other,
}
use go_iot_client.Text.{trim_space, trim_right, is_nul, parse_uint}
use go_iot_client.Core.{Result, ResultT, new_result, fail}
use go_iot_client.Net.{Net, State}
use go_iot_client.Modbus.Client.{Client, Call}
use go_iot_client.Base.Slices.{index}
use go_iot_client.Modbus.Registers.{
  read_registers, write_registers, write_coil, write_uint32, write_int32,
}

abbrev parsed : Option ℕ → Outcome ℕ
parsed none = err invalid_address
parsed (some n) = ok n

unfoldable pub parse_address : List ℕ → Outcome ℕ
parse_address address = parsed (parse_uint 65535 (trim_space address))

module _ (N : Net) where
  -- What a method returns for the outcome of its body; a failed read has the zero value.
  abbrev pub finish : Outcome (Unit {0}) × State N (Client N) → Outcome Result × State N (Client N)
  finish (ok _, s) = (ok new_result, s)
  finish (err e, s) = (ok (fail e new_result), s)
  finish (panic, s) = (panic, s)

  abbrev pub finish_read {ℓ} :
      {A : Type ℓ} → A → Outcome A × State N (Client N) → Outcome (ResultT A) × State N (Client N)
  finish_read zero_value (ok a, s) = (ok (record { result = new_result; value = a }), s)
  finish_read zero_value (err e, s) =
      (ok (record { result = fail e new_result; value = zero_value }), s)
  finish_read zero_value (panic, s) = (panic, s)

  unfoldable pub int16_body : List ℕ → Call N ℤ
  int16_body address = do
    addr ← lift (parse_address address)
    values ← read_registers N addr 1 0x03
    w ← lift (index values 0)
    lift (ok (signed 65536 w))

  -- Two registers as the 32 bits that they make up, the first register high.
  unfoldable pub bits32_body : List ℕ → Call N ℕ
  bits32_body address = do
    addr ← lift (parse_address address)
    values ← read_registers N addr 2 0x03
    hi ← lift (index values 0)
    lo ← lift (index values 1)
    lift (ok (hi * 65536 + lo))

  unfoldable pub string_body : List ℕ → ℤ → Call N (List ℕ)
  string_body address read_length = do
    reject (not (is_positive read_length)) read_length_not_positive
    addr ← lift (parse_address address)
    values ← read_registers N addr ((pos_part read_length + 1) / 2 % 65536) 0x03
    let buf = words_to_bytes big values
    lift (ok (trim_right is_nul (take (pos_part read_length) buf)))

  -- The type switch of `Write`.
  unfoldable pub write_value : ℕ → Value → Call N (Unit {0})
  write_value addr (bool v) = write_coil N addr v
  write_value addr (byte v) = lift (err unsupported_type)
  write_value addr (int v) = write_int32 N addr v
  write_value addr (uint v) = write_uint32 N addr (v % 4294967296)
  write_value addr (int16 v) = write_registers N addr (wrap 65536 v ∷ [])
  write_value addr (uint16 v) = write_registers N addr (v ∷ [])
  write_value addr (int32 v) = write_int32 N addr v
  write_value addr (uint32 v) = write_uint32 N addr v
  write_value addr (int64 v) =
      write_registers N addr (bytes_to_words big (put_uint64 big (wrap 18446744073709551616 v)))
  write_value addr (uint64 v) = write_registers N addr (bytes_to_words big (put_uint64 big v))
  write_value addr (float32 v) = write_uint32 N addr v
  write_value addr (float64 v) = write_registers N addr (bytes_to_words big (put_uint64 big v))
  write_value addr (string v) = write_registers N addr (bytes_to_words big v)
  write_value addr (bytes v) = write_registers N addr (bytes_to_words big v)
  write_value addr other = lift (err unsupported_type)

  unfoldable pub write_body : List ℕ → Value → Call N (Unit {0})
  write_body address value = do addr ← lift (parse_address address); write_value addr value

  unfoldable pub read_int16 : List ℕ → Call N (ResultT ℤ)
  read_int16 address s = finish_read (pos 0) (int16_body address s)

  unfoldable pub read_int32 : List ℕ → Call N (ResultT ℤ)
  read_int32 address s =
      finish_read (pos 0) ((bits32_body address >>= λ b. lift (ok (signed 4294967296 b))) s)

  unfoldable pub read_float : List ℕ → Call N (ResultT ℕ)
  read_float address s = finish_read 0 (bits32_body address s)

  unfoldable pub read_string : List ℕ → ℤ → Call N (ResultT (List ℕ))
  read_string address read_length s = finish_read [] (string_body address read_length s)

  unfoldable pub write : List ℕ → Value → Call N Result
  write address value s = finish (write_body address value s)
