-- ===== src/AllenBradley/Api.antt =====
-- The methods of `IoTClient`.
pub mod Safety
use go_iot_client.Base.{
  ℕ, ◌+◌, ◌*◌, ◌/◌, ◌%◌, Bool, true, false, not, List, [], ◌∷◌, length, take, ltb, if◌then◌else◌,
}
use go_iot_client.Base.Int.{ℤ, pos, pos_part, is_positive, wrap, signed}
use go_iot_client.Base.Outcome.{
  Outcome, ok, err, panic, bind, ◌>>=◌, ◌>>◌, lift, reject, read_length_not_positive,
  unsupported_type, not_enough_data, string_too_long,
}
use go_iot_client.Base.Words.{little, put_uint16, put_uint32, put_uint64}
use go_iot_client.Base.Slices.{word_at, dword_at}
use go_iot_client.Value.{
  Value, bool, byte, int, uint, int16, uint16, int32, uint32, int64, uint64, float32, float64,
  string, bytes, other,
}
use go_iot_client.Text.{trim_right, is_nul}
use go_iot_client.Core.{Result, ResultT, new_result, fail}
use go_iot_client.Core.Report.{report, finish_read}
use go_iot_client.Net.{Net, State}
use go_iot_client.AllenBradley.Client.{Client, Call, the_client}
use go_iot_client.AllenBradley.Frame.{aligned, build_write_command, validate_allen_tag}
use go_iot_client.AllenBradley.Command.{read_raw, send_command}

-- What `Write` sends of a value: the code of its type, its bytes, and the number of elements.
pub record Coded : Type 0 where
  pub type_code : ℕ
  pub payload : List ℕ
  pub count : ℕ

abbrev one : ℕ → List ℕ → Outcome Coded
one type_code payload = ok (record { type_code = type_code; payload = payload; count = 1 })

abbrev text : List ℕ → Outcome Coded
text v =
    if ltb 65534 (length v)
    then err string_too_long
    else ok
        (record { type_code = 0xC4; payload = aligned v; count = length (aligned v) / 2 % 65536 })

-- The type switch of `Write`.
unfoldable pub code_value : Value → Outcome Coded
code_value (bool v) = one 0xC1 (if v then 0xFF ∷ 0xFF ∷ [] else 0x00 ∷ 0x00 ∷ [])
code_value (byte v) = one 0xC2 (v ∷ 0x00 ∷ [])
code_value (int16 v) = one 0xC3 (put_uint16 little (wrap 65536 v))
code_value (uint16 v) = one 0xC3 (put_uint16 little v)
code_value (int32 v) = one 0xC4 (put_uint32 little (wrap 4294967296 v))
code_value (uint32 v) = one 0xC4 (put_uint32 little v)
code_value (float32 v) = one 0xCA (put_uint32 little v)
code_value (int64 v) = one 0xC5 (put_uint64 little (wrap 18446744073709551616 v))
code_value (uint64 v) = one 0xC5 (put_uint64 little v)
code_value (float64 v) = one 0xCB (put_uint64 little v)
code_value (string v) = text v
code_value (int v) = err unsupported_type
code_value (uint v) = err unsupported_type
code_value (bytes v) = err unsupported_type
code_value other = err unsupported_type

-- `int16(Uint16(data[0:2]))`, where there are two bytes.
unfoldable pub int16_of : List ℕ → Outcome ℤ
int16_of served =
    if ltb (length served) 2
    then err not_enough_data
    else bind (word_at little served 0) (λ w. ok (signed 65536 w))

-- `Uint32(data[0:4])`, where there are four bytes.
unfoldable pub bits32_of : List ℕ → Outcome ℕ
bits32_of served = if ltb (length served) 4 then err not_enough_data else dword_at little served 0

-- The same bits as an int32.
unfoldable pub int32_of : List ℕ → Outcome ℤ
int32_of served = bind (bits32_of served) (λ b. ok (signed 4294967296 b))

module _ (N : Net) where
  unfoldable pub int16_body : List ℕ → Call N ℤ
  int16_body address = do
    lift (validate_allen_tag address)
    served ← read_raw N address (pos 2)
    lift (int16_of served)

  unfoldable pub int32_body : List ℕ → Call N ℤ
  int32_body address = do
    lift (validate_allen_tag address)
    served ← read_raw N address (pos 4)
    lift (int32_of served)

  unfoldable pub bits32_body : List ℕ → Call N ℕ
  bits32_body address = do
    lift (validate_allen_tag address)
    served ← read_raw N address (pos 4)
    lift (bits32_of served)

  unfoldable pub string_body : List ℕ → ℤ → Call N (List ℕ)
  string_body address read_length = do
    lift (validate_allen_tag address)
    reject (not (is_positive read_length)) read_length_not_positive
    served ← read_raw N address read_length
    lift (ok (trim_right is_nul (take (pos_part read_length) served)))

  -- The response to a write is not looked at.
  unfoldable pub write_body : List ℕ → Value → Call N (Unit {0})
  write_body address value = do
    lift (validate_allen_tag address)
    v ← lift (code_value value)
    c ← the_client N
    _ ← send_command N (build_write_command c.session c.slot address v.type_code v.payload v.count)
    lift (ok tt)

  unfoldable pub read_int16 : List ℕ → Call N (ResultT ℤ)
  read_int16 address s = finish_read (pos 0) (int16_body address s)

  unfoldable pub read_int32 : List ℕ → Call N (ResultT ℤ)
  read_int32 address s = finish_read (pos 0) (int32_body address s)

  unfoldable pub read_float : List ℕ → Call N (ResultT ℕ)
  read_float address s = finish_read 0 (bits32_body address s)

  unfoldable pub read_string : List ℕ → ℤ → Call N (ResultT (List ℕ))
  read_string address read_length s = finish_read [] (string_body address read_length s)

  unfoldable pub write : List ℕ → Value → Call N Result
  write address value s = report (λ e. fail e new_result) (write_body address value s)
