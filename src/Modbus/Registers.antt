-- ===== src/Modbus/Registers.antt =====
-- Requests to the registers and coils of the device.
pub mod Safety
pub mod Bytes
pub mod Equivalent
pub mod Bank
use go_iot_client.Base.{
  ℕ, ◌+◌, ◌*◌, ◌%◌, Bool, not, ◌||◌, List, [], ◌∷◌, ◌++◌, length, ltb, ◌==◌, if◌then◌else◌,
}
use go_iot_client.Base.Int.{ℤ, wrap}
use go_iot_client.Base.Outcome.{
  Error, Outcome, ok, err, ◌>>=◌, lift, bind, invalid_function_code, invalid_register_byte_count,
  too_many_registers, invalid_write_register, invalid_write_coil,
}
use go_iot_client.Base.Words.{big, put_uint16, put_uint32, fill_words, read_words, bytes_to_words}
use go_iot_client.Net.{Net}
use go_iot_client.Modbus.Client.{Call}
use go_iot_client.Modbus.Exchange.{send_pdu}

unfoldable pub read_request : ℕ → ℕ → ℕ → List ℕ
read_request address count function = function ∷ (put_uint16 big address ++ put_uint16 big count)

-- The checks of `readRegisters` on a response, and its loop.
unfoldable pub registers_of : ℕ → ℕ → List ℕ → Outcome (List ℕ)
registers_of count function [] = err invalid_function_code
registers_of count function (f ∷ []) = err invalid_function_code
registers_of count function (f ∷ n ∷ registers) =
    if not (f == function)
    then err invalid_function_code
    else if not (length registers + 2 == n + 2) || not (n == count * 2)
    then err invalid_register_byte_count
    else read_words big count registers

-- The payload of `writeRegisters`: a buffer of 6 + 2 * len(values) bytes that its loop fills.
unfoldable pub write_request : ℕ → List ℕ → Outcome (List ℕ)
write_request address values = bind (fill_words big (length values * 2) values) (λ registers. ok (
    0x10
    ∷ (put_uint16 big address
        ++ (put_uint16 big (length values % 65536) ++ ((length values * 2 % 256) ∷ registers)))))

unfoldable pub coil_request : ℕ → Bool → List ℕ
coil_request address value =
    0x05 ∷ (put_uint16 big address ++ put_uint16 big (if value then 0xFF00 else 0))

-- `if len(resp) != 5 || resp[0] != function { return error }`
abbrev pub check_echo : ℕ → Error → List ℕ → Outcome (Unit {0})
check_echo function e (f ∷ a ∷ b ∷ c ∷ d ∷ []) = if f == function then ok tt else err e
check_echo function e _ = err e

module _ (N : Net) where
  unfoldable pub read_registers : ℕ → ℕ → ℕ → Call N (List ℕ)
  read_registers address count function = do
    resp ← send_pdu N (read_request address count function)
    lift (registers_of count function resp)

  abbrev pub write_checked : ℕ → List ℕ → Call N (Unit {0})
  write_checked address values = do
    payload ← lift (write_request address values)
    resp ← send_pdu N payload
    lift (check_echo 0x10 invalid_write_register resp)

  unfoldable pub write_registers : ℕ → List ℕ → Call N (Unit {0})
  write_registers address [] s = (ok tt, s)
  write_registers address (v ∷ vs) s =
      if ltb 123 (length (v ∷ vs))
      then (err (too_many_registers (length (v ∷ vs))), s)
      else write_checked address (v ∷ vs) s

  unfoldable pub write_coil : ℕ → Bool → Call N (Unit {0})
  write_coil address value = do
    resp ← send_pdu N (coil_request address value)
    lift (check_echo 0x05 invalid_write_coil resp)

  unfoldable pub write_uint32 : ℕ → ℕ → Call N (Unit {0})
  write_uint32 address v = write_registers address (bytes_to_words big (put_uint32 big v))

  unfoldable pub write_int32 : ℕ → ℤ → Call N (Unit {0})
  write_int32 address v =
      write_registers address (bytes_to_words big (put_uint32 big (wrap 4294967296 v)))
