-- ===== src/Modbus/Api/Safety.antt =====
-- Every method returns a result, whatever the connection does and the device sends.
use go_iot_client.Base.{
  ℕ, ◌+◌, ◌/◌, ◌%◌, ◌≡◌, ◌↔◌, Bool, true, false, not, Option, none, some, List, [], length, arith,
}
use go_iot_client.Base.Int.{ℤ, pos, pos_part, is_positive, signed}
use go_iot_client.Base.Slices.{index-nth}
use go_iot_client.Base.Outcome.{
  Error, Outcome, ok, err, panic, lift, reject, read_length_not_positive, continue, ◌>>=◌, NoPanic,
  Meets, continue-Meets,
}
use go_iot_client.Text.{parse_uint, trim_space}
use go_iot_client.Core.{Result, ResultT}
use go_iot_client.Net.{Net, IsLawful, State}
use go_iot_client.Modbus.Client.{Client, Call}
use go_iot_client.Modbus.Client.Invariant.{IsValid}
use go_iot_client.Net.Keeps.{Keeps}
use go_iot_client.Modbus.Exchange.Safety.{Served}
use go_iot_client.Modbus.Registers.{read_registers, write_uint32, write_int32}
use go_iot_client.Modbus.Registers.Safety.{
  read_registers-Meets, write_registers-Keeps, write_coil-Keeps, lift_then,
}
use go_iot_client.Modbus.Api.{
  parsed, parse_address, finish, finish_read, int16_body, bits32_body, string_body, write_value,
  write_body, read_int16, read_int32, read_float, read_string, write,
}
use go_iot_client.Value.{Value, bool, byte, other}

parsed-NoPanic : (o : Option ℕ) → NoPanic (parsed o)
parsed-NoPanic none = tt
parsed-NoPanic (some n) = tt

parse_address-NoPanic : (address : List ℕ) → NoPanic (parse_address address)
unfolding parse_address
parse_address-NoPanic address = parsed-NoPanic (parse_uint 65535 (trim_space address))

-- A result says that it succeeded exactly when it names no error.
abbrev pub Told : Result → Type 0
Told r = (r.is_succeed ≡ true) ↔ (r.err_msg ≡ none)

-- A method returns a result, no panic; what it changes of the client is the transaction id and the
-- connection.
abbrev pub Answers : {N : Net} → Client N → Outcome Result × State N (Client N) → Type 0
Answers c r = Meets (λ a s'. Told a × Served c s'.client) (λ _ _. ⊥) r

-- A failed read has the zero value.
abbrev pub AnswersT :
    {N : Net} {A : Type 0} → A → Client N → Outcome (ResultT A) × State N (Client N) → Type 0
AnswersT zero_value c r =
    Meets
      (λ a s'. Told a.result × (a.is_succeed ≡ false → a.value ≡ zero_value) × Served c s'.client)
      (λ _ _. ⊥) r

module _ (N : Net) (c : Client N) where
  finish-Answers :
      (r : Outcome (Unit {0}) × State N (Client N)) → Keeps (Served c) r → Answers c (finish N r)
  finish-Answers (ok _, s) h = ground arith
  finish-Answers (err e, s) h = ground arith
  finish-Answers (panic, s) h = h

  finish_read-AnswersT :
      {A : Type 0} (z : A) (r : Outcome A × State N (Client N))
      → Keeps (Served c) r
      → AnswersT z c (finish_read N z r)
  finish_read-AnswersT z (ok a, s) h = ground arith
  finish_read-AnswersT z (err e, s) h = ground arith
  finish_read-AnswersT z (panic, s) h = h

module _ (N : Net) (L : IsLawful N) (s : State N (Client N)) (v : IsValid s.client) where
  same : Served s.client s.client
  same = ground arith

  reject_then :
      {B : Type 0} (test : Bool) (e : Error) (f : Unit {0} → Call N B)
      → Keeps (Served s.client) (f tt s)
      → Keeps (Served s.client) (continue (reject test e s) f)
  reject_then true e f k = same
  reject_then false e f k = k

  -- A read of registers, and a use of as many as were asked for.
  registers_then :
      {B : Type 0} (address count : ℕ) (f : List ℕ → Call N B)
      → ((ws : List ℕ) (s' : State N (Client N))
          → length ws ≡ count
          → Served s.client s'.client
          → Keeps (Served s.client) (f ws s'))
      → Keeps (Served s.client) (continue (read_registers N address count 0x03 s) f)
  registers_then address count f k =
      continue-Meets (λ ws s'. (length ws ≡ count) × Served s.client s'.client) _ _
        (read_registers N address count 0x03 s) f (read_registers-Meets N L s v address count 0x03)
        λ ws s' h. k ws s' h.0 h.1

  int16_body-Keeps : (address : List ℕ) → Keeps (Served s.client) (int16_body N address s)
  unfolding int16_body
  int16_body-Keeps address =
      lift_then N L s v (parse_address address) _ (parse_address-NoPanic address)
        λ addr. registers_then addr 1 _ λ ws s' e h. rw (index-nth ws 0 (omega arith)) h

  bits32_body-Keeps : (address : List ℕ) → Keeps (Served s.client) (bits32_body N address s)
  unfolding bits32_body
  bits32_body-Keeps address =
      lift_then N L s v (parse_address address) _ (parse_address-NoPanic address) λ addr.
        registers_then addr 2 _
          λ ws s' e h. rw (index-nth ws 0 (omega arith), index-nth ws 1 (omega arith)) h

  string_body-Keeps :
      (address : List ℕ) (n : ℤ) → Keeps (Served s.client) (string_body N address n s)
  unfolding string_body
  string_body-Keeps address n = reject_then (not (is_positive n)) read_length_not_positive _ (
      lift_then N L s v (parse_address address) _ (parse_address-NoPanic address)
        λ addr. registers_then addr ((pos_part n + 1) / 2 % 65536) _ λ ws s' e h. h)

  write_value-Keeps :
      (addr : ℕ) (value : Value) → Keeps (Served s.client) (write_value N addr value s)
  unfolding write_value write_int32 write_uint32
  write_value-Keeps addr (bool b) = write_coil-Keeps N L s v addr b
  write_value-Keeps addr (byte b) = same
  write_value-Keeps addr other = same
  write_value-Keeps addr _ = write_registers-Keeps N L s v addr _

  write_body-Keeps :
      (address : List ℕ) (value : Value) → Keeps (Served s.client) (write_body N address value s)
  unfolding write_body
  write_body-Keeps address value =
      lift_then N L s v (parse_address address) _ (parse_address-NoPanic address)
        λ addr. write_value-Keeps addr value

-- On every connection that meets the documentation, whatever arrives on it, each method of a valid
-- client returns a result, with no panic. The result says that it succeeded exactly when it names no
-- error, a failed read has the zero value, the client stays valid, and of its fields only the
-- transaction id and the connection change.
pub methods-Answer :
    (N : Net) (L : IsLawful N) (s : State N (Client N))
    → IsValid s.client
    → (address : List ℕ) (n : ℤ) (value : Value)
    → AnswersT (pos 0) s.client (read_int16 N address s)
      × AnswersT (pos 0) s.client (read_int32 N address s)
      × AnswersT 0 s.client (read_float N address s)
      × AnswersT [] s.client (read_string N address n s)
      × Answers s.client (write N address value s)
unfolding read_int16 read_int32 read_float read_string write
methods-Answer N L s v address n value = (
  finish_read-AnswersT N s.client (pos 0) (int16_body N address s)
      (int16_body-Keeps N L s v address),
  finish_read-AnswersT N s.client (pos 0)
      ((bits32_body N address >>= λ b. lift (ok (signed 4294967296 b))) s)
      (continue-Meets (λ _ s'. Served s.client s'.client) _ _ (bits32_body N address s) _
        (bits32_body-Keeps N L s v address) (λ _ _ h. h)),
  finish_read-AnswersT N s.client 0 (bits32_body N address s) (bits32_body-Keeps N L s v address),
  finish_read-AnswersT N s.client [] (string_body N address n s)
      (string_body-Keeps N L s v address n),
  finish-Answers N s.client (write_body N address value s) (write_body-Keeps N L s v address value),
)
