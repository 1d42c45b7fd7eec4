-- ===== src/Modbus/Api/Equivalent.antt =====
-- The methods of two clients in two wire modes.
use go_iot_client.Base.{ℕ, ◌+◌, ◌*◌, ◌/◌, ◌%◌, refl, Bool, true, false, not, List, [], arith}
use go_iot_client.Base.Int.{ℤ, pos, pos_part, is_positive, signed}
use go_iot_client.Base.Outcome.{
  Error, Outcome, ok, err, panic, M, lift, reject, ◌>>=◌, read_length_not_positive,
  unsupported_type,
}
use go_iot_client.Base.Alike.{Alike, done-Alike, continue-Alike}
use go_iot_client.Base.Slices.{index}
use go_iot_client.Value.{
  Value, bool, byte, int, uint, int16, uint16, int32, uint32, int64, uint64, float32, float64,
  string, bytes, other,
}
use go_iot_client.Net.{State}
use go_iot_client.Modbus.Client.{Client, Call}
use go_iot_client.Modbus.Registers.{
  read_registers, write_registers, write_coil, write_uint32, write_int32,
}
use go_iot_client.Modbus.Registers.Equivalent.{
  behind, Match, IsPair, read_registers-Alike, write_coil-Alike, write_registers-Alike,
}
use go_iot_client.Modbus.Api.{
  parse_address, finish, finish_read, int16_body, bits32_body, string_body, write_value, write_body,
  read_int16, read_int32, read_float, read_string, write,
}

module _ {D : Type 0} (answer answer' : List ℕ → D → List ℕ × D) (serve : List ℕ → D → List ℕ × D)
    (c : Client (behind answer)) (c' : Client (behind answer'))
    (p : IsPair answer answer' serve c c') where
  abbrev Both : {A : Type 0} → Call (behind answer) A → Call (behind answer') A → Type 0
  Both f g =
      (s : State (behind answer) (Client (behind answer)))
      (t : State (behind answer') (Client (behind answer')))
      → Match answer answer' serve c c' s t
      → Alike (Match answer answer' serve c c') (f s) (g t)

  then-Both :
      {A B : Type 0} (f : Call (behind answer) A) (g : Call (behind answer') A)
      (k : A → Call (behind answer) B) (l : A → Call (behind answer') B)
      → Both f g
      → ((a : A) → Both (k a) (l a))
      → Both (f >>= k) (g >>= l)
  then-Both f g k l h next s t m =
      continue-Alike (Match answer answer' serve c c') (f s) (g t) k l (h s t m) next

  lift-Both : {A : Type 0} (r : Outcome A) → Both (lift r) (lift r)
  lift-Both r s t m = (refl, m)

  finish-outcome :
      (r : Outcome (Unit {0})) (s : State (behind answer) (Client (behind answer)))
      (t : State (behind answer') (Client (behind answer')))
      → Match answer answer' serve c c' s t
      → Alike
          (Match answer answer' serve c c')
          (finish (behind answer) (r, s))
          (finish (behind answer') (r, t))
  finish-outcome (ok a) s t m = (refl, m)
  finish-outcome (err e) s t m = (refl, m)
  finish-outcome panic s t m = (refl, m)

  finish-Both :
      (f : Call (behind answer) (Unit {0})) (g : Call (behind answer') (Unit {0}))
      → Both f g
      → Both (λ s. finish (behind answer) (f s)) (λ s. finish (behind answer') (g s))
  finish-Both f g h s t m =
      done-Alike (Match answer answer' serve c c') (finish (behind answer))
        (finish (behind answer')) (f s) (g t) (h s t m) finish-outcome

  finish_read-outcome :
      {A : Type 0} (z : A) (r : Outcome A) (s : State (behind answer) (Client (behind answer)))
      (t : State (behind answer') (Client (behind answer')))
      → Match answer answer' serve c c' s t
      → Alike
          (Match answer answer' serve c c')
          (finish_read (behind answer) z (r, s))
          (finish_read (behind answer') z (r, t))
  finish_read-outcome z (ok a) s t m = (refl, m)
  finish_read-outcome z (err e) s t m = (refl, m)
  finish_read-outcome z panic s t m = (refl, m)

  finish_read-Both :
      {A : Type 0} (z : A) (f : Call (behind answer) A) (g : Call (behind answer') A)
      → Both f g
      → Both (λ s. finish_read (behind answer) z (f s)) (λ s. finish_read (behind answer') z (g s))
  finish_read-Both z f g h s t m =
      done-Alike (Match answer answer' serve c c') (finish_read (behind answer) z)
        (finish_read (behind answer') z) (f s) (g t) (h s t m) (finish_read-outcome z)

  read_registers-Both :
      (address count : ℕ)
      → Both
          (read_registers (behind answer) address count 0x03)
          (read_registers (behind answer') address count 0x03)
  read_registers-Both address count s t m =
      read_registers-Alike answer answer' serve c c' p s t m address count 0x03 (omega arith)

  int16_body-Both :
      (address : List ℕ)
      → Both (int16_body (behind answer) address) (int16_body (behind answer') address)
  unfolding int16_body
  int16_body-Both address = then-Both _ _ _ _ (lift-Both (parse_address address)) (λ addr.
      then-Both _ _ _ _ (read_registers-Both addr 1) (λ values.
        then-Both _ _ _ _ (lift-Both (index values 0)) (λ w. lift-Both (ok (signed 65536 w)))))

  bits32_body-Both :
      (address : List ℕ)
      → Both (bits32_body (behind answer) address) (bits32_body (behind answer') address)
  unfolding bits32_body
  bits32_body-Both address = then-Both _ _ _ _ (lift-Both (parse_address address)) (λ addr.
      then-Both _ _ _ _ (read_registers-Both addr 2) (λ values.
        then-Both _ _ _ _ (lift-Both (index values 0)) (λ hi.
          then-Both _ _ _ _ (lift-Both (index values 1)) (λ lo. lift-Both (ok (hi * 65536 + lo))))))

  reject-Both : (b : Bool) (e : Error) → Both (reject b e) (reject b e)
  reject-Both true e s t m = (refl, m)
  reject-Both false e s t m = (refl, m)

  string_body-Both :
      (address : List ℕ) (read_length : ℤ)
      → Both
          (string_body (behind answer) address read_length)
          (string_body (behind answer') address read_length)
  unfolding string_body
  string_body-Both address read_length =
      then-Both _ _ _ _ (reject-Both (not (is_positive read_length)) read_length_not_positive) (λ _.
        then-Both _ _ _ _ (lift-Both (parse_address address)) (λ addr.
          then-Both _ _ _ _ (read_registers-Both addr ((pos_part read_length + 1) / 2 % 65536))
            (λ values. lift-Both _)))

  write_registers-Both :
      (address : ℕ) (values : List ℕ)
      → Both
          (write_registers (behind answer) address values)
          (write_registers (behind answer') address values)
  write_registers-Both address values s t m =
      write_registers-Alike answer answer' serve c c' p s t m address values

  write_coil-Both :
      (address : ℕ) (value : Bool)
      → Both (write_coil (behind answer) address value) (write_coil (behind answer') address value)
  write_coil-Both address value s t m =
      write_coil-Alike answer answer' serve c c' p s t m address value

  write_value-Both :
      (addr : ℕ) (value : Value)
      → Both (write_value (behind answer) addr value) (write_value (behind answer') addr value)
  unfolding write_value write_uint32 write_int32
  write_value-Both addr (bool v) = write_coil-Both addr v
  write_value-Both addr (byte v) = lift-Both (err unsupported_type)
  write_value-Both addr (int v) = write_registers-Both addr _
  write_value-Both addr (uint v) = write_registers-Both addr _
  write_value-Both addr (int16 v) = write_registers-Both addr _
  write_value-Both addr (uint16 v) = write_registers-Both addr _
  write_value-Both addr (int32 v) = write_registers-Both addr _
  write_value-Both addr (uint32 v) = write_registers-Both addr _
  write_value-Both addr (int64 v) = write_registers-Both addr _
  write_value-Both addr (uint64 v) = write_registers-Both addr _
  write_value-Both addr (float32 v) = write_registers-Both addr _
  write_value-Both addr (float64 v) = write_registers-Both addr _
  write_value-Both addr (string v) = write_registers-Both addr _
  write_value-Both addr (bytes v) = write_registers-Both addr _
  write_value-Both addr other = lift-Both (err unsupported_type)

  write_body-Both :
      (address : List ℕ) (value : Value)
      → Both (write_body (behind answer) address value) (write_body (behind answer') address value)
  unfolding write_body
  write_body-Both address value =
      then-Both _ _ _ _ (lift-Both (parse_address address)) (λ addr. write_value-Both addr value)

  -- For two devices that do the same with the PDUs of bytes and reply in the framings of their clients, which have
  -- unit ids that are bytes and the same retry policy, in any two wire modes and with any addresses, timeouts and
  -- transaction ids: from states that match, so with nothing to read and the devices in one state, each of the
  -- five methods returns one result for both clients, and leaves states that match.
  pub methods-equivalent :
      (s : State (behind answer) (Client (behind answer)))
      (t : State (behind answer') (Client (behind answer'))) (address : List ℕ) (read_length : ℤ)
      (value : Value)
      → Match answer answer' serve c c' s t
      → Alike
          (Match answer answer' serve c c')
          (read_int16 (behind answer) address s)
          (read_int16 (behind answer') address t)
        × Alike
            (Match answer answer' serve c c')
            (read_int32 (behind answer) address s)
            (read_int32 (behind answer') address t)
        × Alike
            (Match answer answer' serve c c')
            (read_float (behind answer) address s)
            (read_float (behind answer') address t)
        × Alike
            (Match answer answer' serve c c')
            (read_string (behind answer) address read_length s)
            (read_string (behind answer') address read_length t)
        × Alike
            (Match answer answer' serve c c')
            (write (behind answer) address value s)
            (write (behind answer') address value t)
  unfolding read_int16 read_int32 read_float read_string write
  methods-equivalent s t address read_length value m = (
    finish_read-Both (pos 0) (int16_body (behind answer) address)
        (int16_body (behind answer') address) (int16_body-Both address) s t m,
    finish_read-Both (pos 0) (bits32_body (behind answer) address >>= as_signed)
        (bits32_body (behind answer') address >>= as_signed)
        (then-Both _ _ as_signed as_signed (bits32_body-Both address)
          (λ b. lift-Both (ok (signed 4294967296 b))))
        s t m,
    finish_read-Both 0 (bits32_body (behind answer) address) (bits32_body (behind answer') address)
        (bits32_body-Both address) s t m,
    finish_read-Both [] (string_body (behind answer) address read_length)
        (string_body (behind answer') address read_length) (string_body-Both address read_length) s
        t m,
    finish-Both (write_body (behind answer) address value)
        (write_body (behind answer') address value) (write_body-Both address value) s t m,
  )
    where
      as_signed : {S : Type 0} → ℕ → M S ℤ
      as_signed b = lift (ok (signed 4294967296 b))
