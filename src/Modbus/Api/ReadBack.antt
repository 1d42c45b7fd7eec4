-- ===== src/Modbus/Api/ReadBack.antt =====
-- What the methods write to a device that holds registers they read back, in any wire mode.
use go_iot_client.Base.{
  ℕ, ◌+◌, ◌*◌, ◌/◌, ◌%◌, ◌≤◌, ◌<◌, ◌≡◌, refl, sym, ap, true, List, [], ◌∷◌, length, All, ltb, arith,
}
use mathlib.Core.Path.{subst}
use go_iot_client.Base.Int.{
  ℤ, pos, wrap, signed, InRange, signed-wrap_16, signed-wrap_32, wrap-lt_16, wrap-lt_32,
}
use go_iot_client.Base.Outcome.{Outcome, ok, lift, ◌>>=◌}
use go_iot_client.Base.Alike.{Alike, then-Alike}
use go_iot_client.Base.Slices.{index}
use go_iot_client.Base.Words.{IsByte, IsWord, big, put_uint32, bytes_to_words}
use go_iot_client.Base.Words.Laws.{
  length-bytes_to_words, take-words_to_bytes, bytes_to_words-IsWord,
}
use go_iot_client.Text.{trim_right, is_nul}
use go_iot_client.Value.{Value, int16, int32, float32, string}
use go_iot_client.Core.{ResultT, new_result}
use go_iot_client.Net.{State}
use go_iot_client.Net.Stream.{Peer, stream}
use go_iot_client.Modbus.Client.{Client, Call}
use go_iot_client.Modbus.Exchange.Stream.{Serves}
use go_iot_client.Modbus.Exchange.Refines.{Models}
use go_iot_client.Modbus.Registers.{read_registers, write_registers, write_uint32, write_int32}
use go_iot_client.Modbus.Registers.Bytes.{write_bytes}
use go_iot_client.Modbus.Registers.Bank.{IsBank, read_registers-Bank, write_registers-Bank}
use go_iot_client.Modbus.Api.{
  parse_address, finish, finish_read, int16_body, bits32_body, string_body, write_value, write_body,
  read_int16, read_int32, read_float, read_string, write,
}

-- The registers of 32 bits.
abbrev pair : ℕ → List ℕ
pair v = bytes_to_words big (put_uint32 big v)

word_of_bytes : (w : ℕ) → w < 65536 → w / 256 % 256 * 256 + w % 256 ≡ w
word_of_bytes w h = omega arith

pair-words : (v : ℕ) → v < 4294967296 → pair v ≡ (v / 65536) ∷ (v % 65536) ∷ []
unfolding bytes_to_words
pair-words v h =
    rw (word_of_bytes (v / 65536 % 65536) (omega arith), word_of_bytes (v % 65536) (omega arith))
      (ap (λ (w : ℕ). w ∷ (v % 65536) ∷ []) (omega arith))

module _ (P : Peer) (serve : List ℕ → P.Device → List ℕ × P.Device)
    (registers : P.Device → ℕ → ℕ → List ℕ) (bank : IsBank serve registers)
    (s : State (stream P) (Client (stream P))) (u : IsByte s.client.unit_id)
    (serves : Serves P s.client.mode s.client.unit_id serve) (empty : s.world.inbox ≡ [])
    (address : List ℕ) (addr : ℕ) (parsed : parse_address address ≡ ok addr) where
  abbrev After :
      {A : Type 0}
      → Outcome A × State (stream P) (Client (stream P))
      → Outcome A × P.Device
      → Type 0
  After r q = Alike (Models P serve s.client) r q

  finish-After :
      (r : Outcome (Unit {0}) × State (stream P) (Client (stream P))) (d : P.Device)
      → After r (ok tt, d)
      → After (finish (stream P) r) (ok new_result, d)
  finish-After (o, s') d h =
      subst (λ x. After (finish (stream P) (x, s')) (ok new_result, d)) (sym h.0) (refl, h.1)

  finish_read-After :
      {A : Type 0} (z a : A) (r : Outcome A × State (stream P) (Client (stream P))) (d : P.Device)
      → After r (ok a, d)
      → After (finish_read (stream P) z r) (ok (record { result = new_result; value = a }), d)
  finish_read-After z a (o, s') d h =
      subst
        (λ x.
          After (finish_read (stream P) z (x, s'))
            (ok (record { result = new_result; value = a }), d))
        (sym h.0) (refl, h.1)

  -- The method that writes the value succeeds, and then the one that reads succeeds and has the value.
  abbrev pub ReadsBack : {A : Type 0} → Value → Call (stream P) (ResultT A) → A → Type 0
  ReadsBack value read a =
      let (r, s') = write (stream P) address value s in
      (r ≡ ok new_result) × ((read s').0 ≡ ok (record { result = new_result; value = a }))

  -- The device with the values stored.
  abbrev stored : List ℕ → P.Device
  stored values = (serve (write_bytes addr values) s.world.device).1

  reads_back :
      {A : Type 0} (z : A) (value : Value) (values : List ℕ) (body : Call (stream P) A) (a : A)
      → write_value (stream P) addr value s ≡ write_registers (stream P) addr values s
      → All IsWord values
      → 0 < length values
      → length values ≤ 123
      → addr + length values ≤ 65536
      → ((s' : State (stream P) (Client (stream P)))
          → After
              (read_registers (stream P) addr (length values) 0x03 s')
              (ok values, stored values)
          → After (body s') (ok a, stored values))
      → ReadsBack value (λ s'. finish_read (stream P) z (body s')) a
  unfolding write write_body
  reads_back z value values body a sent w some_values few fits k =
      let d = stored values in
      let wrote : After (write (stream P) address value s) (ok new_result, d) =
        rw (parsed, sent)
          (finish-After (write_registers (stream P) addr values s) d (
            write_registers-Bank P serve registers bank s.client u serves addr values s
              s.world.device (((refl, refl, refl), empty), refl) w some_values few fits)) in
      let s' = (write (stream P) address value s).1 in
      let kept = (bank.writes s.world.device addr values w some_values few fits).1 in
      let read =
        read_registers-Bank P serve registers bank s.client u serves addr (length values) s' d
          wrote.1 some_values (omega arith) fits in
      (
        wrote.0,
        (finish_read-After z a (body s') d (
            k s' (
              subst
                (λ vs. After (read_registers (stream P) addr (length values) 0x03 s') (ok vs, d))
                kept read))).0,
      )

  int16-ReadsBack :
      (v : ℤ)
      → InRange 32768 v
      → addr + 1 ≤ 65536
      → ReadsBack (int16 v) (read_int16 (stream P) address) v
  unfolding read_int16 write_value
  int16-ReadsBack v h fits =
      reads_back (pos 0) (int16 v) (wrap 65536 v ∷ []) (int16_body (stream P) address) v refl
        (wrap-lt_16 v, tt) (omega arith) (omega arith) fits
        (λ s' g.
          unfold int16_body index in
          rw parsed (
            then-Alike (Models P serve s.client) _ (wrap 65536 v ∷ []) (stored (wrap 65536 v ∷ []))
              _ _ g (λ s'' m. (ap ok (signed-wrap_16 v h), m))))

  bits32_body-After :
      (v : ℕ) (s' : State (stream P) (Client (stream P))) (d : P.Device)
      → v < 4294967296
      → After (read_registers (stream P) addr 2 0x03 s') (ok (pair v), d)
      → After (bits32_body (stream P) address s') (ok v, d)
  unfolding bits32_body index
  bits32_body-After v s' d h g = rw parsed (
      then-Alike (Models P serve s.client) _ ((v / 65536) ∷ (v % 65536) ∷ []) d _ _
        (subst (λ vs. After (read_registers (stream P) addr 2 0x03 s') (ok vs, d)) (pair-words v h)
          g)
        (λ s'' m. (ap ok (omega arith), m)))

  pair-IsWord : (v : ℕ) → v < 4294967296 → All IsWord (pair v)
  pair-IsWord v h = subst (All IsWord) (sym (pair-words v h)) (omega arith, (omega arith, tt))

  float32-ReadsBack :
      (f : ℕ)
      → f < 4294967296
      → addr + 2 ≤ 65536
      → ReadsBack (float32 f) (read_float (stream P) address) f
  unfolding read_float write_value write_uint32 bytes_to_words
  float32-ReadsBack f h fits =
      reads_back 0 (float32 f) (pair f) (bits32_body (stream P) address) f refl (pair-IsWord f h)
        (omega arith) (omega arith) fits (λ s' g. bits32_body-After f s' (stored (pair f)) h g)

  int32-ReadsBack :
      (x : ℤ)
      → InRange 2147483648 x
      → addr + 2 ≤ 65536
      → ReadsBack (int32 x) (read_int32 (stream P) address) x
  unfolding read_int32 write_value write_int32 bytes_to_words
  int32-ReadsBack x h fits =
      let bits = wrap 4294967296 x in
      reads_back (pos 0) (int32 x) (pair bits)
        (bits32_body (stream P) address >>= λ b. lift (ok (signed 4294967296 b))) x refl
        (pair-IsWord bits (wrap-lt_32 x)) (omega arith) (omega arith) fits
        (λ s' g.
          then-Alike (Models P serve s.client) (bits32_body (stream P) address s') bits
            (stored (pair bits)) _ _
            (bits32_body-After bits s' (stored (pair bits)) (wrap-lt_32 x) g)
            (λ s'' m. (ap ok (signed-wrap_32 x h), m)))

  string-ReadsBack :
      (v : List ℕ)
      → All IsByte v
      → 0 < length v
      → length v ≤ 246
      → addr + (length v + 1) / 2 ≤ 65536
      → ReadsBack (string v) (read_string (stream P) address (pos (length v))) (trim_right is_nul v)
  unfolding read_string write_value
  string-ReadsBack v b some_bytes small fits =
      let words = bytes_to_words big v in
      reads_back [] (string v) words (string_body (stream P) address (pos (length v)))
        (trim_right is_nul v) refl (bytes_to_words-IsWord big v b)
        (omega (arith, length-bytes_to_words big v)) (omega (arith, length-bytes_to_words big v))
        (omega (arith, length-bytes_to_words big v))
        (λ s' g.
          let counted : (length v + 1) / 2 % 65536 ≡ length words =
            omega (arith, length-bytes_to_words big v) in
          let positive : ltb 0 (length v) ≡ true = ground arith in
          unfold string_body in
          rw (positive, parsed, counted)
            (then-Alike (Models P serve s.client) _ words (stored words) _ _ g
              (λ s'' m. (ap (λ bs. ok (trim_right is_nul bs)) (take-words_to_bytes big v b), m))))

  -- On a stream to a device that holds registers and sends its replies in the client's wire mode, with nothing left
  -- to read, a unit id that is a byte, the client connected or not, and for an address that parses, with room
  -- for the registers behind it: an `int16`, an `int32`, the 32 bits of a `float32` and a string of 1 to 246 bytes
  -- are written with success, and the read method of the type that is called next succeeds and has the value that
  -- was written, the string without the NULs at its end.
  pub modbus_methods_read_back :
      (v x : ℤ) (f : ℕ) (text : List ℕ)
      → InRange 32768 v
      → InRange 2147483648 x
      → f < 4294967296
      → All IsByte text
      → 0 < length text
      → length text ≤ 246
      → addr + 2 ≤ 65536
      → addr + (length text + 1) / 2 ≤ 65536
      → ReadsBack (int16 v) (read_int16 (stream P) address) v
        × ReadsBack (int32 x) (read_int32 (stream P) address) x
        × ReadsBack (float32 f) (read_float (stream P) address) f
        × ReadsBack
            (string text)
            (read_string (stream P) address (pos (length text)))
            (trim_right is_nul text)
  modbus_methods_read_back v x f text hv hx hf ht some_bytes small room fits = (
    int16-ReadsBack v hv (omega arith),
    int32-ReadsBack x hx room,
    float32-ReadsBack f hf room,
    string-ReadsBack text ht some_bytes small fits,
  )
