-- ===== src/Siemens/Api.antt =====
-- The methods of `IoTClient`.
pub mod Safety
pub mod Store
pub mod ReadBack
use go_iot_client.Base.{
  ℕ, Bool, true, false, not, ◌||◌, Option, none, some, List, [], ◌∷◌, length, replicate, ltb,
  if◌then◌else◌,
}
use go_iot_client.Base.Int.{ℤ, pos, pos_part, is_positive, wrap, signed}
use go_iot_client.Base.Outcome.{
  NetError, Outcome, ok, err, panic, net, bind, ◌>>=◌, ◌>>◌, lift, reject, unsupported_type,
  length_not_in_range,
}
use go_iot_client.Base.Words.{big, put_uint16, put_uint32, put_uint64}
use go_iot_client.Base.Slices.{word_at, dword_at}
use go_iot_client.Value.{
  Value, bool, byte, int, uint, int16, uint16, int32, uint32, int64, uint64, float32, float64,
  string, bytes, other,
}
use go_iot_client.Text.{trim_right, is_nul}
use go_iot_client.Core.{Result, ResultT, new_result, fail}
use go_iot_client.Core.Report.{report, finish_read}
use go_iot_client.Siemens.Gos7.{Gos7}
use go_iot_client.Siemens.Address.{Addr, parse_siemens_address}
use go_iot_client.Siemens.Client.{Client, State, Call, with_retry}

-- The type switch of `Write`: the bytes of a value, or the error of the default case.
unfoldable pub bytes_of_value : Value → Outcome (List ℕ)
bytes_of_value (bool v) = ok ((if v then 0x01 else 0x00) ∷ [])
bytes_of_value (byte v) = ok (v ∷ [])
bytes_of_value (int16 v) = ok (put_uint16 big (wrap 65536 v))
bytes_of_value (uint16 v) = ok (put_uint16 big v)
bytes_of_value (int32 v) = ok (put_uint32 big (wrap 4294967296 v))
bytes_of_value (uint32 v) = ok (put_uint32 big v)
bytes_of_value (int64 v) = ok (put_uint64 big (wrap 18446744073709551616 v))
bytes_of_value (uint64 v) = ok (put_uint64 big v)
bytes_of_value (float32 v) = ok (put_uint32 big v)
bytes_of_value (float64 v) = ok (put_uint64 big v)
bytes_of_value (string v) = ok v
bytes_of_value (int v) = err unsupported_type
bytes_of_value (uint v) = err unsupported_type
bytes_of_value (bytes v) = err unsupported_type
bytes_of_value other = err unsupported_type

-- `int16(Uint16(data))`
unfoldable pub int16_of : List ℕ → Outcome ℤ
int16_of buf = bind (word_at big buf 0) (λ w. ok (signed 65536 w))

-- `Uint32(data)`
unfoldable pub bits32_of : List ℕ → Outcome ℕ
bits32_of buf = dword_at big buf 0

-- The same bits as an int32.
unfoldable pub int32_of : List ℕ → Outcome ℤ
int32_of buf = bind (bits32_of buf) (λ b. ok (signed 4294967296 b))

module _ (G : Gos7) where
  abbrev pub filled : State G → (Option NetError × List ℕ) × G.World → Outcome (Unit {0}) × State G
  filled s ((none, buf), w) = (ok tt, record s { buf = buf; world = w })
  filled s ((some e, buf), w) = (err (net e), record s { buf = buf; world = w })

  -- `op` of `readBytes`; on a nil client it panics.
  abbrev pub read_on : Option G.Handler → Addr → ℕ → Call G (Unit {0})
  read_on none a size s = (panic, s)
  read_on (some h) a size s = filled s (G.read h a.area a.db a.start size s.buf s.world)

  abbrev pub read_op : Addr → ℕ → Call G (Unit {0})
  read_op a size s = read_on s.self.client a size s

  abbrev pub written : State G → Option NetError × G.World → Outcome (Unit {0}) × State G
  written s (none, w) = (ok tt, record s { world = w })
  written s (some e, w) = (err (net e), record s { world = w })

  -- `op` of `writeBytes`
  abbrev pub write_on : Option G.Handler → Addr → List ℕ → Call G (Unit {0})
  write_on none a payload s = (panic, s)
  write_on (some h) a payload s =
      written s (G.write h a.area a.db a.start (length payload) payload s.world)

  abbrev pub write_op : Addr → List ℕ → Call G (Unit {0})
  write_op a payload s = write_on s.self.client a payload s

  -- `buf := make([]byte, size)`
  abbrev pub make_buf : ℕ → Call G (Unit {0})
  make_buf size s = (ok tt, record s { buf = replicate size 0 })

  abbrev pub the_buf : Call G (List ℕ)
  the_buf s = (ok s.buf, s)

  unfoldable pub read_bytes : List ℕ → ℕ → Call G (List ℕ)
  read_bytes address size = do
    a ← lift (parse_siemens_address address)
    make_buf size
    with_retry G (read_op a size)
    the_buf

  unfoldable pub write_bytes : List ℕ → List ℕ → Call G (Unit {0})
  write_bytes address payload = do
    a ← lift (parse_siemens_address address)
    with_retry G (write_op a payload)

  unfoldable pub int16_body : List ℕ → Call G ℤ
  int16_body address = do buf ← read_bytes address 2; lift (int16_of buf)

  unfoldable pub int32_body : List ℕ → Call G ℤ
  int32_body address = do buf ← read_bytes address 4; lift (int32_of buf)

  unfoldable pub bits32_body : List ℕ → Call G ℕ
  bits32_body address = do buf ← read_bytes address 4; lift (bits32_of buf)

  unfoldable pub string_body : List ℕ → ℤ → Call G (List ℕ)
  string_body address read_length = do
    reject (not (is_positive read_length) || ltb 65535 (pos_part read_length)) length_not_in_range
    buf ← read_bytes address (pos_part read_length)
    lift (ok (trim_right is_nul buf))

  unfoldable pub write_body : List ℕ → Value → Call G (Unit {0})
  write_body address value = do payload ← lift (bytes_of_value value); write_bytes address payload

  unfoldable pub read_int16 : List ℕ → Call G (ResultT ℤ)
  read_int16 address s = finish_read (pos 0) (int16_body address s)

  unfoldable pub read_int32 : List ℕ → Call G (ResultT ℤ)
  read_int32 address s = finish_read (pos 0) (int32_body address s)

  unfoldable pub read_float : List ℕ → Call G (ResultT ℕ)
  read_float address s = finish_read 0 (bits32_body address s)

  unfoldable pub read_string : List ℕ → ℤ → Call G (ResultT (List ℕ))
  read_string address read_length s = finish_read [] (string_body address read_length s)

  unfoldable pub write : List ℕ → Value → Call G Result
  write address value s = report (λ e. fail e new_result) (write_body address value s)
