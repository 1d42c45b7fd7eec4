-- ===== src/Modbus/Registers/Bytes.antt =====
-- The requests to registers and coils are bytes.
use go_iot_client.Base.{
  ℕ, ◌*◌, ◌%◌, ◌≡◌, refl, Bool, true, false, List, ◌∷◌, ◌++◌, length, All, arith,
}
use go_iot_client.Base.Outcome.{ok}
use go_iot_client.Base.Words.{IsByte, big, put_uint16, words_to_bytes}
use go_iot_client.Base.Words.Laws.{words_to_bytes-IsByte, fill_words-words_to_bytes}
use go_iot_client.Modbus.Registers.{read_request, write_request, coil_request}

pub read_request-bytes :
    (address count function : ℕ)
    → IsByte function
    → All IsByte (read_request address count function)
unfolding read_request
read_request-bytes address count function h = omega arith

pub coil_request-bytes : (address : ℕ) (value : Bool) → All IsByte (coil_request address value)
unfolding coil_request
coil_request-bytes address true = omega arith
coil_request-bytes address false = omega arith

-- The bytes of a write request.
abbrev pub write_bytes : ℕ → List ℕ → List ℕ
write_bytes address values =
    0x10
    ∷ (put_uint16 big address
        ++ (put_uint16 big (length values % 65536)
            ++ ((length values * 2 % 256) ∷ words_to_bytes big values)))

pub write_request-bytes :
    (address : ℕ) (values : List ℕ) → write_request address values ≡ ok (write_bytes address values)
unfolding write_request
write_request-bytes address values = rw (fill_words-words_to_bytes big values) refl

pub write_bytes-IsByte : (address : ℕ) (values : List ℕ) → All IsByte (write_bytes address values)
write_bytes-IsByte address values = (
  omega arith,
  (
    omega arith,
    (omega arith, (omega arith, (omega arith, (omega arith, words_to_bytes-IsByte big values)))),
  ),
)
