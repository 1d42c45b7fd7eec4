-- ===== src/Value.antt =====
-- The argument of `Write`, an `interface{}`, by its dynamic type.
use go_iot_client.Base.{ℕ, Bool, List}
use go_iot_client.Base.Int.{ℤ}

-- A float is its bits, as `math.Float32bits` and `math.Float64bits` give them, and text its bytes.
-- `other` is a value of any type that no client's `Write` names.
pub data Value : Type 0 where
  bool : Bool → Value
  byte : ℕ → Value
  int : ℤ → Value
  uint : ℕ → Value
  int16 : ℤ → Value
  uint16 : ℕ → Value
  int32 : ℤ → Value
  uint32 : ℕ → Value
  int64 : ℤ → Value
  uint64 : ℕ → Value
  float32 : ℕ → Value
  float64 : ℕ → Value
  string : List ℕ → Value
  bytes : List ℕ → Value
  other : Value
