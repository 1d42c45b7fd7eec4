-- ===== src/Net.antt =====
-- What the code uses of `net`, `time` and go.bug.st/serial: connections and the calls on them.
pub mod Full
pub mod Keeps
pub mod Stream
use go_iot_client.Base.{ℕ, ◌≤◌, ◌<◌, ◌≡◌, ◌≢◌, Bool, Option, none, some, List, length}
use go_iot_client.Base.Int.{ℤ}
use go_iot_client.Base.Outcome.{NetError, Outcome, ok, err, panic, net, M}

-- The fields of go.bug.st/serial's `serial.Mode` that the code sets.
pub data Parity : Type 0 where
  no_parity even_parity other_parity : Parity

pub data StopBits : Type 0 where
  one_stop_bit other_stop_bits : StopBits

pub record SerialMode : Type 0 where
  pub baud_rate : ℕ
  pub data_bits : ℕ
  pub parity : Parity
  pub stop_bits : StopBits

-- What one `Read` hands over: `n` bytes and perhaps an error, both at once.
pub record Received : Type 0 where
  pub bytes : List ℕ
  pub error : Option NetError

-- The environment: an unknown world, and calls that work on it. A timeout is in nanoseconds.
pub record Net : Type 1 where
  pub World : Type 0
  pub Conn : Type 0
  pub dial_tcp : List ℕ → ℤ → World → Outcome Conn × World
  pub open_serial : List ℕ → SerialMode → World → Outcome Conn × World
  pub set_read_timeout : Conn → ℤ → World → World
  pub has_deadline : Conn → Bool
  pub set_deadline : Conn → ℤ → World → Option NetError × World
  pub write : Conn → List ℕ → World → Option NetError × World
  pub read : Conn → ℕ → World → Received × World
  pub close : Conn → World → Option NetError × World
  pub sleep : ℤ → World → World

-- What the documentation of `io.Reader` and of the dialers promises: a read returns at most as many
-- bytes as asked for, and not none of them without an error; a dialer returns, it does not panic.
pub record IsLawful (N : Net) : Type 0 where
  pub read-fits : (c : N.Conn) (n : ℕ) (w : N.World) → length (N.read c n w).0.bytes ≤ n
  pub read-progress :
      (c : N.Conn) (n : ℕ) (w : N.World)
      → 0 < n
      → (N.read c n w).0.error ≡ none
      → 0 < length (N.read c n w).0.bytes
  pub dial-returns : (a : List ℕ) (t : ℤ) (w : N.World) → (N.dial_tcp a t w).0 ≢ panic
  pub serial-returns : (a : List ℕ) (m : SerialMode) (w : N.World) → (N.open_serial a m w).0 ≢ panic

-- The state of a call: the client's fields and the world.
pub record State (N : Net) (C : Type 0) : Type 0 where
  pub client : C
  pub world : N.World

module _ (N : Net) {C : Type 0} where
  abbrev after_call : C → Option NetError × N.World → Outcome (Unit {0}) × State N C
  after_call c (none, w) = (ok tt, record { client = c; world = w })
  after_call c (some e, w) = (err (net e), record { client = c; world = w })

  -- `if err := call(); err != nil { return err }`
  abbrev pub checked : (N.World → Option NetError × N.World) → M (State N C) (Unit {0})
  checked call s = after_call s.client (call s.world)

  -- `_ = call()`
  abbrev pub ignored : (N.World → Option NetError × N.World) → State N C → State N C
  ignored call s = record s { world = (call s.world).1 }

  abbrev in_state : {A : Type 0} → C → Outcome A × N.World → Outcome A × State N C
  in_state c (r, w) = (r, record { client = c; world = w })

  -- A call that works on the world alone.
  abbrev pub on_world : {A : Type 0} → M N.World A → M (State N C) A
  on_world call s = in_state s.client (call s.world)
