-- ===== src/Modbus/Client.antt =====
-- The client's fields, its constructors and setters, and its connection.
pub mod Invariant
use go_iot_client.Base.{ℕ, Bool, true, false, Option, none, some, List, ◌==◌, if◌then◌else◌}
use go_iot_client.Base.Int.{ℤ, pos, is_positive}
use go_iot_client.Base.Outcome.{Error, Outcome, ok, err, panic, M, continue, ◌>>=◌}
use go_iot_client.Core.{Result, RetryPolicy, normalize, new_result, fail, default_delay}
use go_iot_client.Net.{
  Net, SerialMode, no_parity, even_parity, one_stop_bit, State, checked, ignored, on_world,
}

-- `wireMode`
pub data WireMode : Type 0 where
  mode_tcp mode_rtu_over_tcp mode_rtu mode_ascii : WireMode

-- `dialFunc`, by its two values.
pub data Dialer : Type 0 where
  tcp_dial serial_dial : Dialer

-- `modbusClient`. The mutex is left out: a call holds it from its first use of a field to its last.
pub record Client (N : Net) : Type 0 where
  pub endpoint : List ℕ
  pub mode : WireMode
  pub unit_id : ℕ
  pub timeout : ℤ
  pub retry : RetryPolicy
  pub trans_id : ℕ
  pub conn : Option N.Conn
  pub auto_close : Bool
  pub dial : Option Dialer
  pub serial_mode : SerialMode

-- 1500 * time.Millisecond
abbrev pub default_timeout : ℤ
default_timeout = pos 1_500_000_000

abbrev pub default_retry : RetryPolicy
default_retry = record { max_retries = pos 2; retry_delay = default_delay }

-- The zero value of `serial.Mode`, whose parity and stop bits are the constants of value 0.
abbrev pub zero_mode : SerialMode
zero_mode = record { baud_rate = 0; data_bits = 0; parity = no_parity; stop_bits = one_stop_bit }

module _ (N : Net) where
  abbrev make : List ℕ → WireMode → Dialer → SerialMode → Client N
  make endpoint mode dial serial_mode = record {
    endpoint = endpoint;
    mode = mode;
    unit_id = 1;
    timeout = default_timeout;
    retry = normalize default_retry;
    trans_id = 0;
    conn = none;
    auto_close = false;
    dial = some dial;
    serial_mode = serial_mode;
  }

  pub new_tcp_client : List ℕ → Client N
  new_tcp_client endpoint = make endpoint mode_tcp tcp_dial zero_mode

  pub new_rtu_over_tcp_client : List ℕ → Client N
  new_rtu_over_tcp_client endpoint = make endpoint mode_rtu_over_tcp tcp_dial zero_mode

  pub new_rtu_client : List ℕ → Client N
  new_rtu_client port =
      make port mode_rtu serial_dial
        (record { baud_rate = 9600; data_bits = 8; parity = no_parity; stop_bits = one_stop_bit })

  pub new_ascii_client : List ℕ → Client N
  new_ascii_client port =
      make port mode_ascii serial_dial
        (record { baud_rate = 9600; data_bits = 7; parity = even_parity; stop_bits = one_stop_bit })

  unfoldable pub set_unit_id : ℕ → Client N → Client N
  set_unit_id unit_id c = record c { unit_id = if unit_id == 0 then 1 else unit_id }

  unfoldable pub set_timeout : ℤ → Client N → Client N
  set_timeout timeout c = if is_positive timeout then record c { timeout = timeout } else c

  unfoldable pub set_retry_policy : RetryPolicy → Client N → Client N
  unfolding normalize
  set_retry_policy policy c = record c { retry = normalize policy }

  unfoldable pub set_serial_mode : SerialMode → Client N → Client N
  set_serial_mode mode c = record c { serial_mode = mode }

  -- A method: it works on the client and the world.
  abbrev pub Call {ℓ} : Type ℓ → Type ℓ
  Call A = M (State N (Client N)) A

  abbrev pub the_client : Call (Client N)
  the_client s = (ok s.client, s)

  abbrev deref : Option N.Conn → Outcome N.Conn
  deref none = panic
  deref (some conn) = ok conn

  -- A method call on `c.conn`: a nil connection panics.
  abbrev pub the_conn : Call N.Conn
  the_conn s = (deref s.client.conn, s)

  abbrev pub set_conn : Option N.Conn → State N (Client N) → State N (Client N)
  set_conn conn s = record s { client = record s.client { conn = conn } }

  -- `tcpDial`, `serialDial`, and what a nil dial function stands for.
  unfoldable pub dial_by : Option Dialer → Client N → M N.World N.Conn
  dial_by none c w = N.dial_tcp c.endpoint c.timeout w
  dial_by (some tcp_dial) c w = N.dial_tcp c.endpoint c.timeout w
  dial_by (some serial_dial) c w =
      continue (N.open_serial c.endpoint c.serial_mode w)
        (λ port w'. (ok port, N.set_read_timeout port c.timeout w'))

  abbrev close_conn : Option N.Conn → State N (Client N) → State N (Client N)
  close_conn none s = s
  close_conn (some conn) s = set_conn none (ignored N (N.close conn) s)

  -- `_ = c.closeLocked()`, and the first lines of `Open`.
  unfoldable pub close_locked : State N (Client N) → State N (Client N)
  close_locked s = close_conn s.client.conn s

  -- `conn, err := dial(c)` and, unless that failed, `c.conn = conn`
  unfoldable pub connect : Call (Unit {0})
  unfolding dial_by
  connect s =
      (on_world N (dial_by s.client.dial s.client) >>= λ conn s'. (ok tt, set_conn (some conn) s'))
        s

  abbrev ensure : Option N.Conn → Call (Unit {0})
  ensure (some conn) s = (ok tt, s)
  ensure none s = connect s

  unfoldable pub ensure_conn : Call (Unit {0})
  unfolding connect
  ensure_conn s = ensure s.client.conn s

  -- What a method returns for the outcome of its body.
  abbrev report :
      (Error → Result)
      → Outcome (Unit {0}) × State N (Client N)
      → Outcome Result × State N (Client N)
  report f (ok _, s) = (ok new_result, s)
  report f (err e, s) = (ok (f e), s)
  report f (panic, s) = (panic, s)

  unfoldable pub open_ : Call Result
  unfolding close_locked connect
  open_ s = report (λ e. record (fail e new_result) { err_code = 408 }) (connect (close_locked s))

  abbrev close_reported : Option N.Conn → Call Result
  close_reported none s = (ok new_result, s)
  close_reported (some conn) s =
      let (r, s') = report (λ e. fail e new_result) (checked N (N.close conn) s) in
      (r, set_conn none s')

  unfoldable pub close : Call Result
  close s = close_reported s.client.conn s

  abbrev is_some : Option N.Conn → Bool
  is_some none = false
  is_some (some _) = true

  unfoldable pub connected : Client N → Bool
  connected c = is_some c.conn
