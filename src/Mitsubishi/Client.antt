-- ===== src/Mitsubishi/Client.antt =====
-- The client's fields, its constructor and setters, and its connection.
pub mod Address
use go_iot_client.Base.{ℕ, ◌*◌, ◌%◌, Bool, true, false, Option, none, some, List, if◌then◌else◌}
use go_iot_client.Base.Int.{ℤ, pos, pos_part, is_positive, signed}
use go_iot_client.Base.Outcome.{
  Error, Outcome, ok, err, panic, M, continue, ◌>>=◌, dial_failed, unsupported_version,
}
use go_iot_client.Core.{Result, new_result, fail}
use go_iot_client.Net.{Net, State, checked, ignored, on_world}
use go_iot_client.Text.{itoa}
use go_iot_client.Mitsubishi.Client.Address.{join_host_port}

-- `MitsubishiVersion`, by its three constants, the empty string and the other strings.
pub data Version : Type 0 where
  empty_version version_none version_a1e version_qna3e other_version : Version

-- `MitsubishiClient`. `maxRetries` is never negative: the constructor sets 2, and the setter clamps.
-- The mutex is left out, and a call is one step. `Open` reads the version, and `readWords` and
-- `writeWords` read their timeout, before they take it; all else is read and written under it.
pub record Client (N : Net) : Type 0 where
  pub version : Version
  pub ip : List ℕ
  pub port : ℤ
  pub timeout : ℤ
  pub network_no : ℕ
  pub station_no : ℕ
  pub module_io : ℕ
  pub multidrop_station : ℕ
  pub monitoring_timer : ℕ
  pub read_timeout : ℤ
  pub write_timeout : ℤ
  pub max_retries : ℕ
  pub retry_delay : ℤ
  pub conn : Option N.Conn

-- A number of milliseconds as a `time.Duration`, which is an int64 and wraps.
abbrev milliseconds : ℤ → ℤ
milliseconds z = signed 18446744073709551616 (pos_part z * 1_000_000 % 18446744073709551616)

abbrev version_or_default : Version → Version
version_or_default empty_version = version_qna3e
version_or_default v = v

abbrev pub is_qna3e : Version → Bool
is_qna3e version_qna3e = true
is_qna3e _ = false

module _ (N : Net) where
  unfoldable pub new_mitsubishi_client : Version → List ℕ → ℤ → ℤ → Client N
  new_mitsubishi_client version ip port timeout_ms = record {
    version = version_or_default version;
    ip = ip;
    port = port;
    timeout = milliseconds (if is_positive timeout_ms then timeout_ms else pos 1500);
    network_no = 0x00;
    station_no = 0xFF;
    module_io = 0x03FF;
    multidrop_station = 0x00;
    monitoring_timer = 2000;
    read_timeout = pos 5_000_000_000;
    write_timeout = pos 5_000_000_000;
    max_retries = 2;
    retry_delay = pos 100_000_000;
    conn = none;
  }

  unfoldable pub set_route : ℕ → ℕ → ℕ → ℕ → Client N → Client N
  set_route network_no station_no module_io multidrop_station c = record c {
    network_no = network_no;
    station_no = station_no;
    module_io = module_io;
    multidrop_station = multidrop_station;
  }

  unfoldable pub set_monitoring_timer : ℕ → Client N → Client N
  set_monitoring_timer ms c = record c { monitoring_timer = ms }

  unfoldable pub set_read_write_timeout : ℤ → ℤ → Client N → Client N
  set_read_write_timeout read_timeout write_timeout c = record c {
    read_timeout = if is_positive read_timeout then read_timeout else c.read_timeout;
    write_timeout = if is_positive write_timeout then write_timeout else c.write_timeout;
  }

  unfoldable pub set_retry_policy : ℤ → ℤ → Client N → Client N
  set_retry_policy max_retries retry_delay c = record c {
    max_retries = pos_part max_retries;
    retry_delay = if is_positive retry_delay then retry_delay else c.retry_delay;
  }

  -- A method: it works on the client and the world.
  abbrev pub Call {ℓ} : Type ℓ → Type ℓ
  Call A = M (State N (Client N)) A

  abbrev pub the_client : Call (Client N)
  the_client s = (ok s.client, s)

  abbrev deref : Option N.Conn → Outcome N.Conn
  deref none = panic
  deref (some conn) = ok conn

  -- A method call on `c.conn`: a nil connection panics.
  abbrev pub the_conn : Call N.Conn
  the_conn s = (deref s.client.conn, s)

  abbrev pub set_conn : Option N.Conn → State N (Client N) → State N (Client N)
  set_conn conn s = record s { client = record s.client { conn = conn } }

  abbrev wrapped : Outcome N.Conn × N.World → Outcome N.Conn × N.World
  wrapped (ok conn, w) = (ok conn, w)
  wrapped (err e, w) = (err (dial_failed e), w)
  wrapped (panic, w) = (panic, w)

  unfoldable pub dial_locked : Client N → M N.World N.Conn
  dial_locked c w = wrapped (N.dial_tcp (join_host_port c.ip (itoa c.port)) c.timeout w)

  abbrev close_conn : Option N.Conn → State N (Client N) → State N (Client N)
  close_conn none s = s
  close_conn (some conn) s = set_conn none (ignored N (N.close conn) s)

  -- `if c.conn != nil { _ = c.conn.Close(); c.conn = nil }`
  unfoldable pub drop_conn : State N (Client N) → State N (Client N)
  drop_conn s = close_conn s.client.conn s

  abbrev connect : Call (Unit {0})
  connect s = (on_world N (dial_locked s.client) >>= λ conn s'. (ok tt, set_conn (some conn) s')) s

  unfoldable pub reconnect_locked : Call (Unit {0})
  reconnect_locked s = connect (drop_conn s)

  -- What a method returns for the outcome of its body.
  abbrev pub report :
      (Error → Result)
      → Outcome (Unit {0}) × State N (Client N)
      → Outcome Result × State N (Client N)
  report f (ok _, s) = (ok new_result, s)
  report f (err e, s) = (ok (f e), s)
  report f (panic, s) = (panic, s)

  unfoldable pub open_ : Call Result
  open_ s =
      if is_qna3e s.client.version
      then report (λ e. record (fail e new_result) { err_code = 408 }) (connect (drop_conn s))
      else (ok (fail unsupported_version new_result), s)

  abbrev close_reported : Option N.Conn → Call Result
  close_reported none s = (ok new_result, s)
  close_reported (some conn) s =
      let (r, s') = report (λ e. fail e new_result) (checked N (N.close conn) s) in
      (r, set_conn none s')

  unfoldable pub close : Call Result
  close s = close_reported s.client.conn s

  abbrev is_some : Option N.Conn → Bool
  is_some none = false
  is_some (some _) = true

  unfoldable pub connected : Client N → Bool
  connected c = is_some c.conn
