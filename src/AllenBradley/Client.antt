-- ===== src/AllenBradley/Client.antt =====
-- The client's fields, its constructor and setters, its connection and the registration of a session.
pub mod Safety
use go_iot_client.Base.{
  ℕ, Bool, true, false, Option, none, some, List, [], ◌∷◌, ◌==◌, if◌then◌else◌,
}
use go_iot_client.Base.Int.{ℤ, pos, is_positive}
use go_iot_client.Base.Outcome.{
  Error, Outcome, ok, err, panic, M, continue, ◌>>=◌, ◌>>◌, lift, reject, invalid_session,
}
use go_iot_client.Base.Words.{little}
use go_iot_client.Base.Slices.{dword_at}
use go_iot_client.Core.{Result, RetryPolicy, normalize, new_result, fail, default_delay}
use go_iot_client.Core.Report.{report}
use go_iot_client.Net.{Net, State, checked, ignored, on_world}
use go_iot_client.Net.Full.{read_full}

-- `AllenBradleyClient`. The mutex is left out: a call holds it from its first use of the connection to
-- its last.
pub record Client (N : Net) : Type 0 where
  pub endpoint : List ℕ
  pub slot : ℕ
  pub timeout : ℤ
  pub retry : RetryPolicy
  pub conn : Option N.Conn
  pub session : ℕ

-- `cmd` of `registerSessionLocked`
abbrev pub register_session : List ℕ
register_session =
    0x65 ∷ 0x00 ∷ 0x04 ∷ 0x00 ∷ 0x00 ∷ 0x00 ∷ 0x00 ∷ 0x00 ∷ 0x00 ∷ 0x00 ∷ 0x00 ∷ 0x00 ∷ 0x00 ∷ 0x00
    ∷ 0x00 ∷ 0x00 ∷ 0x00 ∷ 0x00 ∷ 0x00 ∷ 0x00 ∷ 0x00 ∷ 0x00 ∷ 0x00 ∷ 0x00 ∷ 0x01 ∷ 0x00 ∷ 0x00
    ∷ 0x00 ∷ []

module _ (N : Net) where
  unfoldable pub new_allen_bradley_client : List ℕ → Client N
  new_allen_bradley_client endpoint = record {
    endpoint = endpoint;
    slot = 0;
    timeout = pos 1_500_000_000;
    retry = normalize (record { max_retries = pos 2; retry_delay = default_delay });
    conn = none;
    session = 0;
  }

  unfoldable pub set_slot : ℕ → Client N → Client N
  set_slot slot c = record c { slot = slot }

  unfoldable pub set_timeout : ℤ → Client N → Client N
  set_timeout timeout c = if is_positive timeout then record c { timeout = timeout } else c

  unfoldable pub set_retry_policy : RetryPolicy → Client N → Client N
  set_retry_policy policy c = record c { retry = normalize policy }

  -- A method: it works on the client and the world.
  abbrev pub Call {ℓ} : Type ℓ → Type ℓ
  Call A = M (State N (Client N)) A

  abbrev pub the_client : Call (Client N)
  the_client s = (ok s.client, s)

  abbrev deref : Option N.Conn → Outcome N.Conn
  deref none = panic
  deref (some conn) = ok conn

  -- A method call on `c.conn`: a nil connection panics.
  abbrev pub the_conn : Call N.Conn
  the_conn s = (deref s.client.conn, s)

  abbrev pub set_conn : Option N.Conn → State N (Client N) → State N (Client N)
  set_conn conn s = record s { client = record s.client { conn = conn } }

  abbrev pub set_session : ℕ → State N (Client N) → State N (Client N)
  set_session session s = record s { client = record s.client { session = session } }

  abbrev drop_of : Option N.Conn → State N (Client N) → State N (Client N)
  drop_of none s = s
  drop_of (some conn) s = set_conn none (ignored N (N.close conn) s)

  -- `_ = c.conn.Close(); c.conn = nil` of `Open`, which leaves the session alone.
  unfoldable pub drop_conn : State N (Client N) → State N (Client N)
  drop_conn s = drop_of s.client.conn s

  abbrev close_of : Option N.Conn → State N (Client N) → State N (Client N)
  close_of none s = s
  close_of (some conn) s = set_session 0 (set_conn none (ignored N (N.close conn) s))

  -- `_ = c.closeLocked()`
  unfoldable pub close_locked : State N (Client N) → State N (Client N)
  close_locked s = close_of s.client.conn s

  -- `conn, err := net.DialTimeout(…)` and, unless that failed, `c.conn = conn`
  unfoldable pub connect : Call (Unit {0})
  connect s =
      (on_world N (N.dial_tcp s.client.endpoint s.client.timeout) >>= λ conn s'.
      (ok tt, set_conn (some conn) s'))
        s

  -- The session is stored before it is looked at.
  unfoldable pub accept : ℕ → Call (Unit {0})
  accept session s = reject (session == 0) invalid_session (set_session session s)

  -- The method on the connection `conn` of the client `c`.
  unfoldable pub register : Client N → N.Conn → Call (Unit {0})
  register c conn = do
    checked N (N.set_deadline conn c.timeout)
    checked N (N.write conn register_session)
    resp ← on_world N (read_full N conn 28)
    session ← lift (dword_at little resp 4)
    accept session

  unfoldable pub register_session_locked : Call (Unit {0})
  register_session_locked = do c ← the_client; conn ← the_conn; register c conn

  abbrev ensure : Option N.Conn → Call (Unit {0})
  ensure (some conn) s = (ok tt, s)
  ensure none s = (connect >>= λ _. register_session_locked) s

  unfoldable pub ensure_conn : Call (Unit {0})
  ensure_conn s = ensure s.client.conn s

  -- What `Open` makes of the outcome of the registration, and of dialing.
  abbrev registered : Outcome (Unit {0}) × State N (Client N) → Outcome Result × State N (Client N)
  registered (ok _, s) = (ok new_result, s)
  registered (err e, s) = (ok (fail e new_result), drop_conn s)
  registered (panic, s) = (panic, s)

  abbrev dialed : Outcome (Unit {0}) × State N (Client N) → Outcome Result × State N (Client N)
  dialed (ok _, s) = registered (register_session_locked s)
  dialed (err e, s) = (ok (record (fail e new_result) { err_code = 408 }), s)
  dialed (panic, s) = (panic, s)

  unfoldable pub open_ : Call Result
  open_ s = dialed (connect (drop_conn s))

  abbrev close_reported : Option N.Conn → Call Result
  close_reported none s = (ok new_result, s)
  close_reported (some conn) s =
      let (r, s') = report (λ e. fail e new_result) (checked N (N.close conn) s) in
      (r, set_conn none s')

  unfoldable pub close : Call Result
  close s = let (r, s') = close_reported s.client.conn s in (r, set_session 0 s')

  abbrev is_some : Option N.Conn → Bool
  is_some none = false
  is_some (some _) = true

  unfoldable pub connected : Client N → Bool
  connected c = is_some c.conn
