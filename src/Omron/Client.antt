-- ===== src/Omron/Client.antt =====
-- The client's fields, its constructor and setters, its connection and the handshake.
pub mod Safety
use go_iot_client.Base.{
  ℕ, Bool, true, false, not, Option, none, some, List, [], ◌∷◌, length, leb, if◌then◌else◌,
}
use go_iot_client.Base.Int.{ℤ, pos, is_positive}
use go_iot_client.Base.Outcome.{
  Error, Outcome, ok, err, panic, M, continue, ◌>>=◌, ◌>>◌, lift, reject, bind, invalid_magic,
}
use go_iot_client.Base.Words.{big}
use go_iot_client.Base.Slices.{index, slice, dword_at, same_bytes}
use go_iot_client.Core.{Result, RetryPolicy, normalize, new_result, fail, default_delay}
use go_iot_client.Core.Report.{report}
use go_iot_client.Net.{Net, State, checked, ignored, on_world}
use go_iot_client.Net.Full.{read_full}

-- `OmronFinsClient`. The mutex is left out: a call holds it from its first use of the connection to its
-- last.
pub record Client (N : Net) : Type 0 where
  pub endpoint : List ℕ
  pub timeout : ℤ
  pub retry : RetryPolicy
  pub conn : Option N.Conn
  pub unit_address : ℕ
  pub sa1 : ℕ
  pub da1 : ℕ

-- `"FINS"`
abbrev pub magic : List ℕ
magic = b'F' ∷ b'I' ∷ b'N' ∷ b'S' ∷ []

-- `cmd` of `handshakeLocked`
unfoldable pub hello : ℕ → List ℕ
hello sa1 =
    0x46 ∷ 0x49 ∷ 0x4E ∷ 0x53 ∷ 0x00 ∷ 0x00 ∷ 0x00 ∷ 0x0C ∷ 0x00 ∷ 0x00 ∷ 0x00 ∷ 0x00 ∷ 0x00 ∷ 0x00
    ∷ 0x00 ∷ 0x00 ∷ 0x00 ∷ 0x00 ∷ 0x00 ∷ sa1 ∷ []

-- The length that the eight bytes before a content announce.
unfoldable pub content_length : List ℕ → Outcome ℕ
content_length head =
    bind (slice head 0 4)
      (λ word. if not (same_bytes word magic) then err invalid_magic else dword_at big head 4)

module _ (N : Net) where
  unfoldable pub new_omron_fins_client : List ℕ → Client N
  new_omron_fins_client endpoint = record {
    endpoint = endpoint;
    timeout = pos 1_500_000_000;
    retry = normalize (record { max_retries = pos 2; retry_delay = default_delay });
    conn = none;
    unit_address = 0x00;
    sa1 = 0x0B;
    da1 = 0x01;
  }

  unfoldable pub set_timeout : ℤ → Client N → Client N
  set_timeout timeout c = if is_positive timeout then record c { timeout = timeout } else c

  unfoldable pub set_retry_policy : RetryPolicy → Client N → Client N
  set_retry_policy policy c = record c { retry = normalize policy }

  unfoldable pub set_routing : ℕ → ℕ → ℕ → Client N → Client N
  set_routing sa1 da1 unit_address c = record c {
    sa1 = sa1;
    da1 = da1;
    unit_address = unit_address;
  }

  -- A method: it works on the client and the world.
  abbrev pub Call {ℓ} : Type ℓ → Type ℓ
  Call A = M (State N (Client N)) A

  abbrev pub the_client : Call (Client N)
  the_client s = (ok s.client, s)

  abbrev deref : Option N.Conn → Outcome N.Conn
  deref none = panic
  deref (some conn) = ok conn

  -- A method call on `c.conn`: a nil connection panics.
  abbrev pub the_conn : Call N.Conn
  the_conn s = (deref s.client.conn, s)

  abbrev pub set_conn : Option N.Conn → State N (Client N) → State N (Client N)
  set_conn conn s = record s { client = record s.client { conn = conn } }

  abbrev close_conn : Option N.Conn → State N (Client N) → State N (Client N)
  close_conn none s = s
  close_conn (some conn) s = set_conn none (ignored N (N.close conn) s)

  -- `_ = c.closeLocked()`, and the same lines in `Open`.
  unfoldable pub close_locked : State N (Client N) → State N (Client N)
  close_locked s = close_conn s.client.conn s

  -- `conn, err := net.DialTimeout(…)` and, unless that failed, `c.conn = conn`
  unfoldable pub connect : Call (Unit {0})
  connect s =
      (on_world N (N.dial_tcp s.client.endpoint s.client.timeout) >>= λ conn s'.
      (ok tt, set_conn (some conn) s'))
        s

  -- The PLC tells its node number in the sixteenth byte.
  unfoldable pub learn : List ℕ → Call (Unit {0})
  learn content s =
      if leb 16 (length content)
      then (lift (index content 15) >>= λ da1 s'.
            (ok tt, record s' { client = record s'.client { da1 = da1 } }))
          s
      else (ok tt, s)

  -- The method on the connection `conn` of the client `c`.
  unfoldable pub greet : Client N → N.Conn → Call (Unit {0})
  greet c conn = do
    checked N (N.set_deadline conn c.timeout)
    checked N (N.write conn (hello c.sa1))
    head ← on_world N (read_full N conn 8)
    n ← lift (content_length head)
    content ← on_world N (read_full N conn n)
    learn content

  unfoldable pub handshake : Call (Unit {0})
  handshake = do c ← the_client; conn ← the_conn; greet c conn

  abbrev ensure : Option N.Conn → Call (Unit {0})
  ensure (some conn) s = (ok tt, s)
  ensure none s = (connect >>= λ _. handshake) s

  unfoldable pub ensure_conn : Call (Unit {0})
  ensure_conn s = ensure s.client.conn s

  -- What `Open` makes of the outcome of the handshake, and of dialing.
  abbrev greeted : Outcome (Unit {0}) × State N (Client N) → Outcome Result × State N (Client N)
  greeted (ok _, s) = (ok new_result, s)
  greeted (err e, s) = (ok (fail e new_result), close_locked s)
  greeted (panic, s) = (panic, s)

  abbrev dialed : Outcome (Unit {0}) × State N (Client N) → Outcome Result × State N (Client N)
  dialed (ok _, s) = greeted (handshake s)
  dialed (err e, s) = (ok (record (fail e new_result) { err_code = 408 }), s)
  dialed (panic, s) = (panic, s)

  unfoldable pub open_ : Call Result
  open_ s = dialed (connect (close_locked s))

  abbrev close_reported : Option N.Conn → Call Result
  close_reported none s = (ok new_result, s)
  close_reported (some conn) s =
      let (r, s') = report (λ e. fail e new_result) (checked N (N.close conn) s) in
      (r, set_conn none s')

  unfoldable pub close : Call Result
  close s = close_reported s.client.conn s

  abbrev is_some : Option N.Conn → Bool
  is_some none = false
  is_some (some _) = true

  unfoldable pub connected : Client N → Bool
  connected c = is_some c.conn
