-- ===== src/Modbus/Client/Invariant.antt =====
-- What holds of a client after its constructor, and after every setter and method.
use go_iot_client.Base.{ℕ, ◌<◌, ◌≡◌, ◌≢◌, ◌↔◌, true, false, Option, none, some, List, arith}
use go_iot_client.Base.Int.{ℤ, is_positive, is_negative}
use go_iot_client.Base.Outcome.{Meets}
use go_iot_client.Core.{RetryPolicy, normalize}
use go_iot_client.Net.{Net, IsLawful, SerialMode, State}
use go_iot_client.Modbus.Client.{
  Client, Dialer, tcp_dial, serial_dial, new_tcp_client, new_rtu_over_tcp_client, new_rtu_client,
  new_ascii_client, set_unit_id, set_timeout, set_retry_policy, set_serial_mode, dial_by,
  close_locked, ensure_conn, open_, close,
}

-- A policy that `Normalize` leaves alone.
pub record IsNormal (p : RetryPolicy) : Type 0 where
  pub no_negative : is_negative p.max_retries ≡ false
  pub delays : is_positive p.retry_delay ≡ true

pub record IsValid {N : Net} (c : Client N) : Type 0 where
  pub unit_used : (0 < c.unit_id) × (c.unit_id < 256)
  pub waits : is_positive c.timeout ≡ true
  pub normal : IsNormal c.retry
  pub trans_id_word : c.trans_id < 65536

pub normalize-IsNormal : (p : RetryPolicy) → IsNormal (normalize p)
unfolding normalize
normalize-IsNormal p = ground arith

pub normalize_normal : (p : RetryPolicy) → IsNormal p → normalize p ≡ p
unfolding normalize
normalize_normal p h = ground arith

module _ (N : Net) where
  -- What each of the four constructors makes is a valid client.
  pub constructors-IsValid :
      (endpoint : List ℕ)
      → IsValid (new_tcp_client N endpoint)
        × IsValid (new_rtu_over_tcp_client N endpoint)
        × IsValid (new_rtu_client N endpoint)
        × IsValid (new_ascii_client N endpoint)
  unfolding new_tcp_client new_rtu_over_tcp_client new_rtu_client new_ascii_client normalize
  constructors-IsValid endpoint = ground arith

  -- The setters keep a valid client valid, whatever timeout, policy and serial mode they get and with
  -- any byte for the unit.
  pub setters-IsValid :
      (c : Client N)
      → IsValid c
      → (unit_id : ℕ) (timeout : ℤ) (policy : RetryPolicy) (mode : SerialMode) → unit_id < 256
      → IsValid (set_unit_id N unit_id c)
        × IsValid (set_timeout N timeout c)
        × IsValid (set_retry_policy N policy c)
        × IsValid (set_serial_mode N mode c)
  unfolding set_unit_id set_timeout set_retry_policy set_serial_mode normalize
  setters-IsValid c v unit_id timeout policy mode h = ground arith

  -- The conditions under which a method works on the connection.
  abbrev pub Ready : State N (Client N) → Type 0
  Ready s = IsValid s.client × (s.client.conn ≢ none)

  pub dial_by-Meets :
      IsLawful N
      → (d : Option Dialer) (c : Client N) (w : N.World)
      → Meets (λ _ _. Unit {0}) (λ _ _. Unit {0}) (dial_by N d c w)
  unfolding dial_by
  dial_by-Meets L none c w = ground (arith, L.dial-returns c.endpoint c.timeout w)
  dial_by-Meets L (some tcp_dial) c w = ground (arith, L.dial-returns c.endpoint c.timeout w)
  dial_by-Meets L (some serial_dial) c w =
      ground (arith, L.serial-returns c.endpoint c.serial_mode w)

  pub ensure_conn-Meets :
      IsLawful N
      → (s : State N (Client N)) → IsValid s.client
      → Meets (λ _ s'. Ready s') (λ _ s'. IsValid s'.client) (ensure_conn N s)
  unfolding ensure_conn
  ensure_conn-Meets L s v = ground (arith, dial_by-Meets L s.client.dial s.client s.world)

  -- On every connection that meets the documentation, `Open` of a valid client returns and leaves the
  -- client valid. It reports success exactly when it leaves a connection, and the code 408 exactly when
  -- it leaves none.
  pub open-Meets :
      IsLawful N
      → (s : State N (Client N)) → IsValid s.client
      → Meets
          (λ r s'.
            IsValid s'.client
            × ((r.is_succeed ≡ true) ↔ (s'.client.conn ≢ none))
            × ((r.err_code ≡ 408) ↔ (s'.client.conn ≡ none)))
          (λ _ _. ⊥)
          (open_ N s)
  unfolding open_
  open-Meets L s v = ground (
    arith,
    dial_by-Meets L (close_locked N s).client.dial (close_locked N s).client
        (close_locked N s).world,
  )

  -- `Close` of a valid client returns, leaves the client valid and leaves no connection, also where
  -- the connection's own `Close` failed.
  pub close-Meets :
      (s : State N (Client N))
      → IsValid s.client
      → Meets (λ r s'. IsValid s'.client × (s'.client.conn ≡ none)) (λ _ _. ⊥) (close N s)
  unfolding close
  close-Meets s v = ground arith
