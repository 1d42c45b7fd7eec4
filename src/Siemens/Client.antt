-- ===== src/Siemens/Client.antt =====
-- The client's fields, its constructor and setters, its connection, and `withRetry`.
pub mod Invariant
use go_iot_client.Base.{ℕ, Bool, true, false, ◌&&◌, Option, none, some, List, if◌then◌else◌}
use go_iot_client.Base.Int.{ℤ, pos, pos_part, is_positive, is_negative}
use go_iot_client.Base.Outcome.{NetError, Error, net, Outcome, ok, err, panic, M}
use go_iot_client.Core.{Result, RetryPolicy, normalize, new_result, fail, default_delay}
use go_iot_client.Core.Report.{report}
use go_iot_client.Retry.{attempts}
use go_iot_client.Siemens.Gos7.{Gos7}

-- `SiemensClient`. The mutex is left out: a call holds it from its first use of a field to its last. The
-- field `client` is gos7's client on a handler, named here by that handler.
pub record Client (G : Gos7) : Type 0 where
  pub endpoint : List ℕ
  pub rack : ℤ
  pub slot : ℤ
  pub timeout : ℤ
  pub retry : RetryPolicy
  pub handler : Option G.Handler
  pub client : Option G.Handler
  pub is_connected : Bool

-- The state of a call: the client's fields, the world, and the buffer `buf` of the method.
pub record State (G : Gos7) : Type 0 where
  pub self : Client G
  pub world : G.World
  pub buf : List ℕ

module _ (G : Gos7) where
  unfoldable pub new_siemens_client : List ℕ → Client G
  new_siemens_client endpoint = record {
    endpoint = endpoint;
    rack = pos 0;
    slot = pos 0;
    timeout = pos 1_500_000_000;
    retry = normalize (record { max_retries = pos 2; retry_delay = default_delay });
    handler = none;
    client = none;
    is_connected = false;
  }

  unfoldable pub set_rack_slot : ℤ → ℤ → Client G → Client G
  set_rack_slot rack slot c = record c {
    rack = if is_negative rack then c.rack else rack;
    slot = if is_negative slot then c.slot else slot;
  }

  unfoldable pub set_timeout : ℤ → Client G → Client G
  set_timeout timeout c = if is_positive timeout then record c { timeout = timeout } else c

  unfoldable pub set_retry_policy : RetryPolicy → Client G → Client G
  set_retry_policy policy c = record c { retry = normalize policy }

  -- A method: it works on the client, the world and its buffer.
  abbrev pub Call {ℓ} : Type ℓ → Type ℓ
  Call A = M (State G) A

  -- `c.handler = nil; c.client = nil; c.connected = false`
  abbrev pub cleared : State G → State G
  cleared s = record s {
    self = record s.self { handler = none; client = none; is_connected = false };
  }

  abbrev close_handler : Option G.Handler → State G → State G
  close_handler none s = cleared s
  close_handler (some h) s = cleared (record s { world = (G.close h s.world).1 })

  unfoldable pub close_locked : State G → State G
  close_locked s = close_handler s.self.handler s

  abbrev pub connected_by : State G → Outcome G.Handler × G.World → Outcome (Unit {0}) × State G
  connected_by s (ok h, w) = (
    ok tt,
    record s {
      self = record s.self { handler = some h; client = some h; is_connected = true };
      world = w;
    },
  )
  connected_by s (err e, w) = (err e, record s { world = w })
  connected_by s (panic, w) = (panic, record s { world = w })

  abbrev connect : Call (Unit {0})
  connect s =
      connected_by s (G.connect s.self.endpoint s.self.rack s.self.slot s.self.timeout s.world)

  unfoldable pub open_locked : Call (Unit {0})
  open_locked s = connect (close_locked s)

  abbrev is_some : Option G.Handler → Bool
  is_some none = false
  is_some (some _) = true

  unfoldable pub ensure_connected : Call (Unit {0})
  ensure_connected s =
      if s.self.is_connected && is_some s.self.client && is_some s.self.handler
      then (ok tt, s)
      else open_locked s

  -- One round of `withRetry`: `op` is called if there is a connection.
  abbrev pub then_op : Call (Unit {0}) → Outcome (Unit {0}) × State G → Outcome (Unit {0}) × State G
  then_op op (ok _, s) = op s
  then_op op (err e, s) = (err e, s)
  then_op op (panic, s) = (panic, s)

  unfoldable pub once : Call (Unit {0}) → Call (Unit {0})
  once op s = then_op op (ensure_connected s)

  abbrev pub sleep : State G → State G
  sleep s = record s { world = G.sleep (normalize s.self.retry).retry_delay s.world }

  unfoldable pub with_retry : Call (Unit {0}) → Call (Unit {0})
  with_retry op s =
      let retries = pos_part (normalize s.self.retry).max_retries in
      attempts close_locked sleep retries retries (once op) s

  unfoldable pub open_ : Call Result
  open_ s = report (λ e. record (fail e new_result) { err_code = 408 }) (open_locked s)

  abbrev net_reported : State G → Option NetError × G.World → Outcome Result × State G
  net_reported s (none, w) = (ok new_result, record s { world = w })
  net_reported s (some e, w) = (ok (fail (net e) new_result), record s { world = w })

  abbrev close_reported : Option G.Handler → Call Result
  close_reported none s = (ok new_result, s)
  close_reported (some h) s = net_reported s (G.close h s.world)

  unfoldable pub close : Call Result
  close s = let (r, s') = close_reported s.self.handler s in (r, cleared s')

  unfoldable pub connected : Client G → Bool
  connected c = c.is_connected
