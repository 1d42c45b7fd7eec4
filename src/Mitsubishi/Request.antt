-- ===== src/Mitsubishi/Request.antt =====
-- `readFull`, `sendRequestOnceLocked` and `sendRequest`.
pub mod Safety
pub mod Exchange
pub mod Stream
use go_iot_client.Base.{
  ℕ, zero, suc, ◌+◌, ◌-◌, ◌%◌, not, Option, none, some, List, [], ◌∷◌, ◌++◌, length, ltb, ◌==◌,
  if◌then◌else◌,
}
use go_iot_client.Base.Int.{ℤ}
use go_iot_client.Base.Outcome.{
  Error, net, Outcome, ok, err, panic, M, ◌>>=◌, ◌>>◌, lift, bind, failed_after, response_too_short,
  plc_end_code,
}
use go_iot_client.Base.Words.{little, put_uint16}
use go_iot_client.Base.Slices.{slice, word_at}
use go_iot_client.Retry.{attempts}
use go_iot_client.Net.{Net, Received, State, checked, on_world}
use go_iot_client.Mitsubishi.Client.{Client, Call, the_client, the_conn, reconnect_locked}

module _ (N : Net) (c : N.Conn) where
  -- The loop of `readFull`, with `missing` bytes still to come behind those in `got`. Unlike
  -- `io.ReadFull` it gives up on an error that comes with the last bytes. Where the fuel
  -- runs out the loop has not ended, and the call does not return.
  unfoldable pub full_loop : ℕ → ℕ → List ℕ → M N.World (List ℕ)
  full_loop fuel zero got w = (ok got, w)
  full_loop zero (suc missing) got w = (panic, w)
  full_loop (suc fuel) (suc missing) got w =
      let (r, w') = N.read c (suc missing) w in
      let more = full_loop fuel (suc missing - length r.bytes) (got ++ r.bytes) w' in
      elim r.error [ none ↦ more | some e ↦ (err (net e), w') ]

  unfoldable pub read_full : ℕ → M N.World (List ℕ)
  read_full n = full_loop n n []

-- The request frame: subheader, route, length, monitoring timer, command, subcommand, payload.
unfoldable pub request_frame : {N : Net} → Client N → ℕ → ℕ → List ℕ → List ℕ
request_frame c command subcommand payload =
    0x50
    ∷ 0x00
    ∷ c.network_no
    ∷ c.station_no
    ∷ (put_uint16 little c.module_io
        ++ (c.multidrop_station
            ∷ (put_uint16 little ((6 + length payload) % 65536)
                ++ (put_uint16 little c.monitoring_timer
                    ++ (put_uint16 little command ++ (put_uint16 little subcommand ++ payload))))))

-- The checks on the body of a response, which begins with the end code.
unfoldable pub body_data : List ℕ → Outcome (List ℕ)
body_data body =
    if ltb (length body) 2
    then err response_too_short
    else bind (word_at little body 0) (λ end_code.
      if not (end_code == 0) then err (plc_end_code end_code) else slice body 2 (length body))

module _ (N : Net) where
  -- The method on the connection `conn` of the client `c`.
  unfoldable pub exchange : Client N → N.Conn → ℕ → ℕ → List ℕ → ℤ → Call N (List ℕ)
  exchange c conn command subcommand payload timeout = do
    checked N (N.set_deadline conn timeout)
    checked N (N.write conn (request_frame c command subcommand payload))
    head ← on_world N (read_full N conn 9)
    response_length ← lift (word_at little head 7)
    body ← on_world N (read_full N conn response_length)
    lift (body_data body)

  abbrev ensure : Option N.Conn → Call N (Unit {0})
  ensure (some conn) s = (ok tt, s)
  ensure none s = reconnect_locked N s

  abbrev ensure_conn : Call N (Unit {0})
  ensure_conn s = ensure s.client.conn s

  unfoldable pub send_request_once : ℕ → ℕ → List ℕ → ℤ → Call N (List ℕ)
  send_request_once command subcommand payload timeout = do
    ensure_conn
    c ← the_client N
    conn ← the_conn N
    exchange c conn command subcommand payload timeout

  abbrev pub sleep : State N (Client N) → State N (Client N)
  sleep s = record s { world = N.sleep s.client.retry_delay s.world }

  -- What follows a failure: a new connection, or none if it cannot be had.
  abbrev pub reconnected : State N (Client N) → State N (Client N)
  reconnected s = (reconnect_locked N s).1

  unfoldable pub send_request : ℕ → ℕ → List ℕ → ℤ → Call N (List ℕ)
  send_request command subcommand payload timeout s =
      attempts reconnected sleep s.client.max_retries s.client.max_retries
        (send_request_once command subcommand payload timeout) s
