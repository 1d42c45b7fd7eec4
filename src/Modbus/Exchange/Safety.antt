-- ===== src/Modbus/Exchange/Safety.antt =====
-- A request returns, and in what state it leaves the client.
use go_iot_client.Base.{
  ℕ, ◌+◌, ◌%◌, ◌≡◌, ◌≢◌, ◌↔◌, Bool, true, false, none, some, List, arith, inl, inr, Option-cases,
}
use go_iot_client.Base.Int.{pos_part}
use go_iot_client.Base.Outcome.{
  Error, failed_after, Outcome, ok, err, panic, continue, Meets, continue-Meets, weaken-Meets,
}
use go_iot_client.Retry.{attempts}
use go_iot_client.Retry.Laws.{attempts-Meets}
use go_iot_client.Net.{Net, IsLawful, State}
use go_iot_client.Modbus.Client.{
  Client, WireMode, mode_tcp, mode_rtu_over_tcp, mode_rtu, mode_ascii, Call, ensure_conn,
  close_locked, connect, the_conn,
}
use go_iot_client.Modbus.Client.Invariant.{IsValid, dial_by-Meets, normalize_normal}
use go_iot_client.Net.Keeps.{Keeps}
use go_iot_client.Modbus.Frame.Safety.{
  send_tcp_frame-Keeps, send_rtu_frame-Keeps, send_ascii_frame-Keeps,
}
use go_iot_client.Modbus.Exchange.{
  set_deadline, send_frame, send_pdu_once, auto_close, returned, sleep, send_pdu,
}

-- A request changes the transaction id and the connection, and no other field; the client stays valid.
pub record Served {N : Net} (c c' : Client N) : Type 0 where
  pub valid : IsValid c'
  pub same_endpoint : c'.endpoint ≡ c.endpoint
  pub same_mode : c'.mode ≡ c.mode
  pub same_unit : c'.unit_id ≡ c.unit_id
  pub same_timeout : c'.timeout ≡ c.timeout
  pub same_retry : c'.retry ≡ c.retry
  pub same_auto_close : c'.auto_close ≡ c.auto_close
  pub same_dial : c'.dial ≡ c.dial
  pub same_serial_mode : c'.serial_mode ≡ c.serial_mode

-- The same with a connection.
abbrev Linked : {N : Net} → Client N → Client N → Type 0
Linked c c' = Served c c' × (c'.conn ≢ none)

module _ (N : Net) {B : Type 0} (s : State N (Client N)) (f : N.Conn → Call N B) where
  -- A use of `c.conn` where there is a connection.
  conn_then :
      (Q E : Client N → Type 0)
      → s.client.conn ≢ none
      → ((conn : N.Conn)
          → s.client.conn ≡ some conn
          → Meets (λ _ s'. Q s'.client) (λ _ s'. E s'.client) (f conn s))
      → Meets (λ _ s'. Q s'.client) (λ _ s'. E s'.client) (continue (the_conn N s) f)
  conn_then Q E h k = elim (Option-cases s.client.conn) [
    | inl p ↦ absurd (h p)
    | inr (conn, p) ↦ ground (arith, k conn p)
  ]

module _ (N : Net) (L : IsLawful N) (c : Client N) where
  next-Linked :
      (c' : Client N) → Linked c c' → Linked c (record c' { trans_id = (c'.trans_id + 1) % 65536 })
  next-Linked c' h = ground arith

  send_frame-Keeps :
      (mode : WireMode) (pdu : List ℕ) (conn : N.Conn) (s : State N (Client N))
      → s.client.conn ≡ some conn
      → Linked c s.client
      → Keeps (Linked c) (send_frame N mode pdu s)
  send_frame-Keeps mode_tcp pdu conn s p h =
      send_tcp_frame-Keeps N L (Linked c) pdu conn s p (next-Linked s.client h)
  send_frame-Keeps mode_rtu_over_tcp pdu conn s p h =
      send_rtu_frame-Keeps N L (Linked c) pdu conn s p h
  send_frame-Keeps mode_rtu pdu conn s p h = send_rtu_frame-Keeps N L (Linked c) pdu conn s p h
  send_frame-Keeps mode_ascii pdu conn s p h = send_ascii_frame-Keeps N L (Linked c) pdu conn s p h

  ensure_conn-Linked :
      (s : State N (Client N))
      → Served c s.client
      → Meets (λ _ s'. Linked c s'.client) (λ _ s'. Served c s'.client) (ensure_conn N s)
  unfolding ensure_conn connect
  ensure_conn-Linked s h = ground (arith, dial_by-Meets N L s.client.dial s.client s.world)

  set_deadline-Meets :
      (has : Bool) (conn : N.Conn) (s : State N (Client N))
      → s.client.conn ≡ some conn
      → Linked c s.client
      → Meets
          (λ _ s'. Linked c s'.client × (s'.client.conn ≡ some conn))
          (λ _ s'. Served c s'.client)
          (set_deadline N has conn s.client s)
  set_deadline-Meets true conn s p h = ground arith
  set_deadline-Meets false conn s p h = (h, p)

  deadline_then :
      (pdu : List ℕ) (conn : N.Conn) (s : State N (Client N))
      → s.client.conn ≡ some conn
      → Linked c s.client
      → Meets
          (λ _ s'. Linked c s'.client)
          (λ _ s'. Served c s'.client)
          (continue
            (set_deadline N (N.has_deadline conn) conn s.client s)
            (λ _. send_frame N s.client.mode pdu))
  deadline_then pdu conn s p h =
      continue-Meets (λ _ s'. Linked c s'.client × (s'.client.conn ≡ some conn)) _ _
        (set_deadline N (N.has_deadline conn) conn s.client s) _
        (set_deadline-Meets (N.has_deadline conn) conn s p h)
        λ _ s' h'.
          weaken-Meets (λ _ s''. Linked c s''.client) _ (λ _ s''. Linked c s''.client) _
            (send_frame N s.client.mode pdu s')
            (send_frame-Keeps s.client.mode pdu conn s' h'.1 h'.0) (λ _ _ g. g) (λ _ _ g. g.0)

  send_pdu_once-Linked :
      (pdu : List ℕ) (s : State N (Client N))
      → Served c s.client
      → Meets (λ _ s'. Linked c s'.client) (λ _ s'. Served c s'.client) (send_pdu_once N pdu s)
  unfolding send_pdu_once
  send_pdu_once-Linked pdu s h =
      continue-Meets (λ _ s'. Linked c s'.client) _ _ (ensure_conn N s) _ (ensure_conn-Linked s h)
        λ _ s' h'.
          conn_then N s' _ (Linked c) (Served c) h'.1 (λ conn p. deadline_then pdu conn s' p h')

  close_locked-Served :
      (s : State N (Client N))
      → Served c s.client
      → Served c (close_locked N s).client × ((close_locked N s).client.conn ≡ none)
  unfolding close_locked
  close_locked-Served s h = ground arith

  -- After a success there is a connection, unless the client closes it by itself.
  abbrev Done : State N (Client N) → Type 0
  Done s = Served c s.client × ((s.client.conn ≡ none) ↔ (c.auto_close ≡ true))

  auto_close-Done :
      (s : State N (Client N)) → Linked c s.client → Done (auto_close N s.client.auto_close s)
  auto_close-Done s h = ground (arith, close_locked-Served s h.0)

  returned-Done :
      (r : Outcome (List ℕ) × State N (Client N))
      → Meets (λ _ s'. Linked c s'.client) (λ _ s'. Served c s'.client) r
      → Meets (λ _ s'. Done s') (λ _ s'. Served c s'.client) (returned N r)
  returned-Done (ok out, s) h = auto_close-Done s h
  returned-Done (err e, s) h = h
  returned-Done (panic, s) h = h

  -- After an error there is no connection.
  abbrev Closed : State N (Client N) → Type 0
  Closed s = Served c s.client × (s.client.conn ≡ none)

  send_pdu-Done :
      (retries : ℕ) (pdu : List ℕ) (s : State N (Client N))
      → Served c s.client
      → Meets
          (λ _ s'. Done s')
          (λ e s'. Closed s' × ((last : Error) × (e ≡ failed_after (retries + 1) last)))
          (attempts
            (close_locked N)
            (sleep N)
            retries
            retries
            (λ s'. returned N (send_pdu_once N pdu s'))
            s)
  send_pdu-Done retries pdu s h =
      attempts-Meets (close_locked N) (sleep N) (λ s'. Served c s'.client)
        (λ s'. Served c s'.client) Closed (λ _ s'. Done s') close_locked-Served (λ s' g. g.0)
        retries retries (λ s'. returned N (send_pdu_once N pdu s'))
        (λ s' g. returned-Done (send_pdu_once N pdu s') (send_pdu_once-Linked pdu s' g)) s h

abbrev pub Request : {N : Net} → Client N → Outcome (List ℕ) × State N (Client N) → Type 0
Request {N} c r =
    Meets (λ _ s'. Served c s'.client × ((s'.client.conn ≡ none) ↔ (c.auto_close ≡ true)))
      (λ e s'.
        Served c s'.client
        × (s'.client.conn ≡ none)
        × ((last : Error) × (e ≡ failed_after (pos_part c.retry.max_retries + 1) last)))
      r

-- On every connection that meets the documentation, a request on a valid client returns: it
-- does not panic, and no read goes on for ever. A success
-- leaves a connection unless the client closes it by itself, and an error leaves none and says after
-- how many attempts it gave up. No setting changes, and the client stays valid.
pub send_pdu-Request :
    (N : Net) (L : IsLawful N) (pdu : List ℕ) (s : State N (Client N))
    → IsValid s.client
    → Request s.client (send_pdu N pdu s)
unfolding send_pdu
send_pdu-Request N L pdu s v = rw (normalize_normal s.client.retry v.normal) (
    weaken-Meets (λ _ s'. Done N L s.client s') _ _ _
      (attempts (close_locked N) (sleep N) retries retries
        (λ s'. returned N (send_pdu_once N pdu s')) s)
      (send_pdu-Done N L s.client retries pdu s (ground arith)) (λ _ _ h. h)
      (λ _ _ h. (h.0.0, h.0.1, h.1)))
  where
    retries : ℕ
    retries = pos_part s.client.retry.max_retries
