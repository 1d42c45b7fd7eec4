-- ===== src/Mitsubishi/Request/Safety.antt =====
-- A request returns, whatever the connection does and the PLC sends.
use go_iot_client.Base.{
  ℕ, zero, suc, ◌+◌, ◌-◌, ◌≤◌, ◌≡◌, ◌≢◌, refl, inl, inr, none, List, [], ◌++◌, length,
  length-append, Option-cases, arith,
}
use go_iot_client.Base.Int.{ℤ}
use go_iot_client.Base.Words.{little, uint16}
use go_iot_client.Base.Slices.{nth, word_at-nth, slice-take}
use go_iot_client.Base.Outcome.{
  NetError, Error, net, failed_after, Outcome, continue, NoPanic, Meets, continue-Meets,
  weaken-Meets,
}
use go_iot_client.Retry.Laws.{attempts-Meets}
use go_iot_client.Net.{Net, IsLawful, State}
use go_iot_client.Net.Keeps.{Keeps, lift-Keeps, checked_then, world_then}
use go_iot_client.Mitsubishi.Client.{
  Client, Call, the_conn, dial_locked, drop_conn, reconnect_locked,
}
use go_iot_client.Text.{itoa}
use go_iot_client.Mitsubishi.Client.Address.{join_host_port}
use go_iot_client.Mitsubishi.Request.{
  full_loop, read_full, request_frame, body_data, exchange, ensure_conn, send_request_once,
  reconnected, sleep, send_request,
}

-- The buffer is filled, or the read ends with an error of the connection.
abbrev Filled : {W : Type 0} → ℕ → Outcome (List ℕ) × W → Type 0
Filled n r = Meets (λ xs _. length xs ≡ n) (λ e _. (x : NetError) × (e ≡ net x)) r

module _ (N : Net) (L : IsLawful N) (conn : N.Conn) where
  full_loop-Filled :
      (fuel missing : ℕ) (got : List ℕ) (w : N.World) (n : ℕ)
      → missing ≤ fuel
      → length got + missing ≡ n
      → Filled n (full_loop N conn fuel missing got w)
  unfolding full_loop
  full_loop-Filled fuel zero got w n h e = omega arith
  full_loop-Filled zero (suc missing) got w n h e = absurd (omega arith)
  full_loop-Filled (suc fuel) (suc missing) got w n h e =
      elim (Option-cases (N.read conn (suc missing) w).0.error) [
        | inl p ↦ ground (
          arith,
          full_loop-Filled fuel (suc missing - length bytes) (got ++ bytes) w' n
              (omega (arith, L.read-progress conn (suc missing) w (omega arith) p))
              (omega (arith, length-append got bytes, L.read-fits conn (suc missing) w)),
        )
        | inr (x, p) ↦ rw (full_loop, p) (x, refl)
      ]
    where
      bytes : List ℕ
      bytes = (N.read conn (suc missing) w).0.bytes

      w' : N.World
      w' = (N.read conn (suc missing) w).1

  -- On every connection that meets the documentation, `readFull` ends within one round for each byte:
  -- with a full buffer, or with an error of the connection.
  pub read_full-Filled : (n : ℕ) (w : N.World) → Filled n (read_full N conn n w)
  unfolding read_full
  read_full-Filled n w = full_loop-Filled n n [] w n (omega arith) (omega arith)

  reads :
      (n : ℕ) (w : N.World) → Meets (λ xs _. length xs ≡ n) (λ _ _. Unit {0}) (read_full N conn n w)
  reads n w =
      weaken-Meets (λ xs _. length xs ≡ n) _ (λ e _. (x : NetError) × (e ≡ net x)) _
        (read_full N conn n w) (read_full-Filled n w) (λ _ _ h. h) (λ _ _ _. tt)

pub body_data-NoPanic : (body : List ℕ) → NoPanic (body_data body)
unfolding body_data
body_data-NoPanic body = ground (arith, word_at-nth little body 0, slice-take body 2 (length body))

-- The client with another connection: what a request leaves of it.
abbrev pub SameSettings : {N : Net} → Client N → Client N → Type 0
SameSettings c c' = record c' { conn = none } ≡ record c { conn = none }

module _ (N : Net) (L : IsLawful N) (P : Client N → Type 0) where
  exchange-Keeps :
      (c : Client N) (conn : N.Conn) (command subcommand : ℕ) (payload : List ℕ) (timeout : ℤ)
      (s : State N (Client N))
      → P s.client
      → Keeps P (exchange N c conn command subcommand payload timeout s)
  unfolding exchange
  exchange-Keeps c conn command subcommand payload timeout s h =
      checked_then N P s h (N.set_deadline conn timeout) _ λ s₁ h₁.
        checked_then N P s₁ h₁ (N.write conn (request_frame c command subcommand payload)) _
          λ s₂ h₂.
            world_then N P s₂ h₂ (λ xs. length xs ≡ 9) (read_full N conn 9) _
              (reads N L conn 9 s₂.world)
              λ head s₃ e h₃.
                let n = uint16 little (nth head 7) (nth head 8) in
                rw (word_at-nth little head 7 (omega arith)) (
                  world_then N P s₃ h₃ (λ xs. length xs ≡ n) (read_full N conn n) _
                    (reads N L conn n s₃.world)
                    λ body s₄ _ h₄. lift-Keeps N P s₄ h₄ (body_data body) (body_data-NoPanic body))

module _ (N : Net) (L : IsLawful N) (c : Client N) where
  -- The same settings, and a connection or none.
  abbrev Linked : Client N → Type 0
  Linked c' = SameSettings c c' × (c'.conn ≢ none)

  dial_locked-Returns :
      (c' : Client N) (w : N.World) → Meets (λ _ _. Unit {0}) (λ _ _. Unit {0}) (dial_locked N c' w)
  unfolding dial_locked
  dial_locked-Returns c' w =
      ground (arith, L.dial-returns (join_host_port c'.ip (itoa c'.port)) c'.timeout w)

  drop_conn-Drops :
      (s : State N (Client N))
      → SameSettings c s.client
      → SameSettings c (drop_conn N s).client × ((drop_conn N s).client.conn ≡ none)
  unfolding drop_conn
  drop_conn-Drops s h = ground arith

  -- A connection after a success, none after an error.
  pub reconnect_locked-Meets :
      (s : State N (Client N))
      → SameSettings c s.client
      → Meets
          (λ _ s'. Linked s'.client)
          (λ _ s'. SameSettings c s'.client × (s'.client.conn ≡ none))
          (reconnect_locked N s)
  unfolding reconnect_locked
  reconnect_locked-Meets s h =
      ground (
        arith,
        drop_conn-Drops s h,
        dial_locked-Returns (drop_conn N s).client (drop_conn N s).world,
      )

  ensure_conn-Meets :
      (s : State N (Client N))
      → SameSettings c s.client
      → Meets (λ _ s'. Linked s'.client) (λ _ s'. SameSettings c s'.client) (ensure_conn N s)
  ensure_conn-Meets s h = ground (arith, reconnect_locked-Meets s h)

  conn_then :
      (s : State N (Client N)) (f : N.Conn → Call N (List ℕ))
      → Linked s.client
      → ((conn : N.Conn) → Keeps Linked (f conn s))
      → Keeps Linked (continue (the_conn N s) f)
  conn_then s f h k = elim (Option-cases s.client.conn) [
    | inl p ↦ absurd (h.1 p)
    | inr (conn, p) ↦ ground (arith, k conn)
  ]

  send_request_once-Meets :
      (command subcommand : ℕ) (payload : List ℕ) (timeout : ℤ) (s : State N (Client N))
      → SameSettings c s.client
      → Meets
          (λ _ s'. Linked s'.client)
          (λ _ s'. SameSettings c s'.client)
          (send_request_once N command subcommand payload timeout s)
  unfolding send_request_once
  send_request_once-Meets command subcommand payload timeout s h =
      continue-Meets (λ _ s'. Linked s'.client) _ _ (ensure_conn N s) _ (ensure_conn-Meets s h)
        λ _ s' h'.
          weaken-Meets (λ _ s''. Linked s''.client) _ (λ _ s''. Linked s''.client) _
            (continue (the_conn N s')
              (λ conn. exchange N s'.client conn command subcommand payload timeout))
            (conn_then s' _ h' λ conn.
              exchange-Keeps N L Linked s'.client conn command subcommand payload timeout s' h')
            (λ _ _ g. g) (λ _ _ g. g.0)

-- On every connection that meets the documentation, whatever the PLC sends, a request returns: it does not
-- panic, and `readFull` does not go on for ever. A
-- success leaves a connection, and an error says after how many attempts the client gave up. Of the
-- client's fields only the connection changes.
pub send_request-Meets :
    (N : Net) (L : IsLawful N) (s : State N (Client N))
    → (command subcommand : ℕ) (payload : List ℕ) (timeout : ℤ)
    → Meets
        (λ _ s'. SameSettings s.client s'.client × (s'.client.conn ≢ none))
        (λ e s'.
          SameSettings s.client s'.client
          × ((last : Error) × (e ≡ failed_after (s.client.max_retries + 1) last)))
        (send_request N command subcommand payload timeout s)
unfolding send_request
send_request-Meets N L s command subcommand payload timeout =
    attempts-Meets (reconnected N) (sleep N) (λ s'. SameSettings s.client s'.client)
      (λ s'. SameSettings s.client s'.client) (λ s'. SameSettings s.client s'.client)
      (λ _ s'. SameSettings s.client s'.client × (s'.client.conn ≢ none))
      (λ s' h. ground (arith, reconnect_locked-Meets N L s.client s' h)) (λ s' h. h)
      s.client.max_retries s.client.max_retries
      (send_request_once N command subcommand payload timeout)
      (send_request_once-Meets N L s.client command subcommand payload timeout) s refl
