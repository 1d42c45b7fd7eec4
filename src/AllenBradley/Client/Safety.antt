-- ===== src/AllenBradley/Client/Safety.antt =====
-- The connection and the registration return, whatever the connection does and the controller sends.
use go_iot_client.Base.{
  ℕ, ◌≡◌, ◌≢◌, ◌↔◌, refl, inl, inr, true, Option, none, some, length, Option-cases, arith,
}
use go_iot_client.Base.Words.{little}
use go_iot_client.Base.Slices.{dword_at, dword_at-NoPanic}
use go_iot_client.Base.Outcome.{
  Error, Outcome, ok, err, panic, lift, continue, NoPanic, Meets, continue-Meets, weaken-Meets,
}
use go_iot_client.Core.{Result}
use go_iot_client.Net.{Net, IsLawful, State, checked, on_world}
use go_iot_client.Net.Full.{read_full}
use go_iot_client.Net.Full.Laws.{read_full-Meets}
use go_iot_client.AllenBradley.Client.{
  Client, Call, register_session, the_conn, drop_conn, close_locked, connect, accept, register,
  register_session_locked, ensure, ensure_conn, registered, dialed, open_, close,
}

-- The same settings: a call changes the connection and the session, and no other field.
abbrev pub Same : {N : Net} → Client N → Client N → Type 0
Same c c' = record c' { conn = none; session = 0 } ≡ record c { conn = none; session = 0 }

-- A connected client has a session.
abbrev pub IsRegistered : {N : Net} → Client N → Type 0
IsRegistered c = c.conn ≢ none → c.session ≢ 0

-- The same settings, with a connection and a session.
abbrev pub Linked : {N : Net} → Client N → Client N → Type 0
Linked c c' = Same c c' × (c'.conn ≢ none) × (c'.session ≢ 0)

module _ (N : Net) (L : IsLawful N) (c : Client N) where
  abbrev Opened : Client N → Type 0
  Opened c' = Same c c' × (c'.conn ≢ none)

  accept-Linked :
      (session : ℕ) (s : State N (Client N))
      → Opened s.client
      → Meets (λ _ s'. Linked c s'.client) (λ _ s'. Same c s'.client) (accept N session s)
  unfolding accept
  accept-Linked session s h = ground arith

  session_then :
      (s : State N (Client N)) (r : Outcome ℕ)
      → Opened s.client
      → NoPanic r
      → Meets
          (λ _ s'. Linked c s'.client)
          (λ _ s'. Same c s'.client)
          (continue (lift r s) (accept N))
  session_then s (ok session) h p = accept-Linked session s h
  session_then s (err e) h p = h.0
  session_then s panic h p = p

  -- The calls before the session is stored keep the connection.
  register-Linked :
      (c' : Client N) (conn : N.Conn) (s : State N (Client N))
      → Opened s.client
      → Meets (λ _ s'. Linked c s'.client) (λ _ s'. Same c s'.client) (register N c' conn s)
  unfolding register
  register-Linked c' conn s h =
      continue-Meets (λ _ s₁. Opened s₁.client) _ _ (checked N (N.set_deadline conn c'.timeout) s) _
        (ground arith)
        λ _ s₁ h₁.
          continue-Meets (λ _ s₂. Opened s₂.client) _ _
            (checked N (N.write conn register_session) s₁) _ (ground arith)
            λ _ s₂ h₂.
              continue-Meets (λ resp s₃. (length resp ≡ 28) × Opened s₃.client) _ _
                (on_world N (read_full N conn 28) s₂) _
                (ground (arith, read_full-Meets N L conn 28 s₂.world))
                λ resp s₃ h₃.
                  session_then s₃ (dword_at little resp 4) h₃.1
                    (dword_at-NoPanic little resp 4 (omega arith))

  -- A use of `c.conn` where there is a connection.
  pub conn_then :
      {B : Type 0} (s : State N (Client N)) (f : N.Conn → Call N B)
      (Q : B → State N (Client N) → Type 0) (E : Error → State N (Client N) → Type 0)
      → s.client.conn ≢ none
      → ((conn : N.Conn) → Meets Q E (f conn s))
      → Meets Q E (continue (the_conn N s) f)
  conn_then s f Q E h k = elim (Option-cases s.client.conn) [
    | inl p ↦ absurd (h p)
    | inr (conn, p) ↦ ground (arith, k conn)
  ]

  register_session_locked-Linked :
      (s : State N (Client N))
      → Opened s.client
      → Meets (λ _ s'. Linked c s'.client) (λ _ s'. Same c s'.client) (register_session_locked N s)
  unfolding register_session_locked
  register_session_locked-Linked s h =
      conn_then s _ _ _ h.1 (λ conn. register-Linked s.client conn s h)

  drop_conn-Same :
      (s : State N (Client N))
      → Same c s.client
      → Same c (drop_conn N s).client × ((drop_conn N s).client.conn ≡ none)
  unfolding drop_conn
  drop_conn-Same s h = ground arith

  pub close_locked-Same :
      (s : State N (Client N))
      → Same c s.client
      → Same c (close_locked N s).client × ((close_locked N s).client.conn ≡ none)
  unfolding close_locked
  close_locked-Same s h = ground arith

  connect-Opened :
      (s : State N (Client N))
      → Same c s.client
      → s.client.conn ≡ none
      → Meets
          (λ _ s'. Opened s'.client)
          (λ _ s'. Same c s'.client × (s'.client.conn ≡ none))
          (connect N s)
  unfolding connect
  connect-Opened s h p = ground (arith, L.dial-returns s.client.endpoint s.client.timeout s.world)

  -- Before an attempt: the same settings, and a session if there is a connection.
  abbrev pub Ready : Client N → Type 0
  Ready c' = Same c c' × IsRegistered c'

  ensure-Linked :
      (o : Option N.Conn) (s : State N (Client N))
      → s.client.conn ≡ o
      → Ready s.client
      → Meets (λ _ s'. Linked c s'.client) (λ _ s'. Same c s'.client) (ensure N o s)
  ensure-Linked (some conn) s p h =
      let is : s.client.conn ≢ none = (ground arith) in (h.0, is, h.1 is)
  ensure-Linked none s p h =
      continue-Meets (λ _ s'. Opened s'.client) _ (λ _ s'. Same c s'.client) (connect N s)
        (λ _. register_session_locked N)
        (weaken-Meets (λ _ s'. Opened s'.client) _
          (λ _ s'. Same c s'.client × (s'.client.conn ≡ none)) _ (connect N s)
          (connect-Opened s h.0 p) (λ _ _ g. g) (λ _ _ g. g.0))
        (λ _ s' h'. register_session_locked-Linked s' h')

  pub ensure_conn-Linked :
      (s : State N (Client N))
      → Ready s.client
      → Meets (λ _ s'. Linked c s'.client) (λ _ s'. Same c s'.client) (ensure_conn N s)
  unfolding ensure_conn
  ensure_conn-Linked s h = ensure-Linked s.client.conn s refl h

  abbrev Open : Result → State N (Client N) → Type 0
  Open r s = Ready s.client × ((r.is_succeed ≡ true) ↔ (s.client.conn ≢ none))

  registered-Meets :
      (r : Outcome (Unit {0}) × State N (Client N))
      → Meets (λ _ s'. Linked c s'.client) (λ _ s'. Same c s'.client) r
      → Meets Open (λ _ _. ⊥) (registered N r)
  registered-Meets (ok _, s) h = ground arith
  registered-Meets (err e, s) h = ground (arith, drop_conn-Same s h)
  registered-Meets (panic, s) h = h

  dialed-Meets :
      (r : Outcome (Unit {0}) × State N (Client N))
      → Meets (λ _ s'. Opened s'.client) (λ _ s'. Same c s'.client × (s'.client.conn ≡ none)) r
      → Meets Open (λ _ _. ⊥) (dialed N r)
  dialed-Meets (ok _, s) h =
      registered-Meets (register_session_locked N s) (register_session_locked-Linked s h)
  dialed-Meets (err e, s) h = ground arith
  dialed-Meets (panic, s) h = h

-- On every connection that meets the documentation, whatever the controller sends, `Open` returns. It
-- reports success exactly when it leaves a connection, a connection that it leaves has a session that is
-- not 0, and no field changes but the connection and the session.
pub allen_open-Meets :
    (N : Net) (L : IsLawful N) (s : State N (Client N))
    → Meets
        (λ r s'.
          (Same s.client s'.client × IsRegistered s'.client)
          × ((r.is_succeed ≡ true) ↔ (s'.client.conn ≢ none)))
        (λ _ _. ⊥)
        (open_ N s)
unfolding open_
allen_open-Meets N L s =
    let (same, closed) = drop_conn-Same N L s.client s refl in
    dialed-Meets N L s.client (connect N (drop_conn N s))
      (connect-Opened N L s.client (drop_conn N s) same closed)

module _ (N : Net) where
  pub close-IsRegistered :
      (s : State N (Client N))
      → Meets (λ _ s'. (s'.client.conn ≡ none) × (s'.client.session ≡ 0)) (λ _ _. ⊥) (close N s)
  unfolding close
  close-IsRegistered s = ground arith
