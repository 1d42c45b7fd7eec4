-- ===== src/Omron/Client/Safety.antt =====
-- The connection and the handshake return, whatever the connection does and the PLC sends.
use go_iot_client.Base.{
  ℕ, ◌≡◌, ◌≢◌, ◌↔◌, refl, inl, inr, true, Option, none, some, List, length, Option-cases, arith,
}
use go_iot_client.Base.Words.{big}
use go_iot_client.Base.Slices.{index-nth, slice-take, dword_at-NoPanic}
use go_iot_client.Base.Outcome.{
  Outcome, ok, err, panic, lift, continue, NoPanic, Meets, continue-Meets, weaken-Meets,
}
use go_iot_client.Net.{Net, IsLawful, State, on_world}
use go_iot_client.Net.Keeps.{Keeps, checked_then, world_then}
use go_iot_client.Net.Full.{read_full}
use go_iot_client.Net.Full.Laws.{read_full-Meets}
use go_iot_client.Omron.Client.{
  Client, Call, content_length, hello, the_conn, close_locked, connect, learn, greet, handshake,
  ensure_conn, open_, ensure, greeted, dialed,
}

-- The same settings: a call changes the connection and the PLC's node number, and no other field.
abbrev pub Same : {N : Net} → Client N → Client N → Type 0
Same c c' = record c' { conn = none; da1 = 0 } ≡ record c { conn = none; da1 = 0 }

-- The same with a connection.
abbrev pub Linked : {N : Net} → Client N → Client N → Type 0
Linked c c' = Same c c' × (c'.conn ≢ none)

pub content_length-NoPanic : (head : List ℕ) → length head ≡ 8 → NoPanic (content_length head)
unfolding content_length
content_length-NoPanic head e =
    ground (arith, slice-take head 0 4, dword_at-NoPanic big head 4 (omega arith))

module _ (N : Net) (L : IsLawful N) (c : Client N) where
  learn-Linked :
      (content : List ℕ) (s : State N (Client N))
      → Linked c s.client
      → Keeps (Linked c) (learn N content s)
  unfolding learn
  learn-Linked content s h = ground (arith, index-nth content 15)

  content_then :
      (conn : N.Conn) (s : State N (Client N)) (r : Outcome ℕ) (f : ℕ → List ℕ → Call N (Unit {0}))
      → Linked c s.client
      → NoPanic r
      → ((n : ℕ) (content : List ℕ) (s' : State N (Client N))
          → Linked c s'.client
          → Keeps (Linked c) (f n content s'))
      → Keeps
          (Linked c)
          (continue (lift r s) (λ n s'. continue (on_world N (read_full N conn n) s') (f n)))
  content_then conn s (ok n) f h p k =
      world_then N (Linked c) s h (λ xs. length xs ≡ n) (read_full N conn n) (f n)
        (read_full-Meets N L conn n s.world) (λ content s' _ h'. k n content s' h')
  content_then conn s (err e) f h p k = h
  content_then conn s panic f h p k = p

  greet-Linked :
      (c' : Client N) (conn : N.Conn) (s : State N (Client N))
      → Linked c s.client
      → Keeps (Linked c) (greet N c' conn s)
  unfolding greet
  greet-Linked c' conn s h =
      checked_then N (Linked c) s h (N.set_deadline conn c'.timeout) _ λ s₁ h₁.
        checked_then N (Linked c) s₁ h₁ (N.write conn (hello c'.sa1)) _ λ s₂ h₂.
          world_then N (Linked c) s₂ h₂ (λ xs. length xs ≡ 8) (read_full N conn 8) _
            (read_full-Meets N L conn 8 s₂.world)
            λ head s₃ e h₃.
              content_then conn s₃ (content_length head) (λ n content. learn N content) h₃
                (content_length-NoPanic head e) (λ n content s₄ h₄. learn-Linked content s₄ h₄)

  -- A use of `c.conn` where there is a connection.
  pub conn_then :
      {B : Type 0} (s : State N (Client N)) (f : N.Conn → Call N B)
      → Linked c s.client
      → ((conn : N.Conn) → Keeps (Linked c) (f conn s))
      → Keeps (Linked c) (continue (the_conn N s) f)
  conn_then s f h k = elim (Option-cases s.client.conn) [
    | inl p ↦ absurd (h.1 p)
    | inr (conn, p) ↦ ground (arith, k conn)
  ]

  handshake-Linked : (s : State N (Client N)) → Linked c s.client → Keeps (Linked c) (handshake N s)
  unfolding handshake
  handshake-Linked s h = conn_then s _ h (λ conn. greet-Linked s.client conn s h)

  pub close_locked-Same :
      (s : State N (Client N))
      → Same c s.client
      → Same c (close_locked N s).client × ((close_locked N s).client.conn ≡ none)
  unfolding close_locked
  close_locked-Same s h = ground arith

  connect-Linked :
      (s : State N (Client N))
      → Same c s.client
      → s.client.conn ≡ none
      → Meets
          (λ _ s'. Linked c s'.client)
          (λ _ s'. Same c s'.client × (s'.client.conn ≡ none))
          (connect N s)
  unfolding connect
  connect-Linked s h p = ground (arith, L.dial-returns s.client.endpoint s.client.timeout s.world)

  ensure-Linked :
      (o : Option N.Conn) (s : State N (Client N))
      → s.client.conn ≡ o
      → Same c s.client
      → Meets (λ _ s'. Linked c s'.client) (λ _ s'. Same c s'.client) (ensure N o s)
  ensure-Linked (some conn) s p h = ground arith
  ensure-Linked none s p h =
      continue-Meets (λ _ s'. Linked c s'.client) _ (λ _ s'. Same c s'.client) (connect N s)
        (λ _. handshake N)
        (weaken-Meets (λ _ s'. Linked c s'.client) _
          (λ _ s'. Same c s'.client × (s'.client.conn ≡ none)) _ (connect N s)
          (connect-Linked s h p) (λ _ _ g. g) (λ _ _ g. g.0))
        (λ _ s' h'.
          weaken-Meets (λ _ s''. Linked c s''.client) _ (λ _ s''. Linked c s''.client) _
            (handshake N s') (handshake-Linked s' h') (λ _ _ g. g) (λ _ _ g. g.0))

  pub ensure_conn-Linked :
      (s : State N (Client N))
      → Same c s.client
      → Meets (λ _ s'. Linked c s'.client) (λ _ s'. Same c s'.client) (ensure_conn N s)
  unfolding ensure_conn
  ensure_conn-Linked s h = ensure-Linked s.client.conn s refl h

  greeted-Meets :
      (r : Outcome (Unit {0}) × State N (Client N))
      → Keeps (Linked c) r
      → Meets
          (λ r s'. Same c s'.client × ((r.is_succeed ≡ true) ↔ (s'.client.conn ≢ none)))
          (λ _ _. ⊥)
          (greeted N r)
  greeted-Meets (ok _, s) h = ground arith
  greeted-Meets (err e, s) h = ground (arith, close_locked-Same s h.0)
  greeted-Meets (panic, s) h = h

  dialed-Meets :
      (r : Outcome (Unit {0}) × State N (Client N))
      → Meets (λ _ s'. Linked c s'.client) (λ _ s'. Same c s'.client × (s'.client.conn ≡ none)) r
      → Meets
          (λ r s'. Same c s'.client × ((r.is_succeed ≡ true) ↔ (s'.client.conn ≢ none)))
          (λ _ _. ⊥)
          (dialed N r)
  dialed-Meets (ok _, s) h = greeted-Meets (handshake N s) (handshake-Linked s h)
  dialed-Meets (err e, s) h = ground arith
  dialed-Meets (panic, s) h = h

-- On every connection that meets the documentation, whatever the PLC sends, `Open` returns. It reports
-- success exactly when it leaves a connection, and changes no field but the connection and the PLC's
-- node number.
pub omron_open-Meets :
    (N : Net) (L : IsLawful N) (s : State N (Client N))
    → Meets
        (λ r s'. Same s.client s'.client × ((r.is_succeed ≡ true) ↔ (s'.client.conn ≢ none)))
        (λ _ _. ⊥)
        (open_ N s)
unfolding open_
omron_open-Meets N L s =
    let (same, closed) = close_locked-Same N L s.client s refl in
    dialed-Meets N L s.client (connect N (close_locked N s))
      (connect-Linked N L s.client (close_locked N s) same closed)
