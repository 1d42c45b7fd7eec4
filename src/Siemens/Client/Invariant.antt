-- ===== src/Siemens/Client/Invariant.antt =====
-- The connection flag, the handler and the client agree, and a request returns.
use go_iot_client.Base.{ℕ, ◌+◌, ◌≡◌, ◌≢◌, ◌↔◌, refl, true, false, none, List, length, arith}
use go_iot_client.Base.Int.{ℤ, pos_part}
use go_iot_client.Base.Outcome.{Error, Outcome, ok, err, panic, Meets, weaken-Meets, failed_after}
use go_iot_client.Core.{RetryPolicy, normalize}
use go_iot_client.Retry.Laws.{attempts-Meets}
use go_iot_client.Siemens.Gos7.{Gos7, IsLawful}
use go_iot_client.Siemens.Client.{
  Client, State, Call, new_siemens_client, set_rack_slot, set_timeout, set_retry_policy,
  close_locked, connected_by, open_locked, ensure_connected, then_op, once, sleep, with_retry,
  open_, close,
}

-- The handler and the client are there together, and the flag says whether they are.
pub record IsConsistent {G : Gos7} (c : Client G) : Type 0 where
  pub same_handler : c.client ≡ c.handler
  pub flag_tells : (c.is_connected ≡ true) ↔ (c.handler ≢ none)

-- The same settings: a call changes the connection, and no other field.
abbrev pub Same : {G : Gos7} → Client G → Client G → Type 0
Same c c' =
    record c' { handler = none; client = none; is_connected = false }
    ≡ record c { handler = none; client = none; is_connected = false }

abbrev pub Kept : {G : Gos7} → Client G → Client G → Type 0
Kept c c' = Same c c' × IsConsistent c'

abbrev pub Linked : {G : Gos7} → Client G → Client G → Type 0
Linked c c' = Kept c c' × (c'.is_connected ≡ true)

abbrev pub Unlinked : {G : Gos7} → Client G → Client G → Type 0
Unlinked c c' = Kept c c' × (c'.is_connected ≡ false)

pub new_siemens_client-IsConsistent :
    (G : Gos7) (endpoint : List ℕ) → IsConsistent (new_siemens_client G endpoint)
unfolding new_siemens_client
new_siemens_client-IsConsistent G endpoint = ground arith

pub setters-IsConsistent :
    (G : Gos7) (c : Client G) (rack slot timeout : ℤ) (policy : RetryPolicy)
    → IsConsistent c
    → IsConsistent (set_rack_slot G rack slot c)
      × IsConsistent (set_timeout G timeout c)
      × IsConsistent (set_retry_policy G policy c)
unfolding set_rack_slot set_timeout set_retry_policy
setters-IsConsistent G c rack slot timeout policy h = ground arith

module _ (G : Gos7) (L : IsLawful G) (c : Client G) (n : ℕ) where
  -- A state with these settings whose buffer has `n` bytes.
  abbrev In : (Client G → Client G → Type 0) → State G → Type 0
  In R s = R c s.self × (length s.buf ≡ n)

  close_locked-Unlinked : (s : State G) → In Kept s → In Unlinked (close_locked G s)
  unfolding close_locked
  close_locked-Unlinked s h = ground arith

  connected_by-Meets :
      (s : State G) (r : Outcome G.Handler × G.World)
      → r.0 ≢ panic
      → In Unlinked s
      → Meets (λ _ s'. In Linked s') (λ _ s'. In Unlinked s') (connected_by G s r)
  connected_by-Meets s (ok h, w) p k = ground arith
  connected_by-Meets s (err e, w) p k = k
  connected_by-Meets s (panic, w) p k = absurd (p refl)

  open_locked-Meets :
      (s : State G)
      → In Kept s
      → Meets (λ _ s'. In Linked s') (λ _ s'. In Unlinked s') (open_locked G s)
  unfolding open_locked
  open_locked-Meets s h =
      let s₁ = close_locked G s in
      connected_by-Meets s₁
        (G.connect s₁.self.endpoint s₁.self.rack s₁.self.slot s₁.self.timeout s₁.world)
        (L.connect-returns s₁.self.endpoint s₁.self.rack s₁.self.slot s₁.self.timeout s₁.world)
        (close_locked-Unlinked s h)

  ensure_connected-Meets :
      (s : State G)
      → In Kept s
      → Meets (λ _ s'. In Linked s') (λ _ s'. In Kept s') (ensure_connected G s)
  unfolding ensure_connected
  ensure_connected-Meets s h = ground (
    arith,
    weaken-Meets (λ _ s'. In Linked s') (λ (_ : Unit {0}) s'. In Linked s') (λ _ s'. In Unlinked s')
        (λ _ s'. In Kept s') (open_locked G s) (open_locked-Meets s h) (λ _ _ g. g)
        (λ _ _ g. (g.0.0, g.1)),
  )

  -- An operation of gos7 on a connected client, which changes the world and the buffer's contents.
  abbrev pub Operates : Call G (Unit {0}) → Type 0
  Operates op =
      (s : State G) → In Linked s → Meets (λ _ s'. In Linked s') (λ _ s'. In Linked s') (op s)

  module _ (op : Call G (Unit {0})) (o : Operates op) where
    then_op-Meets :
        (r : Outcome (Unit {0}) × State G)
        → Meets (λ _ s'. In Linked s') (λ _ s'. In Kept s') r
        → Meets (λ _ s'. In Linked s') (λ _ s'. In Kept s') (then_op G op r)
    then_op-Meets (ok _, s) h =
        weaken-Meets (λ _ s'. In Linked s') _ (λ _ s'. In Linked s') _ (op s) (o s h) (λ _ _ g. g)
          (λ _ _ g. (g.0.0, g.1))
    then_op-Meets (err e, s) h = h
    then_op-Meets (panic, s) h = h

    once-Meets :
        (s : State G) → In Kept s → Meets (λ _ s'. In Linked s') (λ _ s'. In Kept s') (once G op s)
    unfolding once
    once-Meets s h = then_op-Meets (ensure_connected G s) (ensure_connected-Meets s h)

-- For a gos7 whose dialing returns and whose reads keep the length of the buffer: where the operation on a
-- connected client returns and leaves the fields of the client and the buffer's length alone, the operation
-- with its retries returns, on a consistent client. A success leaves the client connected; an error leaves
-- it disconnected, with handler and client gone, and says after how many attempts it gave up. No setting
-- and no length of the buffer changes, and the client stays consistent.
pub with_retry-Meets :
    (G : Gos7) (L : IsLawful G) (s : State G) (op : Call G (Unit {0}))
    → IsConsistent s.self
    → Operates G L s.self (length s.buf) op
    → Meets
        (λ _ s'. Linked s.self s'.self × (length s'.buf ≡ length s.buf))
        (λ e s'.
          (Unlinked s.self s'.self × (length s'.buf ≡ length s.buf))
          × ((last : Error) × (e
                ≡ failed_after (pos_part (normalize s.self.retry).max_retries + 1) last)))
        (with_retry G op s)
unfolding with_retry
with_retry-Meets G L s op v o =
    attempts-Meets (close_locked G) (sleep G) (In G L s.self n Kept) (In G L s.self n Kept)
      (In G L s.self n Unlinked) (λ _ s'. In G L s.self n Linked s')
      (close_locked-Unlinked G L s.self n) (λ s' h. (h.0.0, h.1)) _ _ (once G op)
      (once-Meets G L s.self n op o) s ((refl, v), refl)
  where
    n : ℕ
    n = length s.buf

-- For a gos7 whose dialing returns and whose reads keep the length of the buffer, `Open` of a consistent client returns and leaves it
-- consistent with its settings. It reports success, and no code 408, exactly when it leaves the client
-- connected.
pub siemens_open-Meets :
    (G : Gos7) (L : IsLawful G) (s : State G)
    → IsConsistent s.self
    → Meets
        (λ r s'.
          Kept s.self s'.self
          × ((r.is_succeed ≡ true) ↔ (s'.self.is_connected ≡ true))
          × ((r.err_code ≡ 408) ↔ (s'.self.is_connected ≡ false)))
        (λ _ _. ⊥)
        (open_ G s)
unfolding open_
siemens_open-Meets G L s v =
    ground (arith, open_locked-Meets G L s.self (length s.buf) s ((refl, v), refl))

pub siemens_close-Meets :
    (G : Gos7) (s : State G) → Meets (λ _ s'. Unlinked s.self s'.self) (λ _ _. ⊥) (close G s)
unfolding close
siemens_close-Meets G s = ground arith
