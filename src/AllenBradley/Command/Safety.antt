-- ===== src/AllenBradley/Command/Safety.antt =====
-- A command returns, whatever the connection does and the controller sends.
use go_iot_client.Base.{ℕ, ◌+◌, ◌-◌, ◌≡◌, refl, none, List, ◌++◌, length, arith}
use go_iot_client.Base.Int.{pos_part}
use go_iot_client.Base.Words.{little, uint16}
use go_iot_client.Base.Slices.{nth, word_at, word_at-nth, slice-take}
use go_iot_client.Base.Outcome.{
  Error, Outcome, ok, err, panic, lift, continue, ◌>>=◌, NoPanic, Meets, continue-Meets,
  weaken-Meets, failed_after,
}
use go_iot_client.Core.{normalize}
use go_iot_client.Retry.Laws.{attempts-Meets}
use go_iot_client.Net.{Net, IsLawful, State, on_world}
use go_iot_client.Net.Keeps.{Keeps, checked_then, world_then}
use go_iot_client.Net.Full.{read_full}
use go_iot_client.Net.Full.Laws.{read_full-Meets}
use go_iot_client.AllenBradley.Client.{Client, ensure_conn, close_locked}
use go_iot_client.AllenBradley.Client.Safety.{
  Same, IsRegistered, Linked, Ready, conn_then, close_locked-Same, ensure_conn-Linked,
}
use go_iot_client.AllenBradley.Command.{read_data, exchange, send_command_once, sleep, send_command}

-- The decoding of any response to a read returns a value or an error.
pub read_data-NoPanic : (resp : List ℕ) → NoPanic (read_data resp)
unfolding read_data
read_data-NoPanic resp = ground (
  arith,
  word_at-nth little resp 38,
  slice-take resp 46 (46 + uint16 little (nth resp 38) (nth resp 39) - 6),
)

module _ (N : Net) (L : IsLawful N) (c : Client N) where
  content_then :
      (conn : N.Conn) (head : List ℕ) (s : State N (Client N)) (r : Outcome ℕ)
      → Linked c s.client
      → NoPanic r
      → Keeps (Linked c) (
          continue
            (lift r s)
            (λ n. on_world N (read_full N conn n) >>= λ content. lift (ok (head ++ content))))
  content_then conn head s (ok n) h p =
      world_then N (Linked c) s h (λ xs. length xs ≡ n) (read_full N conn n) _
        (read_full-Meets N L conn n s.world) λ content s' _ h'. h'
  content_then conn head s (err e) h p = h
  content_then conn head s panic h p = p

  exchange-Linked :
      (c' : Client N) (conn : N.Conn) (cmd : List ℕ) (s : State N (Client N))
      → Linked c s.client
      → Keeps (Linked c) (exchange N c' conn cmd s)
  unfolding exchange
  exchange-Linked c' conn cmd s h =
      checked_then N (Linked c) s h (N.set_deadline conn c'.timeout) _ λ s₁ h₁.
        checked_then N (Linked c) s₁ h₁ (N.write conn cmd) _ λ s₂ h₂.
          world_then N (Linked c) s₂ h₂ (λ xs. length xs ≡ 24) (read_full N conn 24) _
            (read_full-Meets N L conn 24 s₂.world)
            λ head s₃ e h₃.
              content_then conn head s₃ (word_at little head 2) h₃
                (ground (arith, word_at-nth little head 2))

  send_command_once-Linked :
      (cmd : List ℕ) (s : State N (Client N))
      → Ready N L c s.client
      → Meets (λ _ s'. Linked c s'.client) (λ _ s'. Same c s'.client) (send_command_once N cmd s)
  unfolding send_command_once
  send_command_once-Linked cmd s h =
      continue-Meets (λ _ s'. Linked c s'.client) _ _ (ensure_conn N s) _
        (ensure_conn-Linked N L c s h)
        λ _ s' h'. conn_then N L c s' _ _ _ h'.1 λ conn.
          weaken-Meets (λ _ s''. Linked c s''.client) _ (λ _ s''. Linked c s''.client) _
            (exchange N s'.client conn cmd s') (exchange-Linked s'.client conn cmd s' h')
            (λ _ _ g. g) (λ _ _ g. g.0)

-- On every connection that meets the documentation, whatever the controller sends, a command of a client
-- that is not connected without a session returns: it does not panic, and no
-- read goes on for ever. A success leaves a connection and a session; an error
-- leaves no connection and says after how many attempts the client gave up. No field changes but the
-- connection and the session.
pub allen_send_command-Meets :
    (N : Net) (L : IsLawful N) (s : State N (Client N)) (cmd : List ℕ)
    → IsRegistered s.client
    → Meets
        (λ _ s'. Linked s.client s'.client)
        (λ e s'.
          (Same s.client s'.client × (s'.client.conn ≡ none))
          × ((last : Error) × (e
                ≡ failed_after (pos_part (normalize s.client.retry).max_retries + 1) last)))
        (send_command N cmd s)
unfolding send_command
allen_send_command-Meets N L s cmd v =
    attempts-Meets (close_locked N) (sleep N) (λ s'. Ready N L s.client s'.client)
      (λ s'. Same s.client s'.client) (λ s'. Same s.client s'.client × (s'.client.conn ≡ none))
      (λ _ s'. Linked s.client s'.client) (close_locked-Same N L s.client) (λ s' h. ground arith) _
      _ (send_command_once N cmd) (send_command_once-Linked N L s.client cmd) s (refl, v)
