-- ===== src/Omron/Command/Safety.antt =====
-- A command returns, whatever the connection does and the PLC sends.
use go_iot_client.Base.{ℕ, ◌+◌, ◌≡◌, refl, Bool, true, false, none, List, length, ltb, arith}
use go_iot_client.Base.Int.{pos_part}
use go_iot_client.Base.Words.{big}
use go_iot_client.Base.Words.Laws.{Words, read_words-Words}
use go_iot_client.Base.Slices.{word_at-nth, slice-take}
use go_iot_client.Base.Outcome.{
  Error, Outcome, ok, err, panic, lift, reject, continue, ◌>>=◌, NoPanic, Meets, continue-Meets,
  weaken-Meets, failed_after, invalid_content_length,
}
use go_iot_client.Core.{normalize}
use go_iot_client.Retry.Laws.{attempts-Meets}
use go_iot_client.Net.{Net, IsLawful, State, on_world}
use go_iot_client.Net.Keeps.{Keeps, lift-Keeps, checked_then, world_then}
use go_iot_client.Net.Full.{read_full}
use go_iot_client.Net.Full.Laws.{read_full-Meets}
use go_iot_client.Omron.Client.{Client, Call, content_length, the_conn, ensure_conn, close_locked}
use go_iot_client.Omron.Client.Safety.{
  Same, Linked, content_length-NoPanic, conn_then, close_locked-Same, ensure_conn-Linked,
}
use go_iot_client.Omron.Command.{
  content_data, words_of, exchange, send_command_once, sleep, send_command,
}

content_data-NoPanic : (content : List ℕ) → NoPanic (content_data content)
unfolding content_data
content_data-NoPanic content = ground (
  arith,
  word_at-nth big content 12,
  word_at-nth big content 24,
  slice-take content 26 (length content),
)

-- The decoding of any response data returns: an error, or as many words as were asked for.
pub omron_words_of-Words : (count : ℕ) (resp : List ℕ) → Words count (words_of count resp)
unfolding words_of
omron_words_of-Words count resp = ground (arith, read_words-Words big count resp)

module _ (N : Net) (L : IsLawful N) (c : Client N) where
  reject_then :
      {B : Type 0} (P : Client N → Type 0) (test : Bool) (e : Error) (f : Unit {0} → Call N B)
      (s : State N (Client N))
      → P s.client
      → Keeps P (f tt s)
      → Keeps P (continue (reject test e s) f)
  reject_then P true e f s h k = h
  reject_then P false e f s h k = k

  content_then :
      (conn : N.Conn) (s : State N (Client N)) (r : Outcome ℕ)
      → Linked c s.client
      → NoPanic r
      → Keeps (Linked c) (
          continue (lift r s) (λ n. reject (ltb n 26) invalid_content_length >>= λ _.
          on_world N (read_full N conn n) >>= λ content. lift (content_data content)))
  content_then conn s (ok n) h p = reject_then (Linked c) (ltb n 26) invalid_content_length _ s h (
      world_then N (Linked c) s h (λ xs. length xs ≡ n) (read_full N conn n) _
        (read_full-Meets N L conn n s.world)
        λ content s' _ h'.
          lift-Keeps N (Linked c) s' h' (content_data content) (content_data-NoPanic content))
  content_then conn s (err e) h p = h
  content_then conn s panic h p = p

  exchange-Linked :
      (c' : Client N) (conn : N.Conn) (cmd : List ℕ) (s : State N (Client N))
      → Linked c s.client
      → Keeps (Linked c) (exchange N c' conn cmd s)
  unfolding exchange
  exchange-Linked c' conn cmd s h =
      checked_then N (Linked c) s h (N.set_deadline conn c'.timeout) _ λ s₁ h₁.
        checked_then N (Linked c) s₁ h₁ (N.write conn cmd) _ λ s₂ h₂.
          world_then N (Linked c) s₂ h₂ (λ xs. length xs ≡ 8) (read_full N conn 8) _
            (read_full-Meets N L conn 8 s₂.world)
            λ head s₃ e h₃.
              content_then conn s₃ (content_length head) h₃ (content_length-NoPanic head e)

  send_command_once-Linked :
      (cmd : List ℕ) (s : State N (Client N))
      → Same c s.client
      → Meets (λ _ s'. Linked c s'.client) (λ _ s'. Same c s'.client) (send_command_once N cmd s)
  unfolding send_command_once
  send_command_once-Linked cmd s h =
      continue-Meets (λ _ s'. Linked c s'.client) _ _ (ensure_conn N s) _
        (ensure_conn-Linked N L c s h)
        λ _ s' h'.
          weaken-Meets (λ _ s''. Linked c s''.client) _ (λ _ s''. Linked c s''.client) _
            (continue (the_conn N s') (λ conn. exchange N s'.client conn cmd))
            (conn_then N L c s' _ h' λ conn. exchange-Linked s'.client conn cmd s' h') (λ _ _ g. g)
            (λ _ _ g. g.0)

-- On every connection that meets the documentation, whatever the PLC sends, a command returns. A success
-- leaves a connection; an error leaves none and says after how many attempts the client gave up. No field
-- changes but the connection and the PLC's node number.
pub send_command-Meets :
    (N : Net) (L : IsLawful N) (s : State N (Client N)) (cmd : List ℕ)
    → Meets
        (λ _ s'. Linked s.client s'.client)
        (λ e s'.
          (Same s.client s'.client × (s'.client.conn ≡ none))
          × ((last : Error) × (e
                ≡ failed_after (pos_part (normalize s.client.retry).max_retries + 1) last)))
        (send_command N cmd s)
unfolding send_command
send_command-Meets N L s cmd =
    attempts-Meets (close_locked N) (sleep N) (λ s'. Same s.client s'.client)
      (λ s'. Same s.client s'.client) (λ s'. Same s.client s'.client × (s'.client.conn ≡ none))
      (λ _ s'. Linked s.client s'.client) (close_locked-Same N L s.client) (λ s' h. h.0) _ _
      (send_command_once N cmd) (send_command_once-Linked N L s.client cmd) s refl
