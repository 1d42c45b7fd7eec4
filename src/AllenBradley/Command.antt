-- ===== src/AllenBradley/Command.antt =====
-- `sendCommandOnceLocked`, `sendCommand` and `readRaw`.
pub mod Safety
use go_iot_client.Base.{ℕ, ◌+◌, ◌-◌, ◌%◌, List, ◌++◌, length, ◌||◌, not, ltb, if◌then◌else◌}
use go_iot_client.Base.Int.{ℤ, pos_part, is_positive}
use go_iot_client.Base.Outcome.{
  Outcome, ok, err, ◌>>=◌, ◌>>◌, lift, reject, bind, length_not_in_range, invalid_read_response,
  invalid_read_count,
}
use go_iot_client.Base.Words.{little}
use go_iot_client.Base.Slices.{slice, word_at}
use go_iot_client.Core.{normalize}
use go_iot_client.Retry.{attempts}
use go_iot_client.Net.{Net, State, checked, on_world}
use go_iot_client.Net.Full.{read_full}
use go_iot_client.AllenBradley.Client.{
  Client, Call, the_client, the_conn, ensure_conn, close_locked,
}
use go_iot_client.AllenBradley.Frame.{build_read_command}

-- The value in the response to a read.
unfoldable pub read_data : List ℕ → Outcome (List ℕ)
read_data resp =
    if ltb (length resp) 46
    then err invalid_read_response
    else bind (word_at little resp 38) (λ count.
      if ltb count 6 || ltb (length resp) (46 + count - 6)
      then err invalid_read_count
      else slice resp 46 (46 + count - 6))

module _ (N : Net) where
  -- The method on the connection `conn` of the client `c`.
  unfoldable pub exchange : Client N → N.Conn → List ℕ → Call N (List ℕ)
  exchange c conn cmd = do
    checked N (N.set_deadline conn c.timeout)
    checked N (N.write conn cmd)
    head ← on_world N (read_full N conn 24)
    content_length ← lift (word_at little head 2)
    content ← on_world N (read_full N conn content_length)
    lift (ok (head ++ content))

  unfoldable pub send_command_once : List ℕ → Call N (List ℕ)
  send_command_once cmd = do ensure_conn N; c ← the_client N; conn ← the_conn N; exchange c conn cmd

  abbrev pub sleep : State N (Client N) → State N (Client N)
  sleep s = record s { world = N.sleep (normalize s.client.retry).retry_delay s.world }

  unfoldable pub send_command : List ℕ → Call N (List ℕ)
  send_command cmd s =
      let retries = pos_part (normalize s.client.retry).max_retries in
      attempts (close_locked N) sleep retries retries (send_command_once cmd) s

  -- The command is built from the session that the client has before it connects.
  unfoldable pub read_raw : List ℕ → ℤ → Call N (List ℕ)
  read_raw address n = do
    reject (not (is_positive n) || ltb 65535 (pos_part n)) length_not_in_range
    c ← the_client N
    resp ← send_command (build_read_command c.session c.slot address (pos_part n))
    lift (read_data resp)
