-- ===== src/Mock/Requests.antt =====
-- A request of the Mitsubishi client to a mock PLC, connected or not: what one exchange makes of it.
use go_iot_client.Base.{
  ℕ, ◌<◌, ◌≡◌, refl, sym, ap, ◌∙◌, inl, inr, Option-cases, append-nil, false, some, List, [], ◌++◌,
  length, All, ◌==◌, arith,
}
use mathlib.Core.Path.{subst}
use go_iot_client.Base.Int.{ℤ}
use go_iot_client.Base.Outcome.{ok, lift}
use go_iot_client.Base.Words.{IsWord, little, words_to_bytes, read_words}
use go_iot_client.Base.Words.Laws.{length-words_to_bytes, read_words-words_to_bytes}
use go_iot_client.Retry.Laws.{here, attempts_first_success}
use go_iot_client.Net.{State}
use go_iot_client.Net.Stream.{stream}
use go_iot_client.Mitsubishi.Client.{Client, dial_locked, drop_conn, reconnect_locked}
use go_iot_client.Mitsubishi.Request.{exchange, send_request_once, sleep, reconnected, send_request}
use go_iot_client.Net.Stream.Steps.{Answered, continue-Answered}
use go_iot_client.Mitsubishi.Words.{device_range, words_of, read_words_from, write_words}
use go_iot_client.Mitsubishi.Words.Safety.{write_payload-cases}
use go_iot_client.Mock.{Server, cells, store}
use go_iot_client.Mock.Session.{mock_peer, length-cells}
use go_iot_client.Mock.Exchange.{exchange-store, exchange-cells}

abbrev pub Mocked : Type 0
Mocked = State (stream mock_peer) (Client (stream mock_peer))

-- The client with a connection.
abbrev pub linked : Client (stream mock_peer) → Client (stream mock_peer)
linked c = record c { conn = some tt }

-- Nothing left to read, and no failure to inject.
abbrev pub IsIdle : Mocked → Type 0
IsIdle s = (s.world.inbox ≡ []) × (s.world.device.fail_next_request ≡ false)

abbrev ready : Mocked → Mocked
ready s = record s { client = linked s.client }

module _ (command subcommand : ℕ) (payload : List ℕ) (timeout : ℤ) where
  -- A client without a connection dials first.
  once-ready :
      (s : Mocked)
      → s.world.inbox ≡ []
      → send_request_once (stream mock_peer) command subcommand payload timeout s
        ≡ exchange
            (stream mock_peer)
            (linked s.client)
            tt
            command
            subcommand
            payload
            timeout
            (ready s)
  unfolding send_request_once reconnect_locked drop_conn dial_locked
  once-ready s empty = elim (Option-cases s.client.conn) [
    | inl p ↦ rw p (ground arith)
    | inr (x, p) ↦ rw p (ground arith)
  ]

  send_request-Answered :
      (s : Mocked) (xs : List ℕ) (d : Server)
      → s.world.inbox ≡ []
      → Answered mock_peer (ok xs) (linked s.client) d (
          exchange
            (stream mock_peer)
            (linked s.client)
            tt
            command
            subcommand
            payload
            timeout
            (ready s))
      → Answered mock_peer
          (ok xs)
          (linked s.client)
          d
          (send_request (stream mock_peer) command subcommand payload timeout s)
  unfolding send_request
  send_request-Answered s xs d empty h =
      let once = send_request_once (stream mock_peer) command subcommand payload timeout in
      let first =
        subst (Answered mock_peer (ok xs) (linked s.client) d) (sym (once-ready s empty)) h in
      let found =
        attempts_first_success (reconnected (stream mock_peer)) (sleep (stream mock_peer))
          s.client.max_retries s.client.max_retries 0 once xs (once s).1 (here s) (omega arith)
          (ap (λ o. (o, (once s).1)) first.0) in
      (
        ap (λ r. r.0) found,
        ap (λ r. r.1.client) found ∙ first.1,
        ap (λ r. r.1.world.device) found ∙ first.2,
        ap (λ r. r.1.world.inbox) found ∙ first.3,
      )

words_of-words :
    (count : ℕ) (values : List ℕ)
    → length values ≡ count
    → All IsWord values
    → words_of count (words_to_bytes little values) ≡ ok values
unfolding words_of
words_of-words count values e w =
    let same : read_words little count (words_to_bytes little values) ≡ ok values =
      ap (λ bs. read_words little count bs) (sym (append-nil (words_to_bytes little values)))
      ∙ ap (λ (n : ℕ). read_words little n (words_to_bytes little values ++ [])) (sym e)
      ∙ read_words-words_to_bytes little values [] w in
    ground (arith, length-words_to_bytes little values)

module _ (s : Mocked) (idle : IsIdle s) (addr : ℕ) (fits : addr < 65536) where
  -- A read of words brings the words that the PLC holds.
  pub read_words_from-cells :
      (count : ℕ)
      → 0 < count
      → count < 32767
      → All IsWord (cells s.world.device.words addr count)
      → Answered mock_peer
          (ok (cells s.world.device.words addr count))
          (linked s.client)
          s.world.device
          (read_words_from (stream mock_peer) addr count s)
  unfolding read_words_from
  read_words_from-cells count some_words small w =
      let values = cells s.world.device.words addr count in
      let counted : (count == 0) ≡ false = ground arith in
      rw counted (
        continue-Answered mock_peer (words_to_bytes little values) (ok values) (linked s.client)
          (linked s.client) s.world.device s.world.device _ (λ resp. lift (words_of count resp))
          (send_request-Answered 0x0401 0x0000 (device_range addr count) s.client.read_timeout s _ _
            idle.0
            (exchange-cells (linked s.client) s.client.read_timeout (ready s) idle.0 idle.1 addr
              fits count small))
          λ s' c d i.
            (words_of-words count values (length-cells s.world.device.words addr count) w, c, d, i))

  -- A write of words stores them.
  pub write_words-store :
      (values : List ℕ)
      → length values < 32762
      → All IsWord values
      → Answered mock_peer
          (ok tt)
          (linked s.client)
          (record s.world.device { words = store s.world.device.words addr values })
          (write_words (stream mock_peer) addr values s)
  unfolding write_words
  write_words-store values small w = rw ((write_payload-cases addr values).0 (omega arith)) (
      continue-Answered mock_peer [] (ok tt) (linked s.client) (linked s.client) _ _ _
        (λ _. lift (ok tt))
        (send_request-Answered 0x1401 0x0000 _ s.client.write_timeout s _ _ idle.0 (
          exchange-store (linked s.client) s.client.write_timeout (ready s) idle.0 idle.1 addr fits
            values small w))
        λ s' c d i. (refl, c, d, i))
