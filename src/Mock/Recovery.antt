-- ===== src/Mock/Recovery.antt =====
-- The Mitsubishi client's requests on a mock PLC that has a failure to inject (`FailNextRequest`).
use go_iot_client.Base.{
  ℕ, ◌≤◌, ◌<◌, ◌≡◌, refl, sym, ap, ◌∙◌, true, false, some, List, [], ◌++◌, length, arith,
}
use go_iot_client.Base.Int.{ℤ}
use go_iot_client.Base.Outcome.{Error, Outcome, ok, err, plc_end_code, failed_after}
use go_iot_client.Base.Words.{little, put_uint16, words_to_bytes}
use go_iot_client.Base.Slices.{word_at}
use mathlib.Core.Path.{subst, ap₂}
use go_iot_client.Retry.{attempts}
use go_iot_client.Retry.Laws.{here, fails, attempts_first_success, attempts_exhausted}
use go_iot_client.Net.{State}
use go_iot_client.Net.Stream.{stream}
use go_iot_client.Mitsubishi.Client.{Client, dial_locked, drop_conn, reconnect_locked}
use go_iot_client.Mitsubishi.Request.{
  body_data, exchange, send_request_once, sleep, reconnected, send_request,
}
use go_iot_client.Net.Stream.Steps.{Answered}
use go_iot_client.Mitsubishi.Request.Exchange.{exchange-Answered}
use go_iot_client.Mitsubishi.Words.{device_range}
use go_iot_client.Mock.{cells, injected}
use go_iot_client.Mock.Session.{mock_peer, answer_head, handle_conn-process_on}
use go_iot_client.Mock.Exchange.{exchange-cells}

abbrev Mocked : Type 0
Mocked = State (stream mock_peer) (Client (stream mock_peer))

-- A connected client with nothing left to read.
abbrev pub IsQuiet : Mocked → Type 0
IsQuiet s = (s.client.conn ≡ some tt) × (s.world.inbox ≡ [])

body_data-end_code :
    (end_code : ℕ)
    → 0 < end_code
    → end_code < 65536
    → body_data (put_uint16 little end_code) ≡ err (plc_end_code end_code)
unfolding body_data word_at
body_data-end_code end_code h k = ground arith

injected-range :
    (end_code : ℕ) → end_code < 65536 → (0 < injected end_code) × (injected end_code < 65536)
injected-range end_code h = ground arith

-- After a failure and the pause the client is connected anew, to the same PLC.
reconnected-IsQuiet :
    (s : Mocked)
    → s.client.conn ≡ some tt
    → let s' = sleep (stream mock_peer) (reconnected (stream mock_peer) s) in
      IsQuiet s' × (s'.world.device ≡ s.world.device)
unfolding reconnect_locked drop_conn dial_locked
reconnected-IsQuiet s h = rw h (ground arith)

module _ (command subcommand : ℕ) (payload : List ℕ) (small : length payload < 65530)
    (timeout : ℤ) where
  abbrev once : Mocked → Outcome (List ℕ) × Mocked
  once s = send_request_once (stream mock_peer) command subcommand payload timeout s

  pub once-exchange :
      (s : Mocked)
      → s.client.conn ≡ some tt
      → once s ≡ exchange (stream mock_peer) s.client tt command subcommand payload timeout s
  unfolding send_request_once
  once-exchange s h = rw h refl

  -- The answer that the failure injects.
  once-injected :
      (s : Mocked)
      → IsQuiet s
      → s.world.device.fail_next_request ≡ true
      → s.world.device.fail_with_end_code < 65536
      → Answered mock_peer
          (err (plc_end_code (injected s.world.device.fail_with_end_code)))
          s.client
          (record s.world.device { fail_next_request = false })
          (once s)
  unfolding word_at
  once-injected s q fail fits =
      let server = s.world.device in
      let code = injected server.fail_with_end_code in
      let range = injected-range server.fail_with_end_code fits in
      subst
        (λ (r : Outcome (List ℕ) × (Outcome (List ℕ) × Mocked)).
          Answered mock_peer r.0 s.client (record server { fail_next_request = false }) r.1)
        (ap₂ (λ o r. (o, r)) (body_data-end_code code range.0 range.1) (sym (once-exchange s q.0)))
        (exchange-Answered mock_peer s.client command subcommand payload timeout s
          (answer_head s.client ++ put_uint16 little 2) (put_uint16 little code)
          (record server { fail_next_request = false }) q.1
          (handle_conn-process_on s.client server command subcommand payload (omega arith)
            ∙ rw fail refl)
          refl refl)

  -- The client after the failure, connected anew.
  abbrev after : Mocked → Mocked
  after s = sleep (stream mock_peer) (reconnected (stream mock_peer) (once s).1)

  after-IsQuiet :
      (s : Mocked)
      → IsQuiet s
      → s.world.device.fail_next_request ≡ true
      → s.world.device.fail_with_end_code < 65536
      → IsQuiet (after s)
        × ((after s).world.device ≡ record s.world.device { fail_next_request = false })
  after-IsQuiet s q fail fits =
      let failed = once-injected s q fail fits in
      let again = reconnected-IsQuiet (once s).1 (ap (λ c. c.conn) failed.1 ∙ q.0) in
      (again.0, again.1 ∙ failed.2)

  no_retry :
      (retries : ℕ) {e : Error}
      → retries ≡ 0
      → (s : Mocked) → (once s).0 ≡ err e
      → attempts (reconnected (stream mock_peer)) (sleep (stream mock_peer)) retries retries once s
        ≡ (err (failed_after 1 e), reconnected (stream mock_peer) (once s).1)
  no_retry retries {e = e} none_left s failed = rw none_left (
      attempts_exhausted (reconnected (stream mock_peer)) (sleep (stream mock_peer)) 0 0 once e
        (once s).1 (here s) (ap (λ o. (o, (once s).1)) failed))

  -- A connected client on a stream to a mock PLC that has a failure to inject, with an end code of 16
  -- bits, with nothing left to read: without retries a request of fewer than 65530 bytes returns an
  -- error with the end code that the PLC was told, or 0xC020 for 0, and the PLC has no failure to inject
  -- any more.
  pub send_request-injected :
      (s : Mocked)
      → IsQuiet s
      → s.world.device.fail_next_request ≡ true
      → s.world.device.fail_with_end_code < 65536
      → s.client.max_retries ≡ 0
      → let (r, s') = send_request (stream mock_peer) command subcommand payload timeout s in
        (r ≡ err (failed_after 1 (plc_end_code (injected s.world.device.fail_with_end_code))))
        × (s'.world.device ≡ record s.world.device { fail_next_request = false })
  unfolding send_request
  send_request-injected s q fail fits none_left =
      let found = no_retry s.client.max_retries none_left s (once-injected s q fail fits).0 in
      (ap (λ r. r.0) found, ap (λ r. r.1.world.device) found ∙ (after-IsQuiet s q fail fits).1)

-- A connected client that may retry, on a stream to a mock PLC that has a failure to inject, with an end
-- code of 16 bits, with nothing left to read: a request that reads at most 32766 words from an address of
-- 16 bits on returns the bytes of the words that the PLC holds there, and nothing else of the PLC has
-- changed but that it has no failure to inject any more.
pub send_request-recovers :
    (timeout : ℤ) (s : Mocked) (addr count : ℕ)
    → IsQuiet s
    → s.world.device.fail_next_request ≡ true
    → s.world.device.fail_with_end_code < 65536
    → 1 ≤ s.client.max_retries
    → addr < 65536
    → count < 32767
    → let (r, s') =
        send_request (stream mock_peer) 0x0401 0x0000 (device_range addr count) timeout s in
      (r ≡ ok (words_to_bytes little (cells s.world.device.words addr count)))
      × (s'.world.device ≡ record s.world.device { fail_next_request = false })
unfolding send_request
send_request-recovers timeout s addr count q fail fits retry addr_fits small =
    let small_payload : length (device_range addr count) < 65530 = omega arith in
    let request = once 0x0401 0x0000 (device_range addr count) small_payload timeout in
    let s₂ = after 0x0401 0x0000 (device_range addr count) small_payload timeout s in
    let (quiet, same) =
      after-IsQuiet 0x0401 0x0000 (device_range addr count) small_payload timeout s q fail fits in
    let failed =
      once-injected 0x0401 0x0000 (device_range addr count) small_payload timeout s q fail fits in
    let read =
      subst
        (λ r.
          Answered mock_peer (ok (words_to_bytes little (cells s₂.world.device.words addr count)))
            s₂.client s₂.world.device r)
        (sym
          (once-exchange 0x0401 0x0000 (device_range addr count) small_payload timeout s₂ quiet.0))
        (exchange-cells s₂.client timeout s₂ quiet.1 (ap (λ d. d.fail_next_request) same) addr
          addr_fits count small) in
    let found =
      attempts_first_success (reconnected (stream mock_peer)) (sleep (stream mock_peer))
        s.client.max_retries s.client.max_retries 1 request _ (request s₂).1
        (fails _ (request s).1 (ap (λ o. (o, (request s).1)) failed.0) (here s₂)) retry
        (ap (λ o. (o, (request s₂).1)) read.0) in
    (
      ap (λ r. r.0) found ∙ ap (λ d. ok (words_to_bytes little (cells d.words addr count))) same,
      ap (λ r. r.1.world.device) found ∙ (read.2 ∙ same),
    )
