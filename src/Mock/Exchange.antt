-- ===== src/Mock/Exchange.antt =====
-- The Mitsubishi client's requests on the mock PLC.
use go_iot_client.Base.{
  ℕ, ◌+◌, ◌*◌, ◌/◌, ◌%◌, ◌<◌, ◌≡◌, refl, ap, ◌∙◌, false, List, [], ◌++◌, length, take_all, All,
  arith,
}
use go_iot_client.Base.Int.{ℤ}
use go_iot_client.Base.Outcome.{ok}
use go_iot_client.Base.Words.{IsWord, little, put_uint16, words_to_bytes}
use go_iot_client.Base.Words.Laws.{length-words_to_bytes}
use go_iot_client.Base.Slices.{word_at, slice}
use mathlib.Core.Path.{subst}
use go_iot_client.Net.{State}
use go_iot_client.Net.Stream.{stream}
use go_iot_client.Mitsubishi.Client.{Client}
use go_iot_client.Mitsubishi.Request.{body_data, exchange}
use go_iot_client.Net.Stream.Steps.{Answered}
use go_iot_client.Mitsubishi.Request.Exchange.{exchange-Answered}
use go_iot_client.Mitsubishi.Words.{device_range}
use go_iot_client.Mock.{Server, cells, store, dispatch}
use go_iot_client.Mock.Session.{
  mock_peer, answer_head, replied, handle_conn-frame, handle_write-stores, handle_read-cells,
  length-cells,
}

-- The data behind the end code 0.
body_data-zero : (served : List ℕ) → body_data (put_uint16 little 0 ++ served) ≡ ok served
unfolding body_data word_at slice
body_data-zero served = ground (arith, take_all (length served) served (omega arith))

module _ (c : Client (stream mock_peer)) (timeout : ℤ)
    (s : State (stream mock_peer) (Client (stream mock_peer))) (empty : s.world.inbox ≡ [])
    (plain : s.world.device.fail_next_request ≡ false) (addr : ℕ) (addr_fits : addr < 65536) where
  abbrev server : Server
  server = s.world.device

  write_dispatch :
      (values : List ℕ)
      → length values < 32762
      → All IsWord values
      → dispatch server (answer_head c) (
          put_uint16 little c.monitoring_timer
          ++ (put_uint16 little 0x1401
              ++ (put_uint16 little 0
                  ++ (device_range addr (length values) ++ words_to_bytes little values))))
        ≡ ok (
          (answer_head c ++ put_uint16 little 2) ++ put_uint16 little 0,
          record server { words = store server.words addr values },
        )
  unfolding dispatch word_at
  write_dispatch values small w =
      ground
        (arith, handle_write-stores server (answer_head c) addr values addr_fits (omega arith) w)

  -- On a stream to a mock PLC that has no failure to inject, with nothing left to read: an exchange that
  -- writes at most 32761 words from an address on succeeds with no data, stores these words and changes
  -- nothing else of the PLC, however the answer is cut into chunks, and leaves the client alone and
  -- nothing to read.
  pub exchange-store :
      (values : List ℕ)
      → length values < 32762
      → All IsWord values
      → Answered mock_peer
          (ok [])
          s.client
          (record s.world.device { words = store s.world.device.words addr values })
          (exchange
            (stream mock_peer)
            c
            tt
            0x1401
            0x0000
            (device_range addr (length values) ++ words_to_bytes little values)
            timeout
            s)
  unfolding body_data slice word_at
  exchange-store values small w =
      exchange-Answered mock_peer c 0x1401 0x0000
        (device_range addr (length values) ++ words_to_bytes little values) timeout s
        (answer_head c ++ put_uint16 little 2) (put_uint16 little 0)
        (record server { words = store server.words addr values }) empty
        (handle_conn-frame c server 0x1401 0x0000
            (device_range addr (length values) ++ words_to_bytes little values)
            (omega (arith, length-words_to_bytes little values)) plain
          ∙ ap (replied server) (write_dispatch values small w))
        refl refl

  read_dispatch :
      (count : ℕ)
      → count < 32767
      → dispatch server (answer_head c) (
          put_uint16 little c.monitoring_timer
          ++ (put_uint16 little 0x0401 ++ (put_uint16 little 0 ++ device_range addr count)))
        ≡ ok (
          (answer_head c ++ put_uint16 little (2 + count * 2))
              ++ (put_uint16 little 0 ++ words_to_bytes little (cells server.words addr count)),
          server,
        )
  unfolding dispatch word_at
  read_dispatch count small =
      ground (arith, handle_read-cells server (answer_head c) addr count addr_fits small)

  -- On a stream to a mock PLC that has no failure to inject, with nothing left to read: an exchange that
  -- reads at most 32766 words from an address on returns the bytes of the words that the PLC holds
  -- there, however the answer is cut into chunks, and leaves the client and the PLC alone and nothing to
  -- read.
  pub exchange-cells :
      (count : ℕ)
      → count < 32767
      → Answered mock_peer
          (ok (words_to_bytes little (cells s.world.device.words addr count)))
          s.client
          s.world.device
          (exchange (stream mock_peer) c tt 0x0401 0x0000 (device_range addr count) timeout s)
  unfolding word_at
  exchange-cells count small =
      subst
        (λ r.
          Answered mock_peer r s.client s.world.device
            (exchange (stream mock_peer) c tt 0x0401 0x0000 (device_range addr count) timeout s))
        (body_data-zero values)
        (exchange-Answered mock_peer c 0x0401 0x0000 (device_range addr count) timeout s
          (answer_head c ++ put_uint16 little (2 + count * 2)) (put_uint16 little 0 ++ values)
          server empty
          (handle_conn-frame c server 0x0401 0x0000 (device_range addr count) (omega arith) plain
            ∙ ap (replied server) (read_dispatch count small))
          refl (ap ok counted))
    where
      values : List ℕ
      values = words_to_bytes little (cells server.words addr count)

      counted :
          (2 + count * 2) / 256 % 256 * 256 + (2 + count * 2) % 256
          ≡ length (put_uint16 little 0 ++ values)
      counted = omega (
        arith,
        length-words_to_bytes little (cells server.words addr count),
        length-cells server.words addr count,
      )
