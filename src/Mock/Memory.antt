-- ===== src/Mock/Memory.antt =====
-- The registers of the mock PLC: what a write stores is read back.
use go_iot_client.Base.{
  ℕ, suc, ◌+◌, ◌%◌, ◌≤◌, ◌<◌, ◌≡◌, ◌≢◌, refl, ap, ◌∙◌, List, [], ◌∷◌, ◌++◌, length, All, false,
  arith,
}
use mathlib.Core.Path.{ap₂}
use go_iot_client.Base.Int.{ℤ}
use go_iot_client.Base.Words.{IsWord, little, words_to_bytes}
use go_iot_client.Base.Outcome.{Outcome, ok}
use go_iot_client.Net.{State}
use go_iot_client.Net.Stream.{stream}
use go_iot_client.Mitsubishi.Client.{Client}
use go_iot_client.Mitsubishi.Request.{exchange}
use go_iot_client.Net.Stream.Steps.{Answered}
use go_iot_client.Mitsubishi.Words.{device_range}
use go_iot_client.Mock.{update, cells, store}
use go_iot_client.Mock.Session.{mock_peer}
use go_iot_client.Mock.Exchange.{exchange-store, exchange-cells}

-- An address that no word goes to.
store-other :
    (words : ℕ → ℕ) (addr : ℕ) (values : List ℕ) (b : ℕ)
    → addr < 65536
    → ((i : ℕ) → i < length values → (addr + i) % 65536 ≢ b)
    → store words addr values b ≡ words b
unfolding store
store-other words addr [] b fits h = refl
store-other words addr (v ∷ vs) b fits h =
    store-other (update words addr v) ((addr + 1) % 65536) vs b (omega arith) later
    ∙ ground (arith, first)
  where
    first : addr ≢ b
    first e = h 0 (omega arith) (omega arith)

    later : (i : ℕ) → i < length vs → ((addr + 1) % 65536 + i) % 65536 ≢ b
    later i lt e = h (suc i) (omega arith) (omega arith)

-- Up to 65536 words that were stored from an address on are the words from there on.
pub cells-store :
    (words : ℕ → ℕ) (addr : ℕ) (values : List ℕ)
    → addr < 65536
    → length values ≤ 65536
    → cells (store words addr values) addr (length values) ≡ values
unfolding cells store
cells-store words addr [] fits h = refl
cells-store words addr (v ∷ vs) fits h =
    ap₂ (λ x xs. x ∷ xs)
      (store-other (update words addr v) ((addr + 1) % 65536) vs addr (omega arith)
          (λ i lt e. absurd (omega arith))
        ∙ ground arith)
      (cells-store (update words addr v) ((addr + 1) % 65536) vs (omega arith) (omega arith))

module _ (c : Client (stream mock_peer)) (timeout : ℤ)
    (s : State (stream mock_peer) (Client (stream mock_peer))) (addr : ℕ) (values : List ℕ) where
  abbrev written : Outcome (List ℕ) × State (stream mock_peer) (Client (stream mock_peer))
  written =
      exchange (stream mock_peer) c tt 0x1401 0x0000
        (device_range addr (length values) ++ words_to_bytes little values) timeout s

  -- On a stream to a mock PLC that has no failure to inject, with nothing left to read: after the
  -- exchange that writes at most 32761 words, the exchange that reads as many from the same address
  -- returns the bytes of exactly these words, also where the addresses wrap at 65536, however the
  -- answers are cut into chunks.
  pub exchange-written :
      s.world.inbox ≡ []
      → s.world.device.fail_next_request ≡ false
      → addr < 65536
      → length values < 32762
      → All IsWord values
      → (exchange
          (stream mock_peer)
          c
          tt
          0x0401
          0x0000
          (device_range addr (length values))
          timeout
          written.1).0
        ≡ ok (words_to_bytes little values)
  exchange-written empty plain fits small w =
      (exchange-cells c timeout written.1 after.3 (ap (λ d. d.fail_next_request) after.2 ∙ plain)
        addr fits (length values) (omega arith)).0
      ∙ ap (λ d. ok (words_to_bytes little (cells d.words addr (length values)))) after.2
      ∙ ap (λ ws. ok (words_to_bytes little ws))
          (cells-store s.world.device.words addr values fits (omega arith))
    where
      after :
          Answered mock_peer
            (ok [])
            s.client
            (record s.world.device { words = store s.world.device.words addr values })
            written
      after = exchange-store c timeout s empty plain addr fits values small w
