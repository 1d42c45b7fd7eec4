-- ===== src/Mitsubishi/Request/Exchange.antt =====
-- One exchange on a stream: the frame goes to the device, its answer comes back.
use go_iot_client.Base.{ℕ, ◌≡◌, refl, sym, List, [], ◌++◌, append-nil, length}
use mathlib.Core.Path.{subst}
use go_iot_client.Base.Int.{ℤ}
use go_iot_client.Base.Words.{little}
use go_iot_client.Base.Slices.{word_at}
use go_iot_client.Base.Outcome.{ok, continue, lift, ◌>>=◌}
use go_iot_client.Net.{State, on_world}
use go_iot_client.Net.Stream.{Peer, stream}
use go_iot_client.Net.Stream.Laws.{line}
use go_iot_client.Net.Stream.Steps.{Answered, read_result, arrived}
use go_iot_client.Mitsubishi.Client.{Client, Call}
use go_iot_client.Mitsubishi.Request.{read_full, request_frame, body_data, exchange}
use go_iot_client.Mitsubishi.Request.Stream.{read_full-Reads}

-- What `exchange` does after it has written the frame.
abbrev received : (P : Peer) → Call (stream P) (List ℕ)
received P = on_world (stream P) (read_full (stream P) tt 9) >>= λ head.
    lift (word_at little head 7) >>= λ response_length.
    on_world (stream P) (read_full (stream P) tt response_length) >>= λ body. lift (body_data body)

module _ (P : Peer) (c : Client (stream P)) (d : P.Device) where
  abbrev state : List ℕ → List ℕ → State (stream P) (Client (stream P))
  state inbox pace = record { client = c; world = line P d inbox pace }

  body-Answered :
      (body pace : List ℕ)
      → Answered P (body_data body) c d (
          continue
            (on_world (stream P) (read_full (stream P) tt (length body)) (state body pace))
            (λ ys. lift (body_data ys)))
  body-Answered body pace =
      read_result P (state body pace) body [] d (λ ys. lift (body_data ys))
        (Answered P (body_data body) c d)
        (read_full (stream P) tt (length body) (line P d body pace))
        (read_full-Reads P (length body) body [] (line P d body pace) refl (sym (append-nil body)))
        (λ pace'. (refl, refl, refl, refl))

  received-Answered :
      (head body pace : List ℕ)
      → length head ≡ 9
      → word_at little head 7 ≡ ok (length body)
      → Answered P (body_data body) c d (received P (state (head ++ body) pace))
  received-Answered head body pace nine count =
      read_result P (state (head ++ body) pace) head body d _ (Answered P (body_data body) c d)
        (read_full (stream P) tt 9 (line P d (head ++ body) pace))
        (read_full-Reads P 9 head body (line P d (head ++ body) pace) nine refl)
        (λ pace'. rw count (body-Answered body pace'))

-- A device that answers a request with nine bytes, the last two of which count the bytes behind them:
-- the exchange returns what the checks on those bytes make of them, however the answer is cut into
-- chunks, reads the answer to its end, and leaves the client alone. The frame that the device got is the
-- one for this client and this request.
pub exchange-Answered :
    (P : Peer) (c : Client (stream P)) (command subcommand : ℕ) (payload : List ℕ) (timeout : ℤ)
    (s : State (stream P) (Client (stream P))) (head body : List ℕ) (d : P.Device)
    → s.world.inbox ≡ []
    → P.answer (request_frame c command subcommand payload) s.world.device ≡ (head ++ body, d)
    → length head ≡ 9
    → word_at little head 7 ≡ ok (length body)
    → Answered P
        (body_data body)
        s.client
        d
        (exchange (stream P) c tt command subcommand payload timeout s)
unfolding exchange
exchange-Answered P c command subcommand payload timeout s head body d empty answered nine count =
    subst (λ w. Answered P (body_data body) s.client d (received P (record s { world = w })))
      (sym (
        arrived P (request_frame c command subcommand payload) (head ++ body) d s.world empty
          answered))
      (received-Answered P s.client d head body s.world.pace nine count)
