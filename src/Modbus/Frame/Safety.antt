-- ===== src/Modbus/Frame/Safety.antt =====
-- No framing panics, whatever the device sends.
use go_iot_client.Base.{
  ℕ, zero, suc, ◌+◌, ◌-◌, ◌%◌, ◌≡◌, Bool, true, false, Option, none, some, List, [], ◌∷◌, ◌++◌,
  length, take, drop, length-take, arith, ◌==◌,
}
use go_iot_client.Base.Outcome.{
  Outcome, ok, err, panic, lift, continue, ◌>>=◌, NoPanic, Meets, continue-Meets, M,
}
use go_iot_client.Base.Words.{big, little}
use go_iot_client.Base.Slices.{nth, index-nth, slice-take, word_at-nth}
use go_iot_client.Text.{trim_space, hex_decode}
use go_iot_client.Net.{Net, IsLawful, State, on_world}
use go_iot_client.Net.Full.{read_full}
use go_iot_client.Net.Full.Laws.{read_full-Meets}
use go_iot_client.Net.Keeps.{Keeps, lift-Keeps, checked_then, world_then}
use go_iot_client.Modbus.Client.{Client}
use go_iot_client.Modbus.Frame.{
  check_exception, tcp_body_length, tcp_frame, rtu_frame, ascii_frame, rtu_pdu, ascii_pdu,
  ascii_line_pdu, decoded, rtu_rest, rtu_exception, rtu_counted, rtu_echo, read_rtu_response,
  ascii_loop, read_ascii_line, unless_ended, tcp_exchange, rtu_exchange, ascii_exchange,
  send_tcp_frame, send_rtu_frame, send_ascii_frame,
}

check_exception-NoPanic : (xs : List ℕ) → NoPanic (check_exception xs)
unfolding check_exception
check_exception-NoPanic [] = tt
check_exception-NoPanic (f ∷ []) = tt
check_exception-NoPanic (f ∷ c ∷ rest) = ground arith

tcp_body_length-NoPanic :
    (trans_id unit_id : ℕ) (head : List ℕ)
    → length head ≡ 7
    → NoPanic (tcp_body_length trans_id unit_id head)
unfolding tcp_body_length
tcp_body_length-NoPanic trans_id unit_id head e =
    ground (arith, word_at-nth big head 0, index-nth head 6, word_at-nth big head 4)

pub rtu_pdu-NoPanic : (unit_id : ℕ) (response : List ℕ) → NoPanic (rtu_pdu unit_id response)
unfolding rtu_pdu
rtu_pdu-NoPanic unit_id response = ground (
  arith,
  index-nth response 0,
  word_at-nth little response (length response - 2),
  slice-take response 0 (length response - 2),
  slice-take response 1 (length response - 2),
  check_exception-NoPanic (take (length response - 2 - 1) (drop 1 response)),
)

pub ascii_pdu-NoPanic : (unit_id : ℕ) (raw : List ℕ) → NoPanic (ascii_pdu unit_id raw)
unfolding ascii_pdu
ascii_pdu-NoPanic unit_id raw = ground (
  arith,
  index-nth raw 0,
  index-nth raw (length raw - 1),
  slice-take raw 0 (length raw - 1),
  length-take (length raw - 1) raw,
  slice-take message 1 (length message),
  check_exception-NoPanic (take (length message - 1) (drop 1 message)),
)
  where
    message : List ℕ
    message = take (length raw - 1) raw

decoded-NoPanic : (unit_id : ℕ) (raw : Option (List ℕ)) → NoPanic (decoded unit_id raw)
decoded-NoPanic unit_id none = tt
decoded-NoPanic unit_id (some raw) = ascii_pdu-NoPanic unit_id raw

pub ascii_line_pdu-NoPanic : (unit_id : ℕ) (line : List ℕ) → NoPanic (ascii_line_pdu unit_id line)
unfolding ascii_line_pdu
ascii_line_pdu-NoPanic unit_id [] = tt
ascii_line_pdu-NoPanic unit_id (c ∷ line) =
    ground (arith, decoded-NoPanic unit_id (hex_decode (trim_space line)))

-- Any outcome but a panic.
abbrev pub Returns {ℓ} : {W : Type ℓ} {A : Type 0} → Outcome A × W → Type 0
Returns r = Meets (λ _ _. Unit {0}) (λ _ _. Unit {0}) r

module _ (N : Net) (L : IsLawful N) (conn : N.Conn) where
  filled :
      (n : ℕ) (w : N.World) → Meets (λ xs _. length xs ≡ n) (λ _ _. Unit {0}) (read_full N conn n w)
  filled = read_full-Meets N L conn

  rtu_counted-Returns : (first : List ℕ) (w : N.World) → Returns (rtu_counted N conn first w)
  unfolding rtu_counted
  rtu_counted-Returns first w =
      continue-Meets (λ (xs : List ℕ) _. length xs ≡ 1) _ _ (read_full N conn 1 w) _ (filled 1 w)
        λ count w' e.
          rw (index-nth count 0 (omega arith)) (ground (arith, filled (nth count 0 + 2) w'))

  rtu_rest-Returns :
      (first : List ℕ) (function : ℕ) (w : N.World) → Returns (rtu_rest N conn first function w)
  unfolding rtu_rest rtu_exception rtu_echo
  rtu_rest-Returns first function w =
      ground (arith, rtu_counted-Returns first w, filled 3 w, filled 6 w)

  pub read_rtu_response-Returns : (w : N.World) → Returns (read_rtu_response N conn w)
  unfolding read_rtu_response
  read_rtu_response-Returns w =
      continue-Meets (λ (xs : List ℕ) _. length xs ≡ 2) _ _ (read_full N conn 2 w) _ (filled 2 w)
        λ first w' e. rw (index-nth first 1 (omega arith)) (rtu_rest-Returns first (nth first 1) w')

  unless_ended-Returns :
      (ended : Bool) (out : List ℕ) (more : List ℕ → M N.World (List ℕ)) (w : N.World)
      → Returns (more out w)
      → Returns (unless_ended N ended out more w)
  unless_ended-Returns true out more w h = tt
  unless_ended-Returns false out more w h = h

  ascii_loop-Returns :
      (room : ℕ) (out : List ℕ) (w : N.World) → Returns (ascii_loop N conn room out w)
  unfolding ascii_loop
  ascii_loop-Returns zero out w = tt
  ascii_loop-Returns (suc room) out w =
      continue-Meets (λ (xs : List ℕ) _. length xs ≡ 1) _ _ (read_full N conn 1 w) _ (filled 1 w)
        λ one w' e.
          let line = out ++ (nth one 0 ∷ []) in
          rw (index-nth one 0 (omega arith))
            (unless_ended-Returns (nth one 0 == 10) line _ w' (ascii_loop-Returns room line w'))

  pub read_ascii_line-Returns : (w : N.World) → Returns (read_ascii_line N conn w)
  unfolding read_ascii_line
  read_ascii_line-Returns w = ascii_loop-Returns 1024 [] w

module _ (N : Net) (L : IsLawful N) (P : Client N → Type 0) (conn : N.Conn) (pdu : List ℕ) where
  body_then :
      (s : State N (Client N))
      → P s.client
      → (r : Outcome ℕ) → NoPanic r
      → Keeps P (
          continue
            (lift r s)
            λ n. on_world N (read_full N conn n) >>= λ resp. lift (check_exception resp))
  body_then s h (ok n) _ =
      world_then N P s h (λ _. Unit {0}) (read_full N conn n) _
        (ground (arith, read_full-Meets N L conn n s.world))
        λ resp s' _ h'. lift-Keeps N P s' h' (check_exception resp) (check_exception-NoPanic resp)
  body_then s h (err e) _ = h
  body_then s h panic n = n

  tcp_exchange-Keeps :
      (c : Client N) (s : State N (Client N)) → P s.client → Keeps P (tcp_exchange N c conn pdu s)
  unfolding tcp_exchange
  tcp_exchange-Keeps c s h =
      checked_then N P s h (N.write conn (tcp_frame c.trans_id c.unit_id pdu)) _ λ s₁ h₁.
        world_then N P s₁ h₁ (λ xs. length xs ≡ 7) (read_full N conn 7) _
          (read_full-Meets N L conn 7 s₁.world)
          λ head s₂ e h₂.
            body_then s₂ h₂ (tcp_body_length c.trans_id c.unit_id head)
              (tcp_body_length-NoPanic c.trans_id c.unit_id head e)

  rtu_exchange-Keeps :
      (c : Client N) (s : State N (Client N)) → P s.client → Keeps P (rtu_exchange N c conn pdu s)
  unfolding rtu_exchange
  rtu_exchange-Keeps c s h =
      checked_then N P s h (N.write conn (rtu_frame c.unit_id pdu)) _ λ s₁ h₁.
        world_then N P s₁ h₁ (λ _. Unit {0}) (read_rtu_response N conn) _
          (read_rtu_response-Returns N L conn s₁.world)
          λ response s₂ _ h₂.
            lift-Keeps N P s₂ h₂ (rtu_pdu c.unit_id response) (rtu_pdu-NoPanic c.unit_id response)

  ascii_exchange-Keeps :
      (c : Client N) (s : State N (Client N)) → P s.client → Keeps P (ascii_exchange N c conn pdu s)
  unfolding ascii_exchange
  ascii_exchange-Keeps c s h =
      checked_then N P s h (N.write conn (ascii_frame c.unit_id pdu)) _ λ s₁ h₁.
        world_then N P s₁ h₁ (λ _. Unit {0}) (read_ascii_line N conn) _
          (read_ascii_line-Returns N L conn s₁.world)
          λ line s₂ _ h₂.
            lift-Keeps N P s₂ h₂ (ascii_line_pdu c.unit_id line)
              (ascii_line_pdu-NoPanic c.unit_id line)

-- Framing by framing: a method that bumps the transaction id, and two that leave the client alone.
module _ (N : Net) (L : IsLawful N) (P : Client N → Type 0) (pdu : List ℕ) (conn : N.Conn)
    (s : State N (Client N)) (connected : s.client.conn ≡ some conn) where
  pub send_tcp_frame-Keeps :
      P (record s.client { trans_id = (s.client.trans_id + 1) % 65536 })
      → Keeps P (send_tcp_frame N pdu s)
  unfolding send_tcp_frame
  send_tcp_frame-Keeps h =
      ground (arith, tcp_exchange-Keeps N L P conn pdu c (record s { client = c }) h)
    where
      c : Client N
      c = record s.client { trans_id = (s.client.trans_id + 1) % 65536 }

  pub send_rtu_frame-Keeps : P s.client → Keeps P (send_rtu_frame N pdu s)
  unfolding send_rtu_frame
  send_rtu_frame-Keeps h = ground (arith, rtu_exchange-Keeps N L P conn pdu s.client s h)

  pub send_ascii_frame-Keeps : P s.client → Keeps P (send_ascii_frame N pdu s)
  unfolding send_ascii_frame
  send_ascii_frame-Keeps h = ground (arith, ascii_exchange-Keeps N L P conn pdu s.client s h)
