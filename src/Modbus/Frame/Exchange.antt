-- ===== src/Modbus/Frame/Exchange.antt =====
-- One exchange on a stream, in each of the three framings.
use go_iot_client.Base.{
  ℕ, ◌+◌, ◌%◌, ◌<◌, ◌≡◌, refl, sym, ap, false, List, [], ◌∷◌, ◌++◌, map, length, length-append,
  append-nil, append_assoc, All, All-append, weaken-All, ◌==◌, arith,
}
use mathlib.Core.Path.{subst}
use go_iot_client.Base.Outcome.{ok, ◌>>=◌, continue, lift}
use go_iot_client.Base.Words.{IsByte, big, put_uint16}
use go_iot_client.Base.Slices.{index, word_at}
use go_iot_client.Text.{is_space, to_upper, hex_encode}
use go_iot_client.Net.{State, on_world}
use go_iot_client.Net.Full.{read_full}
use go_iot_client.Net.Stream.{Peer, stream}
use go_iot_client.Net.Stream.Laws.{Reads, line, read_full-Reads}
use go_iot_client.Net.Stream.Steps.{Answered, read_result, bytes_result, arrived}
use go_iot_client.Modbus.Checksum.{lrc}
use go_iot_client.Modbus.Checksum.Lrc.{lrc-IsByte}
use go_iot_client.Modbus.Client.{Client, Call}
use go_iot_client.Modbus.Frame.{
  check_exception, tcp_frame, rtu_frame, ascii_frame, tcp_body_length, rtu_pdu, ascii_line_pdu,
  read_rtu_response, ascii_loop, read_ascii_line, tcp_exchange, rtu_exchange, ascii_exchange,
}
use go_iot_client.Modbus.Frame.Rtu.{rtu_pdu-checked_frame}
use go_iot_client.Modbus.Frame.Ascii.{
  length-hex_encode, hex_encode-no_space, ascii_line_pdu-checked,
}
use go_iot_client.Modbus.Frame.Stream.{
  IsReply, exception, counted, echo, is_read-small, is_write-small, read_rtu_response-Reads,
  ascii_loop-Reads,
}

pub IsReply-bytes : (reply : List ℕ) → IsReply reply → All IsByte reply
IsReply-bytes reply (exception f code h b) = (omega arith, (b, tt))
IsReply-bytes reply (counted f xs r bs h) = (omega (arith, is_read-small f r), (omega arith, bs))
IsReply-bytes reply (echo f a b c d w bs) = (omega (arith, is_write-small f w), bs)

IsReply-size : (reply : List ℕ) → IsReply reply → (1 < length reply) × (length reply < 253)
IsReply-size reply (exception f code h b) = (omega arith, omega arith)
IsReply-size reply (counted f xs r bs h) = (omega arith, omega arith)
IsReply-size reply (echo f a b c d w bs) = (omega arith, omega arith)

rtu_pdu-reply :
    (unit_id : ℕ) (reply : List ℕ)
    → IsByte unit_id
    → All IsByte reply
    → 1 < length reply
    → rtu_pdu unit_id (rtu_frame unit_id reply) ≡ check_exception reply
rtu_pdu-reply unit_id [] u bs h = absurd (omega arith)
rtu_pdu-reply unit_id (f ∷ rest) u bs h =
    rtu_pdu-checked_frame unit_id f rest u bs.0 bs.1 (omega arith)

ascii_line_pdu-reply :
    (unit_id : ℕ) (reply : List ℕ)
    → IsByte unit_id
    → All IsByte reply
    → 1 < length reply
    → ascii_line_pdu unit_id (ascii_frame unit_id reply) ≡ check_exception reply
ascii_line_pdu-reply unit_id [] u bs h = absurd (omega arith)
ascii_line_pdu-reply unit_id (f ∷ rest) u bs h = ascii_line_pdu-checked unit_id f rest u bs.0 bs.1

no_space-no_feed : (c : ℕ) → is_space c ≡ false → (c == 10) ≡ false
no_space-no_feed c h = ground arith

module _ (P : Peer) (unit_id : ℕ) (reply pace : List ℕ) (d : P.Device) (u : IsByte unit_id)
    (h : IsReply reply) where
  -- The line without its line feed.
  abbrev text : List ℕ
  text =
      b':'
      ∷ (map to_upper (hex_encode ((unit_id ∷ reply) ++ (lrc (unit_id ∷ reply) ∷ []))) ++ (13 ∷ []))

  raw-IsByte : All IsByte ((unit_id ∷ reply) ++ (lrc (unit_id ∷ reply) ∷ []))
  raw-IsByte =
      All-append IsByte (unit_id ∷ reply) (lrc (unit_id ∷ reply) ∷ []) (u, IsReply-bytes reply h)
        (lrc-IsByte (unit_id ∷ reply), tt)

  read_ascii_line-Reads :
      Reads P
        (ascii_frame unit_id reply)
        []
        d
        (read_ascii_line (stream P) tt (line P d (ascii_frame unit_id reply) pace))
  unfolding read_ascii_line ascii_frame
  read_ascii_line-Reads =
      let digits = map to_upper (hex_encode ((unit_id ∷ reply) ++ (lrc (unit_id ∷ reply) ∷ []))) in
      let size : length text < 1024 = omega (
        arith,
        length-append digits (13 ∷ []),
        length-hex_encode ((unit_id ∷ reply) ++ (lrc (unit_id ∷ reply) ∷ [])),
        length-append (unit_id ∷ reply) (lrc (unit_id ∷ reply) ∷ []),
        IsReply-size reply h,
      ) in
      let no_feed : All (λ c. (c == 10) ≡ false) text = (
        refl,
        All-append (λ c. (c == 10) ≡ false) digits (13 ∷ [])
            (weaken-All _ _ digits no_space-no_feed (hex_encode-no_space _ raw-IsByte)) (refl, tt),
      ) in
      subst (λ xs. Reads P xs [] d (ascii_loop (stream P) tt 1024 [] (line P d xs pace)))
        (ap (λ xs. b':' ∷ xs) (append_assoc digits (13 ∷ []) (10 ∷ [])))
        (ascii_loop-Reads P d 1024 [] text pace no_feed size)

-- The MBAP header of a reply passes the checks, and counts the reply.
tcp_body_length-reply :
    (trans_id unit_id : ℕ) (reply : List ℕ)
    → trans_id < 65536
    → 1 < length reply
    → length reply < 253
    → tcp_body_length trans_id unit_id (
        put_uint16 big trans_id
        ++ (0 ∷ 0 ∷ (put_uint16 big ((length reply + 1) % 65536) ++ (unit_id ∷ []))))
      ≡ ok (length reply)
unfolding tcp_body_length word_at index
tcp_body_length-reply trans_id unit_id reply i some_bytes short = ground arith

-- What `tcp_exchange` does after it has written the frame.
abbrev received : (P : Peer) → Client (stream P) → Call (stream P) (List ℕ)
received P c = on_world (stream P) (read_full (stream P) tt 7) >>= λ head.
    lift (tcp_body_length c.trans_id c.unit_id head) >>= λ body_length.
    on_world (stream P) (read_full (stream P) tt body_length) >>= λ resp.
    lift (check_exception resp)

module _ (P : Peer) (c c' : Client (stream P)) (reply pace : List ℕ) (d : P.Device)
    (h : IsReply reply) where
  abbrev reading : List ℕ → List ℕ → State (stream P) (Client (stream P))
  reading inbox pace' = record { client = c'; world = line P d inbox pace' }

  received-Answered :
      c.trans_id < 65536
      → Answered P
          (check_exception reply)
          c'
          d
          (received P c (reading (tcp_frame c.trans_id c.unit_id reply) pace))
  unfolding tcp_frame
  received-Answered i =
      bytes_result P 7
        (put_uint16 big c.trans_id
          ++ (0 ∷ 0 ∷ (put_uint16 big ((length reply + 1) % 65536) ++ (c.unit_id ∷ []))))
        reply pace d c' _ (Answered P (check_exception reply) c' d) refl
        (λ pace'.
          rw
            (tcp_body_length-reply c.trans_id c.unit_id reply i (IsReply-size reply h).0
              (IsReply-size reply h).1)
            (read_result P (reading reply pace') reply [] d _
              (Answered P (check_exception reply) c' d)
              (read_full (stream P) tt (length reply) (line P d reply pace'))
              (read_full-Reads P (length reply) reply [] _ refl (sym (append-nil reply)))
              (λ pace''. (refl, refl, refl, refl))))

module _ (P : Peer) (c : Client (stream P)) (pdu reply : List ℕ) (d : P.Device)
    (s : State (stream P) (Client (stream P))) (h : IsReply reply)
    (empty : s.world.inbox ≡ []) where
  pub tcp_exchange-Answered :
      c.trans_id < 65536
      → P.answer (tcp_frame c.trans_id c.unit_id pdu) s.world.device
        ≡ (tcp_frame c.trans_id c.unit_id reply, d)
      → Answered P (check_exception reply) s.client d (tcp_exchange (stream P) c tt pdu s)
  unfolding tcp_exchange
  tcp_exchange-Answered i answered =
      subst
        (λ w. Answered P (check_exception reply) s.client d (received P c (record s { world = w })))
        (sym (
          arrived P (tcp_frame c.trans_id c.unit_id pdu) (tcp_frame c.trans_id c.unit_id reply) d
            s.world empty answered))
        (received-Answered P c s.client reply s.world.pace d h i)

  pub rtu_exchange-Answered :
      IsByte c.unit_id
      → P.answer (rtu_frame c.unit_id pdu) s.world.device ≡ (rtu_frame c.unit_id reply, d)
      → Answered P (check_exception reply) s.client d (rtu_exchange (stream P) c tt pdu s)
  unfolding rtu_exchange
  rtu_exchange-Answered u answered =
      subst
        (λ w. Answered P (check_exception reply) s.client d (
          continue (on_world (stream P) (read_rtu_response (stream P) tt) (record s { world = w }))
            (λ response. lift (rtu_pdu c.unit_id response))))
        (sym (
          arrived P (rtu_frame c.unit_id pdu) (rtu_frame c.unit_id reply) d s.world empty answered))
        (read_result P (record s { world = line P d (rtu_frame c.unit_id reply) s.world.pace })
          (rtu_frame c.unit_id reply) [] d _ (Answered P (check_exception reply) s.client d)
          (read_rtu_response (stream P) tt (line P d (rtu_frame c.unit_id reply) s.world.pace))
          (unfold rtu_frame in read_rtu_response-Reads P c.unit_id _ _ d reply s.world.pace h)
          (λ pace'. (
            rtu_pdu-reply c.unit_id reply u (IsReply-bytes reply h) (IsReply-size reply h).0,
            refl,
            refl,
            refl,
          )))

  pub ascii_exchange-Answered :
      IsByte c.unit_id
      → P.answer (ascii_frame c.unit_id pdu) s.world.device ≡ (ascii_frame c.unit_id reply, d)
      → Answered P (check_exception reply) s.client d (ascii_exchange (stream P) c tt pdu s)
  unfolding ascii_exchange
  ascii_exchange-Answered u answered =
      subst
        (λ w. Answered P (check_exception reply) s.client d (
          continue (on_world (stream P) (read_ascii_line (stream P) tt) (record s { world = w }))
            (λ text. lift (ascii_line_pdu c.unit_id text))))
        (sym (
          arrived P (ascii_frame c.unit_id pdu) (ascii_frame c.unit_id reply) d s.world empty
            answered))
        (read_result P (record s { world = line P d (ascii_frame c.unit_id reply) s.world.pace })
          (ascii_frame c.unit_id reply) [] d _ (Answered P (check_exception reply) s.client d)
          (read_ascii_line (stream P) tt (line P d (ascii_frame c.unit_id reply) s.world.pace))
          (read_ascii_line-Reads P c.unit_id reply s.world.pace d u h)
          (λ pace'. (
            ascii_line_pdu-reply c.unit_id reply u (IsReply-bytes reply h) (IsReply-size reply h).0,
            refl,
            refl,
            refl,
          )))
