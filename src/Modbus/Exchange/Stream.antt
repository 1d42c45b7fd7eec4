-- ===== src/Modbus/Exchange/Stream.antt =====
-- A request on a stream to a device that speaks the client's framing.
use go_iot_client.Base.{
  ℕ, ◌+◌, ◌%◌, ◌<◌, ◌≡◌, refl, sym, ap, Option, none, some, List, [], All, inl, inr, Option-cases,
  arith,
}
use mathlib.Core.Path.{subst}
use go_iot_client.Base.Outcome.{Outcome, ok}
use go_iot_client.Base.Words.{IsByte}
use go_iot_client.Net.{Net, State}
use go_iot_client.Net.Stream.{Peer, Line, stream}
use go_iot_client.Net.Stream.Steps.{Answered}
use go_iot_client.Modbus.Client.{
  Client, WireMode, mode_tcp, mode_rtu_over_tcp, mode_rtu, mode_ascii, Dialer, tcp_dial,
  serial_dial, dial_by, connect, ensure_conn,
}
use go_iot_client.Modbus.Frame.{
  check_exception, tcp_exchange, rtu_exchange, ascii_exchange, send_tcp_frame, send_rtu_frame,
  send_ascii_frame,
}
use go_iot_client.Modbus.Frame.Stream.{IsReply}
use go_iot_client.Modbus.Frame.Wire.{framed, answers_tcp, answers_rtu, answers_ascii}
use go_iot_client.Modbus.Frame.Exchange.{
  IsReply-bytes, tcp_exchange-Answered, rtu_exchange-Answered, ascii_exchange-Answered,
}
use go_iot_client.Modbus.Exchange.{send_frame, send_pdu_once}

-- The device takes the frames of PDUs of bytes for a unit in a wire mode, does with the PDU what `serve`
-- says, and sends the frame of the reply, with the transaction id that it got.
abbrev pub Serves : (P : Peer) → WireMode → ℕ → (List ℕ → P.Device → List ℕ × P.Device) → Type 0
Serves P mode unit_id serve =
    (pdu : List ℕ)
    → All IsByte pdu
    → (trans_id : ℕ) → trans_id < 65536
    → (d : P.Device)
    → IsReply (serve pdu d).0
      × (P.answer (framed mode trans_id unit_id pdu) d
          ≡ (framed mode trans_id unit_id (serve pdu d).0, (serve pdu d).1))

-- What a request keeps of the settings.
abbrev pub Kept : {N : Net} → Client N → Client N → Type 0
Kept c c' = (c'.mode ≡ c.mode) × (c'.unit_id ≡ c.unit_id) × (c'.retry ≡ c.retry)

module _ (P : Peer) where
  abbrev ready : State (stream P) (Client (stream P)) → State (stream P) (Client (stream P))
  ready s = record s { client = record s.client { conn = some tt } }

  pub dial_by-stream :
      (dial : Option Dialer) (c : Client (stream P)) (w : Line P.Device)
      → w.inbox ≡ []
      → dial_by (stream P) dial c w ≡ (ok tt, w)
  unfolding dial_by
  dial_by-stream none c w h = ap (λ (i : List ℕ). (ok tt, record w { inbox = i })) (sym h)
  dial_by-stream (some tcp_dial) c w h =
      ap (λ (i : List ℕ). (ok tt, record w { inbox = i })) (sym h)
  dial_by-stream (some serial_dial) c w h =
      ap (λ (i : List ℕ). (ok tt, record w { inbox = i })) (sym h)

  -- A client without a connection dials first.
  once-ready :
      (pdu : List ℕ) (s : State (stream P) (Client (stream P)))
      → s.world.inbox ≡ []
      → send_pdu_once (stream P) pdu s ≡ send_frame (stream P) s.client.mode pdu (ready s)
  unfolding send_pdu_once ensure_conn connect
  once-ready pdu s empty = elim (Option-cases s.client.conn) [
    | inl p ↦
        rw
          (p, dial_by-stream s.client.dial (record s.client { conn = none }) s.world empty, connect)
          refl
    | inr (x, p) ↦ rw p refl
  ]

module _ (P : Peer) (serve : List ℕ → P.Device → List ℕ × P.Device) (pdu : List ℕ)
    (s : State (stream P) (Client (stream P))) where
  -- What is left of a request that the device answered.
  abbrev pub Replied : Outcome (List ℕ) × State (stream P) (Client (stream P)) → Type 0
  Replied (out, s') =
      (out ≡ check_exception (serve pdu s.world.device).0)
      × Kept s.client s'.client
      × (s'.world.device ≡ (serve pdu s.world.device).1)
      × (s'.world.inbox ≡ [])

  Answered-Replied :
      (c : Client (stream P)) (r : Outcome (List ℕ) × State (stream P) (Client (stream P)))
      → Kept s.client c
      → Answered P (check_exception (serve pdu s.world.device).0) c (serve pdu s.world.device).1 r
      → Replied r
  Answered-Replied c (out, s') k h = (h.0, subst (Kept s.client) (sym h.1) k, h.2, h.3)

  module _ (u : IsByte s.client.unit_id) (bs : All IsByte pdu) (empty : s.world.inbox ≡ []) where
    send_rtu_frame-Replied :
        Serves P mode_rtu s.client.unit_id serve
        → Replied (send_rtu_frame (stream P) pdu (ready P s))
    unfolding send_rtu_frame
    send_rtu_frame-Replied h =
        let c = (ready P s).client in
        let (reply, answered) = h pdu bs 0 (omega arith) s.world.device in
        Answered-Replied c (rtu_exchange (stream P) c tt pdu (ready P s)) (refl, refl, refl)
          (rtu_exchange-Answered P c pdu _ _ (ready P s) reply empty u
            (answers_rtu P _ _ _ _ _ answered))

    send_frame-Replied :
        (mode : WireMode)
        → Serves P mode s.client.unit_id serve
        → Replied (send_frame (stream P) mode pdu (ready P s))
    unfolding send_tcp_frame send_ascii_frame
    send_frame-Replied mode_tcp h =
        let tid = (s.client.trans_id + 1) % 65536 in
        let c = record s.client { conn = some tt; trans_id = tid } in
        let (reply, answered) = h pdu bs tid (omega arith) s.world.device in
        Answered-Replied c (tcp_exchange (stream P) c tt pdu (record s { client = c }))
          (refl, refl, refl)
          (tcp_exchange-Answered P c pdu _ _ (record s { client = c }) reply empty (omega arith)
            (answers_tcp P _ _ _ _ _ tid answered))
    send_frame-Replied mode_rtu_over_tcp h = send_rtu_frame-Replied h
    send_frame-Replied mode_rtu h = send_rtu_frame-Replied h
    send_frame-Replied mode_ascii h =
        let c = (ready P s).client in
        let (reply, answered) = h pdu bs 0 (omega arith) s.world.device in
        Answered-Replied c (ascii_exchange (stream P) c tt pdu (ready P s)) (refl, refl, refl)
          (ascii_exchange-Answered P c pdu _ _ (ready P s) reply empty u
            (answers_ascii P _ _ _ _ _ u bs (IsReply-bytes _ reply) answered))

    -- One attempt brings the device's reply, whatever the mode, for a client connected or not.
    pub send_pdu_once-Replied :
        Serves P s.client.mode s.client.unit_id serve → Replied (send_pdu_once (stream P) pdu s)
    send_pdu_once-Replied h =
        subst Replied (sym (once-ready P pdu s empty)) (send_frame-Replied s.client.mode h)
