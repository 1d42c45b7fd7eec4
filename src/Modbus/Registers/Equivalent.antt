-- ===== src/Modbus/Registers/Equivalent.antt =====
-- Requests to registers and coils in two wire modes.
use go_iot_client.Base.{
  ℕ, ◌≡◌, refl, sym, ap, ◌∙◌, Bool, List, [], ◌∷◌, length, All, ltb, Bool-cases, inl, inr,
}
use go_iot_client.Base.Int.{pos_part}
use go_iot_client.Base.Outcome.{Outcome, lift, continue}
use go_iot_client.Base.Alike.{Alike, continue-Alike}
use go_iot_client.Base.Words.{IsByte}
use go_iot_client.Core.{normalize}
use go_iot_client.Net.{Net, State}
use go_iot_client.Net.Stream.{stream}
use go_iot_client.Modbus.Client.{Client}
use go_iot_client.Modbus.Exchange.{send_pdu}
use go_iot_client.Modbus.Exchange.Stream.{Serves, Kept}
use go_iot_client.Modbus.Exchange.Refines.{master, send_pdu-Models}
use go_iot_client.Modbus.Registers.Bytes.{
  read_request-bytes, coil_request-bytes, write_bytes, write_request-bytes, write_bytes-IsByte,
}
use go_iot_client.Modbus.Registers.{
  read_request, registers_of, coil_request, read_registers, write_checked, write_registers,
  write_coil,
}

-- A device behind a connection.
abbrev pub behind : {D : Type 0} → (List ℕ → D → List ℕ × D) → Net
behind {D} answer = stream (record { Device = D; answer = answer })

module _ {D : Type 0} (answer answer' : List ℕ → D → List ℕ × D) (serve : List ℕ → D → List ℕ × D)
    (c : Client (behind answer)) (c' : Client (behind answer')) where
  -- Two clients with the settings of `c` and of `c'`, nothing to read, and devices in one state.
  abbrev pub Match :
      State (behind answer) (Client (behind answer))
      → State (behind answer') (Client (behind answer'))
      → Type 0
  Match s t =
      (Kept c s.client × (s.world.inbox ≡ []))
      × (Kept c' t.client × (t.world.inbox ≡ []))
      × (s.world.device ≡ t.world.device)

  -- The two devices do the same behind their framings, and the clients have their unit ids and one retry policy.
  pub record IsPair : Type 0 where
    pub serves : Serves (record { Device = D; answer = answer }) c.mode c.unit_id serve
    pub serves' : Serves (record { Device = D; answer = answer' }) c'.mode c'.unit_id serve
    pub unit : IsByte c.unit_id
    pub unit' : IsByte c'.unit_id
    pub same_retry : c.retry ≡ c'.retry

  module _ (p : IsPair) (s : State (behind answer) (Client (behind answer)))
      (t : State (behind answer') (Client (behind answer'))) (m : Match s t) where
    send_pdu-Alike :
        (pdu : List ℕ)
        → All IsByte pdu
        → Alike Match (send_pdu (behind answer) pdu s) (send_pdu (behind answer') pdu t)
    send_pdu-Alike pdu bs =
        let left =
          send_pdu-Models (record { Device = D; answer = answer }) serve c p.unit p.serves pdu bs s
            t.world.device (m.0, m.2) in
        let right =
          send_pdu-Models (record { Device = D; answer = answer' }) serve c' p.unit' p.serves' pdu
            bs t t.world.device (m.1, refl) in
        let one =
          ap (λ r. master serve (pos_part (normalize r).max_retries) pdu t.world.device)
            p.same_retry in
        (
          left.0 ∙ ap (λ r. r.0) one ∙ sym right.0,
          (left.1.0, right.1.0, left.1.1 ∙ ap (λ r. r.1) one ∙ sym right.1.1),
        )

    -- A request, and what is made of its answer.
    answer-Alike :
        {B : Type 0} (pdu : List ℕ) (check : List ℕ → Outcome B)
        → All IsByte pdu
        → Alike Match
            (continue (send_pdu (behind answer) pdu s) (λ resp. lift (check resp)))
            (continue (send_pdu (behind answer') pdu t) (λ resp. lift (check resp)))
    answer-Alike pdu check bs =
        continue-Alike Match (send_pdu (behind answer) pdu s) (send_pdu (behind answer') pdu t) _ _
          (send_pdu-Alike pdu bs) (λ resp s' t' m'. (refl, m'))

    pub read_registers-Alike :
        (address count function : ℕ)
        → IsByte function
        → Alike Match
            (read_registers (behind answer) address count function s)
            (read_registers (behind answer') address count function t)
    unfolding read_registers
    read_registers-Alike address count function h =
        answer-Alike (read_request address count function) (registers_of count function)
          (read_request-bytes address count function h)

    pub write_coil-Alike :
        (address : ℕ) (value : Bool)
        → Alike Match
            (write_coil (behind answer) address value s)
            (write_coil (behind answer') address value t)
    unfolding write_coil
    write_coil-Alike address value =
        answer-Alike (coil_request address value) _ (coil_request-bytes address value)

    write_checked-Alike :
        (address : ℕ) (values : List ℕ)
        → Alike Match
            (write_checked (behind answer) address values s)
            (write_checked (behind answer') address values t)
    write_checked-Alike address values =
        rw (write_request-bytes address values)
          (answer-Alike (write_bytes address values) _ (write_bytes-IsByte address values))

    pub write_registers-Alike :
        (address : ℕ) (values : List ℕ)
        → Alike Match
            (write_registers (behind answer) address values s)
            (write_registers (behind answer') address values t)
    unfolding write_registers
    write_registers-Alike address [] = (refl, m)
    write_registers-Alike address (v ∷ vs) = elim (Bool-cases (ltb 123 (length (v ∷ vs)))) [
      | inl e ↦ rw e (refl, m)
      | inr e ↦ rw e (write_checked-Alike address (v ∷ vs))
    ]
