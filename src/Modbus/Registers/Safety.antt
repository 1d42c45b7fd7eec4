-- ===== src/Modbus/Registers/Safety.antt =====
-- The requests return, whatever the device answers.
use go_iot_client.Base.{ℕ, ◌≡◌, Bool, List, [], ◌∷◌, length, arith}
use go_iot_client.Base.Words.Laws.{Words, read_words-Words, fill_words-words_to_bytes}
use go_iot_client.Base.Words.{big}
use go_iot_client.Base.Outcome.{
  Error, Outcome, ok, err, panic, lift, continue, NoPanic, Meets, continue-Meets, weaken-Meets,
  invalid_write_register, invalid_write_coil,
}
use go_iot_client.Net.{Net, IsLawful, State}
use go_iot_client.Modbus.Client.{Client, Call}
use go_iot_client.Modbus.Client.Invariant.{IsValid}
use go_iot_client.Net.Keeps.{Keeps, lift-Keeps}
use go_iot_client.Modbus.Exchange.{send_pdu}
use go_iot_client.Modbus.Exchange.Safety.{Served, send_pdu-Request}
use go_iot_client.Modbus.Registers.{
  read_request, registers_of, write_request, coil_request, check_echo, read_registers,
  write_checked, write_registers, write_coil,
}

-- The decoding of any response returns: an error, or as many registers as were asked for.
pub registers_of-Words :
    (count function : ℕ) (resp : List ℕ) → Words count (registers_of count function resp)
unfolding registers_of
registers_of-Words count function [] = tt
registers_of-Words count function (f ∷ []) = tt
registers_of-Words count function (f ∷ n ∷ registers) =
    ground (arith, read_words-Words big count registers)

check_echo-NoPanic :
    (function : ℕ) (e : Error) (resp : List ℕ) → NoPanic (check_echo function e resp)
check_echo-NoPanic function e (f ∷ a ∷ b ∷ c ∷ d ∷ []) = ground arith
check_echo-NoPanic function e _ = tt

-- The loop that fills the payload stays within it.
write_request-NoPanic : (address : ℕ) (values : List ℕ) → NoPanic (write_request address values)
unfolding write_request
write_request-NoPanic address values = rw (fill_words-words_to_bytes big values) tt

module _ (N : Net) (L : IsLawful N) (s : State N (Client N)) (v : IsValid s.client) where
  send_pdu-Keeps : (pdu : List ℕ) → Keeps (Served s.client) (send_pdu N pdu s)
  send_pdu-Keeps pdu =
      weaken-Meets _ (λ _ s'. Served s.client s'.client) _ (λ _ s'. Served s.client s'.client)
        (send_pdu N pdu s) (send_pdu-Request N L pdu s v) (λ _ _ h. h.0) (λ _ _ h. h.0)

  -- A request, and what is made of its answer.
  answer_then :
      {B : Type 0} (pdu : List ℕ) (check : List ℕ → Outcome B) (P : B → Type 0)
      → ((resp : List ℕ) → Meets (λ b (_ : Unit {0}). P b) (λ _ _. Unit {0}) (check resp, tt))
      → Meets
          (λ b s'. P b × Served s.client s'.client)
          (λ _ s'. Served s.client s'.client)
          (continue (send_pdu N pdu s) (λ resp. lift (check resp)))
  answer_then pdu check P g =
      continue-Meets (λ _ s'. Served s.client s'.client) _ _ (send_pdu N pdu s) _
        (send_pdu-Keeps pdu) λ resp s' h. ground (arith, g resp)

  pub read_registers-Meets :
      (address count function : ℕ)
      → Meets
          (λ ws s'. (length ws ≡ count) × Served s.client s'.client)
          (λ _ s'. Served s.client s'.client)
          (read_registers N address count function s)
  unfolding read_registers
  read_registers-Meets address count function =
      answer_then (read_request address count function) (registers_of count function)
        (λ ws. length ws ≡ count) (λ resp. ground (arith, registers_of-Words count function resp))

  checked_answer :
      {B : Type 0} (pdu : List ℕ) (check : List ℕ → Outcome B)
      → ((resp : List ℕ) → NoPanic (check resp))
      → Keeps (Served s.client) (continue (send_pdu N pdu s) (λ resp. lift (check resp)))
  checked_answer pdu check g =
      continue-Meets (λ _ s'. Served s.client s'.client) _ _ (send_pdu N pdu s) _
        (send_pdu-Keeps pdu) λ resp s' h. lift-Keeps N (Served s.client) s' h (check resp) (g resp)

  -- A step that works on no state.
  pub lift_then :
      {A B : Type 0} (r : Outcome A) (f : A → Call N B)
      → NoPanic r
      → ((a : A) → Keeps (Served s.client) (f a s))
      → Keeps (Served s.client) (continue (lift r s) f)
  lift_then (ok a) f n k = k a
  lift_then (err e) f n k = ground arith
  lift_then panic f n k = n

  write_checked-Keeps :
      (address : ℕ) (values : List ℕ) → Keeps (Served s.client) (write_checked N address values s)
  write_checked-Keeps address values =
      lift_then (write_request address values) _ (write_request-NoPanic address values) λ payload.
        checked_answer payload (check_echo 0x10 invalid_write_register)
          (check_echo-NoPanic 0x10 invalid_write_register)

  pub write_registers-Keeps :
      (address : ℕ) (values : List ℕ) → Keeps (Served s.client) (write_registers N address values s)
  unfolding write_registers
  write_registers-Keeps address [] = ground arith
  write_registers-Keeps address (x ∷ xs) = ground (arith, write_checked-Keeps address (x ∷ xs))

  pub write_coil-Keeps :
      (address : ℕ) (value : Bool) → Keeps (Served s.client) (write_coil N address value s)
  unfolding write_coil
  write_coil-Keeps address value =
      checked_answer (coil_request address value) (check_echo 0x05 invalid_write_coil)
        (check_echo-NoPanic 0x05 invalid_write_coil)
