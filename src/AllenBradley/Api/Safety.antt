-- ===== src/AllenBradley/Api/Safety.antt =====
-- Every method returns a result, whatever the connection does and the controller sends.
use go_iot_client.Base.{ℕ, refl, Bool, true, false, not, List, [], ◌∷◌, ltb, ◌||◌, arith}
use go_iot_client.Base.Int.{ℤ, pos, pos_part, is_positive}
use go_iot_client.Base.Words.{little}
use go_iot_client.Base.Slices.{word_at-nth, dword_at-NoPanic}
use go_iot_client.Base.Outcome.{
  Error, Outcome, ok, err, panic, lift, reject, read_length_not_positive, length_not_in_range,
  continue, NoPanic, Meets, continue-Meets, weaken-Meets,
}
use go_iot_client.Text.{trim_space}
use go_iot_client.Core.Report.{Answers, AnswersT, report-Answers, finish_read-AnswersT}
use go_iot_client.Net.{Net, IsLawful, State}
use go_iot_client.AllenBradley.Client.{Client, Call}
use go_iot_client.AllenBradley.Client.Safety.{Same, IsRegistered}
use go_iot_client.AllenBradley.Frame.{
  validate_trimmed, validate_allen_tag, build_read_command, build_write_command,
}
use go_iot_client.AllenBradley.Command.{read_data, read_raw, send_command}
use go_iot_client.AllenBradley.Command.Safety.{read_data-NoPanic, allen_send_command-Meets}
use go_iot_client.AllenBradley.Api.{
  code_value, int16_of, bits32_of, int32_of, int16_body, int32_body, bits32_body, string_body,
  write_body, read_int16, read_int32, read_float, read_string, write,
}
use go_iot_client.Value.{Value, string}

validate_trimmed-NoPanic : (tag : List ℕ) → NoPanic (validate_trimmed tag)
validate_trimmed-NoPanic [] = tt
validate_trimmed-NoPanic (c ∷ tag) = ground arith

validate_allen_tag-NoPanic : (address : List ℕ) → NoPanic (validate_allen_tag address)
unfolding validate_allen_tag
validate_allen_tag-NoPanic address = validate_trimmed-NoPanic (trim_space address)

code_value-NoPanic : (v : Value) → NoPanic (code_value v)
unfolding code_value
code_value-NoPanic (string v) = ground arith
code_value-NoPanic _ = tt

int16_of-NoPanic : (served : List ℕ) → NoPanic (int16_of served)
unfolding int16_of
int16_of-NoPanic served = ground (arith, word_at-nth little served 0)

bits32_of-NoPanic : (served : List ℕ) → NoPanic (bits32_of served)
unfolding bits32_of
bits32_of-NoPanic served = ground (arith, dword_at-NoPanic little served 0)

int32_of-NoPanic : (served : List ℕ) → NoPanic (int32_of served)
unfolding int32_of
int32_of-NoPanic served = ground (arith, bits32_of-NoPanic served)

module _ (N : Net) (L : IsLawful N) (s : State N (Client N)) (v : IsRegistered s.client) where
  abbrev Kept : State N (Client N) → Type 0
  Kept s' = Same s.client s'.client × IsRegistered s'.client

  abbrev Keep : {A : Type 0} → Outcome A × State N (Client N) → Type 0
  Keep r = Meets (λ _ s'. Kept s') (λ _ s'. Kept s') r

  same : Kept s
  same = (refl, v)

  lift_then :
      {A B : Type 0} (r : Outcome A) (f : A → Call N B)
      → NoPanic r
      → ((a : A) → Keep (f a s))
      → Keep (continue (lift r s) f)
  lift_then (ok a) f n k = k a
  lift_then (err e) f n k = same
  lift_then panic f n k = n

  reject_then :
      {B : Type 0} (test : Bool) (e : Error) (f : Unit {0} → Call N B)
      → Keep (f tt s)
      → Keep (continue (reject test e s) f)
  reject_then true e f k = same
  reject_then false e f k = k

  -- A step that works on no state, at the end.
  lift_last :
      {A : Type 0} (r : Outcome A) (s' : State N (Client N))
      → Kept s'
      → NoPanic r
      → Keep (lift r s')
  lift_last (ok a) s' h n = h
  lift_last (err e) s' h n = h
  lift_last panic s' h n = n

  send_command-Keeps : (cmd : List ℕ) → Keep (send_command N cmd s)
  send_command-Keeps cmd =
      weaken-Meets _ (λ _ s'. Kept s') _ (λ _ s'. Kept s') (send_command N cmd s)
        (allen_send_command-Meets N L s cmd v) (λ _ _ h. (h.0, λ _. h.2))
        (λ _ _ h. (h.0.0, λ p. absurd (p h.0.1)))

  read_raw-Keeps : (address : List ℕ) (n : ℤ) → Keep (read_raw N address n s)
  unfolding read_raw
  read_raw-Keeps address n =
      reject_then (not (is_positive n) || ltb 65535 (pos_part n)) length_not_in_range _ (
        let cmd = build_read_command s.client.session s.client.slot address (pos_part n) in
        continue-Meets (λ (_ : List ℕ) s'. Kept s') (λ _ s'. Kept s') (λ _ s'. Kept s')
          (send_command N cmd s) _ (send_command-Keeps cmd)
          (λ resp s' h. lift_last (read_data resp) s' h (read_data-NoPanic resp)))

  tag_then :
      {B : Type 0} (address : List ℕ) (f : Unit {0} → Call N B)
      → Keep (f tt s)
      → Keep (continue (lift (validate_allen_tag address) s) f)
  tag_then address f k =
      lift_then (validate_allen_tag address) f (validate_allen_tag-NoPanic address) (λ _. k)

  raw_then :
      {B : Type 0} (address : List ℕ) (n : ℤ) (f : List ℕ → Call N B)
      → ((served : List ℕ) (s' : State N (Client N)) → Kept s' → Keep (f served s'))
      → Keep (continue (read_raw N address n s) f)
  raw_then address n f k =
      continue-Meets (λ (_ : List ℕ) s'. Kept s') _ _ (read_raw N address n s) f
        (read_raw-Keeps address n) k

  int16_body-Keeps : (address : List ℕ) → Keep (int16_body N address s)
  unfolding int16_body
  int16_body-Keeps address = tag_then address _ (
      raw_then address (pos 2) _
        λ served s' h. lift_last (int16_of served) s' h (int16_of-NoPanic served))

  int32_body-Keeps : (address : List ℕ) → Keep (int32_body N address s)
  unfolding int32_body
  int32_body-Keeps address = tag_then address _ (
      raw_then address (pos 4) _
        λ served s' h. lift_last (int32_of served) s' h (int32_of-NoPanic served))

  bits32_body-Keeps : (address : List ℕ) → Keep (bits32_body N address s)
  unfolding bits32_body
  bits32_body-Keeps address = tag_then address _ (
      raw_then address (pos 4) _
        λ served s' h. lift_last (bits32_of served) s' h (bits32_of-NoPanic served))

  string_body-Keeps : (address : List ℕ) (n : ℤ) → Keep (string_body N address n s)
  unfolding string_body
  string_body-Keeps address n = tag_then address _ (
      reject_then (not (is_positive n)) read_length_not_positive _
        (raw_then address n _ λ served s' h. h))

  write_body-Keeps : (address : List ℕ) (value : Value) → Keep (write_body N address value s)
  unfolding write_body
  write_body-Keeps address value = tag_then address _ (
      lift_then (code_value value) _ (code_value-NoPanic value) λ a.
        let cmd =
          build_write_command s.client.session s.client.slot address a.type_code a.payload
            a.count in
        continue-Meets (λ (_ : List ℕ) s'. Kept s') (λ _ s'. Kept s') (λ _ s'. Kept s')
          (send_command N cmd s) _ (send_command-Keeps cmd) (λ _ _ h. h))

-- On every connection that meets the documentation, whatever the controller sends, each method of a
-- client that is not connected without a session returns a result, with no panic. The result says that it
-- succeeded exactly when it names no error, a failed read has the zero value, no field of the client
-- changes but the connection and the session, and again it is not connected without a session.
pub allen_methods-Answer :
    (N : Net) (L : IsLawful N) (s : State N (Client N))
    → IsRegistered s.client
    → (address : List ℕ) (n : ℤ) (value : Value)
    → let K = λ (s' : State N (Client N)). Same s.client s'.client × IsRegistered s'.client in
      AnswersT (pos 0) K (read_int16 N address s)
      × AnswersT (pos 0) K (read_int32 N address s)
      × AnswersT 0 K (read_float N address s)
      × AnswersT [] K (read_string N address n s)
      × Answers K (write N address value s)
unfolding read_int16 read_int32 read_float read_string write
allen_methods-Answer N L s v address n value = (
  finish_read-AnswersT (pos 0) (Kept N L s v) (int16_body N address s)
      (int16_body-Keeps N L s v address),
  finish_read-AnswersT (pos 0) (Kept N L s v) (int32_body N address s)
      (int32_body-Keeps N L s v address),
  finish_read-AnswersT 0 (Kept N L s v) (bits32_body N address s)
      (bits32_body-Keeps N L s v address),
  finish_read-AnswersT [] (Kept N L s v) (string_body N address n s)
      (string_body-Keeps N L s v address n),
  report-Answers (Kept N L s v) (write_body N address value s)
      (write_body-Keeps N L s v address value),
)
