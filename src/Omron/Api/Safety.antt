-- ===== src/Omron/Api/Safety.antt =====
-- Every method returns a result, whatever the connection does and the PLC sends.
use go_iot_client.Base.{
  ℕ, ◌+◌, ◌/◌, ◌%◌, ◌≡◌, refl, Bool, true, false, not, Option, none, some, List, [], ◌∷◌, length,
  map, arith,
}
use go_iot_client.Base.Int.{ℤ, pos, pos_part, is_positive}
use go_iot_client.Base.Words.{big, words_to_bytes}
use go_iot_client.Base.Slices.{index-nth}
use go_iot_client.Base.Outcome.{
  Error, Outcome, ok, err, panic, lift, reject, read_length_not_positive, continue, NoPanic, bind,
  Meets, continue-Meets, weaken-Meets,
}
use go_iot_client.Text.{parse_uint, trim_space, to_upper, split}
use go_iot_client.Core.Report.{Answers, AnswersT, report-Answers, finish_read-AnswersT}
use go_iot_client.Net.{Net, IsLawful, State}
use go_iot_client.Net.Keeps.{Keeps}
use go_iot_client.Omron.Client.{Client, Call}
use go_iot_client.Omron.Client.Safety.{Same}
use go_iot_client.Omron.Address.{Addr, area_code, parsed, bit_of, parse_upper, parse_omron_address}
use go_iot_client.Omron.Command.{build_memory_command, send_command, read_words_from, write_words}
use go_iot_client.Omron.Command.Safety.{send_command-Meets, omron_words_of-Words}
use go_iot_client.Omron.Api.{
  words_of_value, int16_of, bits32_of, int32_of, int16_body, int32_body, bits32_body, string_body,
  write_body, read_int16, read_int32, read_float, read_string, write,
}
use go_iot_client.Value.{Value, bool}

bind-NoPanic :
    {A B : Type 0} (r : Outcome A) (f : A → Outcome B)
    → NoPanic r
    → ((a : A) → NoPanic (f a))
    → NoPanic (bind r f)
bind-NoPanic (ok a) f h k = k a
bind-NoPanic (err e) f h k = tt
bind-NoPanic panic f h k = h

parsed-NoPanic : {A : Type 0} (o : Option A) → NoPanic (parsed o)
parsed-NoPanic none = tt
parsed-NoPanic (some n) = tt

bit_of-NoPanic : (parts : List (List ℕ)) → NoPanic (bit_of parts)
bit_of-NoPanic [] = tt
bit_of-NoPanic (bit ∷ rest) =
    bind-NoPanic (parsed (parse_uint 255 bit)) _ (parsed-NoPanic (parse_uint 255 bit))
      (λ b. ground arith)

parse_upper-NoPanic : (s : List ℕ) → NoPanic (parse_upper s)
unfolding parse_upper
parse_upper-NoPanic [] = tt
parse_upper-NoPanic (c ∷ raw) =
    bind-NoPanic (parsed (area_code c)) _ (parsed-NoPanic (area_code c)) λ code.
      bind-NoPanic (parsed (parse_uint 65535 (split b'.' raw).0)) _
        (parsed-NoPanic (parse_uint 65535 (split b'.' raw).0))
        λ w.
          bind-NoPanic (bit_of (split b'.' raw).1) _ (bit_of-NoPanic (split b'.' raw).1) (λ b. tt)

parse_omron_address-NoPanic : (address : List ℕ) → NoPanic (parse_omron_address address)
unfolding parse_omron_address
parse_omron_address-NoPanic address = parse_upper-NoPanic (map to_upper (trim_space address))

words_of_value-NoPanic : (v : Value) → NoPanic (words_of_value v)
unfolding words_of_value
words_of_value-NoPanic (bool v) = tt
words_of_value-NoPanic _ = tt

module _ (N : Net) (L : IsLawful N) (s : State N (Client N)) where
  abbrev Kept : State N (Client N) → Type 0
  Kept s' = Same s.client s'.client

  abbrev Keep : {A : Type 0} → Outcome A × State N (Client N) → Type 0
  Keep r = Keeps (Same s.client) r

  -- A step that works on no state.
  lift_then :
      {A B : Type 0} (r : Outcome A) (f : A → Call N B)
      → NoPanic r
      → ((a : A) → Keep (f a s))
      → Keep (continue (lift r s) f)
  lift_then (ok a) f n k = k a
  lift_then (err e) f n k = refl
  lift_then panic f n k = n

  reject_then :
      {B : Type 0} (test : Bool) (e : Error) (f : Unit {0} → Call N B)
      → Keep (f tt s)
      → Keep (continue (reject test e s) f)
  reject_then true e f k = refl
  reject_then false e f k = k

  send_command-Keeps : (cmd : List ℕ) → Keep (send_command N cmd s)
  send_command-Keeps cmd =
      weaken-Meets _ (λ _ s'. Kept s') _ (λ _ s'. Kept s') (send_command N cmd s)
        (send_command-Meets N L s cmd) (λ _ _ h. h.0) (λ _ _ h. h.0.0)

  read_words_from-Meets :
      (address : List ℕ) (count : ℕ)
      → Meets
          (λ ws s'. (length ws ≡ count) × Kept s')
          (λ _ s'. Kept s')
          (read_words_from N address count s)
  unfolding read_words_from
  read_words_from-Meets address count =
      continue-Meets (λ (_ : Addr) s'. s' ≡ s) _ (λ _ s'. Kept s')
        (lift (parse_omron_address address) s) _
        (ground (arith, parse_omron_address-NoPanic address))
        λ arg s' e. rw e (
          continue-Meets (λ (_ : List ℕ) s'. Kept s') _ (λ _ s'. Kept s')
            (send_command N (build_memory_command s.client 0x01 0x01 arg count []) s) _
            (send_command-Keeps (build_memory_command s.client 0x01 0x01 arg count []))
            λ resp s'' h. ground (arith, omron_words_of-Words count resp))

  write_words-Keeps : (address words : List ℕ) → Keep (write_words N address words s)
  unfolding write_words
  write_words-Keeps address words =
      lift_then (parse_omron_address address) _ (parse_omron_address-NoPanic address) λ arg.
        let cmd =
          build_memory_command s.client 0x01 0x02 arg (length words % 65536)
            (words_to_bytes big words) in
        continue-Meets (λ (_ : List ℕ) s'. Kept s') (λ _ s'. Kept s') (λ _ s'. Kept s')
          (send_command N cmd s) _ (send_command-Keeps cmd) (λ _ _ h. h)

  words_then :
      {B : Type 0} (address : List ℕ) (count : ℕ) (f : List ℕ → Call N B)
      → ((ws : List ℕ) (s' : State N (Client N)) → length ws ≡ count → Kept s' → Keep (f ws s'))
      → Keep (continue (read_words_from N address count s) f)
  words_then address count f k =
      continue-Meets (λ ws s'. (length ws ≡ count) × Kept s') _ _
        (read_words_from N address count s) f (read_words_from-Meets address count)
        (λ ws s' h. k ws s' h.0 h.1)

  int16_body-Keeps : (address : List ℕ) → Keep (int16_body N address s)
  unfolding int16_body int16_of
  int16_body-Keeps address = words_then address 1 _ λ ws s' e h. rw (index-nth ws 0 (omega arith)) h

  bits32_body-Keeps : (address : List ℕ) → Keep (bits32_body N address s)
  unfolding bits32_body bits32_of
  bits32_body-Keeps address =
      words_then address 2 _
        λ ws s' e h. rw (index-nth ws 0 (omega arith), index-nth ws 1 (omega arith)) h

  int32_body-Keeps : (address : List ℕ) → Keep (int32_body N address s)
  unfolding int32_body int32_of bits32_of
  int32_body-Keeps address =
      words_then address 2 _
        λ ws s' e h. rw (index-nth ws 0 (omega arith), index-nth ws 1 (omega arith)) h

  string_body-Keeps : (address : List ℕ) (n : ℤ) → Keep (string_body N address n s)
  unfolding string_body
  string_body-Keeps address n =
      reject_then (not (is_positive n)) read_length_not_positive _
        (words_then address ((pos_part n + 1) / 2 % 65536) _ λ ws s' e h. h)

  write_body-Keeps : (address : List ℕ) (value : Value) → Keep (write_body N address value s)
  unfolding write_body
  write_body-Keeps address value =
      lift_then (words_of_value value) _ (words_of_value-NoPanic value) (write_words-Keeps address)

-- On every connection that meets the documentation, whatever the PLC sends, each method returns a
-- result, with no panic. The result says that it succeeded exactly when it names no error, a failed read
-- has the zero value, and of the client's fields only the connection and the PLC's node number change.
pub omron_methods-Answer :
    (N : Net) (L : IsLawful N) (s : State N (Client N)) (address : List ℕ) (n : ℤ) (value : Value)
    → AnswersT (pos 0) (λ s'. Same s.client s'.client) (read_int16 N address s)
      × AnswersT (pos 0) (λ s'. Same s.client s'.client) (read_int32 N address s)
      × AnswersT 0 (λ s'. Same s.client s'.client) (read_float N address s)
      × AnswersT [] (λ s'. Same s.client s'.client) (read_string N address n s)
      × Answers (λ s'. Same s.client s'.client) (write N address value s)
unfolding read_int16 read_int32 read_float read_string write
omron_methods-Answer N L s address n value = (
  finish_read-AnswersT (pos 0) (Kept N L s) (int16_body N address s)
      (int16_body-Keeps N L s address),
  finish_read-AnswersT (pos 0) (Kept N L s) (int32_body N address s)
      (int32_body-Keeps N L s address),
  finish_read-AnswersT 0 (Kept N L s) (bits32_body N address s) (bits32_body-Keeps N L s address),
  finish_read-AnswersT [] (Kept N L s) (string_body N address n s)
      (string_body-Keeps N L s address n),
  report-Answers (Kept N L s) (write_body N address value s) (write_body-Keeps N L s address value),
)
